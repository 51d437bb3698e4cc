-- ===== src/Models/Inverses/Pipeline.antt =====
-- The models of pipelines: each can be read back after it was written.
use pipeline_operator.Prelude.{String, Option, refl}
use pipeline_operator.Value.{Value}
use pipeline_operator.Models.Codec.{from_json, to_json}
use pipeline_operator.Models.Codec.Laws.{
  Inverts, ReadsOwnText, instant?-IsInvertible, model?-IsInvertible, models-IsInvertible,
  models?-IsInvertible, plain?-IsInvertible,
}
use pipeline_operator.Models.Codec.Roundtrip.{model-Inverts}
use pipeline_operator.Models.Pipeline.{
  pipeline_spec_tasks_inner, pipeline_spec, pipeline_status, pipeline, pipeline_list,
}
use pipeline_operator.Models.Common.{
  pipeline_spec_history_limit, pipeline_spec_resource, pipeline_spec_schedule,
  pipeline_spec_volumes_inner,
}
use pipeline_operator.Models.Inverses.Common.{
  pipeline_spec_history_limit-Inverts, pipeline_spec_resource-Inverts,
  pipeline_spec_schedule-Inverts, pipeline_spec_volumes_inner-Inverts,
}
use pipeline_operator.Models.Meta.{list_meta, object_meta}
use pipeline_operator.Models.Inverses.Meta.{list_meta-Inverts, object_meta-Inverts}

pub pipeline_spec_tasks_inner-Inverts :
    Inverts (from_json pipeline_spec_tasks_inner) (to_json pipeline_spec_tasks_inner)
pipeline_spec_tasks_inner-Inverts =
    model-Inverts pipeline_spec_tasks_inner
      (
        plain?-IsInvertible "args",
        (
          plain?-IsInvertible "command",
          (
            plain?-IsInvertible "env",
            (
              plain?-IsInvertible "image",
              (
                plain?-IsInvertible "inputs",
                (
                  plain?-IsInvertible "name",
                  (
                    plain?-IsInvertible "outputs",
                    (
                      model?-IsInvertible pipeline_spec_resource pipeline_spec_resource-Inverts
                          "resource",
                      (
                        plain?-IsInvertible "runBefore",
                        (
                          model?-IsInvertible pipeline_spec_schedule pipeline_spec_schedule-Inverts
                              "schedule",
                          (plain?-IsInvertible "trigger", tt),
                        ),
                      ),
                    ),
                  ),
                ),
              ),
            ),
          ),
        ),
      )
      (refl, refl)

pub pipeline_spec-Inverts : Inverts (from_json pipeline_spec) (to_json pipeline_spec)
pipeline_spec-Inverts =
    model-Inverts pipeline_spec
      (
        plain?-IsInvertible "env",
        (
          model?-IsInvertible pipeline_spec_history_limit pipeline_spec_history_limit-Inverts
              "historyLimit",
          (
            plain?-IsInvertible "inputs",
            (
              plain?-IsInvertible "outputs",
              (
                model?-IsInvertible pipeline_spec_resource pipeline_spec_resource-Inverts
                    "resource",
                (
                  plain?-IsInvertible "runBefore",
                  (
                    model?-IsInvertible pipeline_spec_schedule pipeline_spec_schedule-Inverts
                        "schedule",
                    (
                      models?-IsInvertible pipeline_spec_tasks_inner
                          pipeline_spec_tasks_inner-Inverts "tasks",
                      (
                        plain?-IsInvertible "trigger",
                        (
                          models?-IsInvertible pipeline_spec_volumes_inner
                              pipeline_spec_volumes_inner-Inverts "volumes",
                          tt,
                        ),
                      ),
                    ),
                  ),
                ),
              ),
            ),
          ),
        ),
      )
      (refl, refl)

pub pipeline_status-Inverts :
    (parse_date : Value → Option String)
    → ReadsOwnText parse_date
    → Inverts (from_json (pipeline_status parse_date)) (to_json (pipeline_status parse_date))
pipeline_status-Inverts parse_date own =
    model-Inverts (pipeline_status parse_date)
      (
        instant?-IsInvertible parse_date own "createdDate",
        (instant?-IsInvertible parse_date own "lastUpdatedDate", (plain?-IsInvertible "runs", tt)),
      )
      (refl, refl)

pub pipeline-Inverts :
    (parse_date : Value → Option String)
    → ReadsOwnText parse_date
    → Inverts (from_json (pipeline parse_date)) (to_json (pipeline parse_date))
pipeline-Inverts parse_date own =
    model-Inverts (pipeline parse_date)
      (
        plain?-IsInvertible "apiVersion",
        (
          plain?-IsInvertible "kind",
          (
            model?-IsInvertible (object_meta parse_date) (object_meta-Inverts parse_date own)
                "metadata",
            (
              model?-IsInvertible pipeline_spec pipeline_spec-Inverts "spec",
              (
                model?-IsInvertible (pipeline_status parse_date)
                    (pipeline_status-Inverts parse_date own) "status",
                tt,
              ),
            ),
          ),
        ),
      )
      (refl, refl)

pub pipeline_list-Inverts :
    (parse_date : Value → Option String)
    → ReadsOwnText parse_date
    → Inverts (from_json (pipeline_list parse_date)) (to_json (pipeline_list parse_date))
pipeline_list-Inverts parse_date own =
    model-Inverts (pipeline_list parse_date)
      (
        plain?-IsInvertible "apiVersion",
        (
          models-IsInvertible (pipeline parse_date) (pipeline-Inverts parse_date own) "items",
          (
            plain?-IsInvertible "kind",
            (model?-IsInvertible list_meta list_meta-Inverts "metadata", tt),
          ),
        ),
      )
      (refl, refl)

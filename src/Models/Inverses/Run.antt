-- ===== src/Models/Inverses/Run.antt =====
-- The models of runs: each can be read back after it was written.
use pipeline_operator.Prelude.{String, Option, refl}
use pipeline_operator.Value.{Value}
use pipeline_operator.Models.Codec.{from_json, to_json}
use pipeline_operator.Models.Codec.Laws.{
  Inverts, ReadsOwnText, instant?-IsInvertible, model?-IsInvertible, models-IsInvertible,
  models?-IsInvertible, plain?-IsInvertible,
}
use pipeline_operator.Models.Codec.Roundtrip.{model-Inverts}
use pipeline_operator.Models.Run.{
  run_spec_jobs_inner, run_spec, run_status_job_states_inner, run_status, run, run_list,
}
use pipeline_operator.Models.Common.{
  pipeline_spec_history_limit, pipeline_spec_resource, pipeline_spec_schedule,
  pipeline_spec_volumes_inner,
}
use pipeline_operator.Models.Inverses.Common.{
  pipeline_spec_history_limit-Inverts, pipeline_spec_resource-Inverts,
  pipeline_spec_schedule-Inverts, pipeline_spec_volumes_inner-Inverts,
}
use pipeline_operator.Models.Meta.{list_meta, object_meta}
use pipeline_operator.Models.Inverses.Meta.{list_meta-Inverts, object_meta-Inverts}

pub run_spec_jobs_inner-Inverts :
    Inverts (from_json run_spec_jobs_inner) (to_json run_spec_jobs_inner)
run_spec_jobs_inner-Inverts =
    model-Inverts run_spec_jobs_inner
      (
        plain?-IsInvertible "args",
        (
          plain?-IsInvertible "command",
          (
            plain?-IsInvertible "env",
            (
              plain?-IsInvertible "image",
              (
                plain?-IsInvertible "inputs",
                (
                  plain?-IsInvertible "name",
                  (
                    plain?-IsInvertible "namespace",
                    (
                      plain?-IsInvertible "outputs",
                      (
                        model?-IsInvertible pipeline_spec_resource pipeline_spec_resource-Inverts
                            "resource",
                        (
                          plain?-IsInvertible "runBefore",
                          (
                            model?-IsInvertible pipeline_spec_schedule
                                pipeline_spec_schedule-Inverts "schedule",
                            (plain?-IsInvertible "trigger", tt),
                          ),
                        ),
                      ),
                    ),
                  ),
                ),
              ),
            ),
          ),
        ),
      )
      (refl, refl)

pub run_spec-Inverts : Inverts (from_json run_spec) (to_json run_spec)
run_spec-Inverts =
    model-Inverts run_spec
      (
        plain?-IsInvertible "env",
        (
          model?-IsInvertible pipeline_spec_history_limit pipeline_spec_history_limit-Inverts
              "historyLimit",
          (
            plain?-IsInvertible "inputs",
            (
              models?-IsInvertible run_spec_jobs_inner run_spec_jobs_inner-Inverts "jobs",
              (
                plain?-IsInvertible "outputs",
                (
                  model?-IsInvertible pipeline_spec_resource pipeline_spec_resource-Inverts
                      "resource",
                  (
                    plain?-IsInvertible "runBefore",
                    (
                      model?-IsInvertible pipeline_spec_schedule pipeline_spec_schedule-Inverts
                          "schedule",
                      (
                        plain?-IsInvertible "trigger",
                        (
                          models?-IsInvertible pipeline_spec_volumes_inner
                              pipeline_spec_volumes_inner-Inverts "volumes",
                          tt,
                        ),
                      ),
                    ),
                  ),
                ),
              ),
            ),
          ),
        ),
      )
      (refl, refl)

pub run_status_job_states_inner-Inverts :
    Inverts (from_json run_status_job_states_inner) (to_json run_status_job_states_inner)
run_status_job_states_inner-Inverts =
    model-Inverts run_status_job_states_inner
      (
        plain?-IsInvertible "jobState",
        (plain?-IsInvertible "name", (plain?-IsInvertible "reason", tt)),
      )
      (refl, refl)

pub run_status-Inverts :
    (parse_date : Value → Option String)
    → ReadsOwnText parse_date
    → Inverts (from_json (run_status parse_date)) (to_json (run_status parse_date))
run_status-Inverts parse_date own =
    model-Inverts (run_status parse_date)
      (
        models?-IsInvertible run_status_job_states_inner run_status_job_states_inner-Inverts
            "jobStates",
        (
          plain?-IsInvertible "completed",
          (
            instant?-IsInvertible parse_date own "createdDate",
            (
              plain?-IsInvertible "deleted",
              (
                plain?-IsInvertible "deleting",
                (
                  plain?-IsInvertible "failed",
                  (
                    plain?-IsInvertible "initializing",
                    (
                      instant?-IsInvertible parse_date own "lastUpdateDate",
                      (
                        plain?-IsInvertible "runState",
                        (
                          plain?-IsInvertible "running",
                          (plain?-IsInvertible "stopping", (plain?-IsInvertible "waiting", tt)),
                        ),
                      ),
                    ),
                  ),
                ),
              ),
            ),
          ),
        ),
      )
      (refl, refl)

pub run-Inverts :
    (parse_date : Value → Option String)
    → ReadsOwnText parse_date
    → Inverts (from_json (run parse_date)) (to_json (run parse_date))
run-Inverts parse_date own =
    model-Inverts (run parse_date)
      (
        plain?-IsInvertible "apiVersion",
        (
          plain?-IsInvertible "kind",
          (
            model?-IsInvertible (object_meta parse_date) (object_meta-Inverts parse_date own)
                "metadata",
            (
              model?-IsInvertible run_spec run_spec-Inverts "spec",
              (
                model?-IsInvertible (run_status parse_date) (run_status-Inverts parse_date own)
                    "status",
                tt,
              ),
            ),
          ),
        ),
      )
      (refl, refl)

pub run_list-Inverts :
    (parse_date : Value → Option String)
    → ReadsOwnText parse_date
    → Inverts (from_json (run_list parse_date)) (to_json (run_list parse_date))
run_list-Inverts parse_date own =
    model-Inverts (run_list parse_date)
      (
        plain?-IsInvertible "apiVersion",
        (
          models-IsInvertible (run parse_date) (run-Inverts parse_date own) "items",
          (
            plain?-IsInvertible "kind",
            (model?-IsInvertible list_meta list_meta-Inverts "metadata", tt),
          ),
        ),
      )
      (refl, refl)

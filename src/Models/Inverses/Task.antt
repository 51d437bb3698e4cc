-- ===== src/Models/Inverses/Task.antt =====
-- The models of tasks: each can be read back after it was written.
use pipeline_operator.Prelude.{String, Option, refl}
use pipeline_operator.Value.{Value}
use pipeline_operator.Models.Codec.{from_json, to_json}
use pipeline_operator.Models.Codec.Laws.{
  Inverts, ReadsOwnText, instant?-IsInvertible, model?-IsInvertible, models-IsInvertible,
  plain?-IsInvertible,
}
use pipeline_operator.Models.Codec.Roundtrip.{model-Inverts}
use pipeline_operator.Models.Task.{task_spec, task_status, task, task_list}
use pipeline_operator.Models.Meta.{list_meta, object_meta}
use pipeline_operator.Models.Inverses.Meta.{list_meta-Inverts, object_meta-Inverts}

pub task_spec-Inverts : Inverts (from_json task_spec) (to_json task_spec)
task_spec-Inverts =
    model-Inverts task_spec
      (
        plain?-IsInvertible "args",
        (
          plain?-IsInvertible "command",
          (plain?-IsInvertible "image", (plain?-IsInvertible "name", tt)),
        ),
      )
      (refl, refl)

pub task_status-Inverts :
    (parse_date : Value → Option String)
    → ReadsOwnText parse_date
    → Inverts (from_json (task_status parse_date)) (to_json (task_status parse_date))
task_status-Inverts parse_date own =
    model-Inverts (task_status parse_date)
      (
        instant?-IsInvertible parse_date own "createdDate",
        (plain?-IsInvertible "jobs", (instant?-IsInvertible parse_date own "lastUpdatedDate", tt)),
      )
      (refl, refl)

pub task-Inverts :
    (parse_date : Value → Option String)
    → ReadsOwnText parse_date
    → Inverts (from_json (task parse_date)) (to_json (task parse_date))
task-Inverts parse_date own =
    model-Inverts (task parse_date)
      (
        plain?-IsInvertible "apiVersion",
        (
          plain?-IsInvertible "kind",
          (
            model?-IsInvertible (object_meta parse_date) (object_meta-Inverts parse_date own)
                "metadata",
            (
              model?-IsInvertible task_spec task_spec-Inverts "spec",
              (
                model?-IsInvertible (task_status parse_date) (task_status-Inverts parse_date own)
                    "status",
                tt,
              ),
            ),
          ),
        ),
      )
      (refl, refl)

pub task_list-Inverts :
    (parse_date : Value → Option String)
    → ReadsOwnText parse_date
    → Inverts (from_json (task_list parse_date)) (to_json (task_list parse_date))
task_list-Inverts parse_date own =
    model-Inverts (task_list parse_date)
      (
        plain?-IsInvertible "apiVersion",
        (
          models-IsInvertible (task parse_date) (task-Inverts parse_date own) "items",
          (
            plain?-IsInvertible "kind",
            (model?-IsInvertible list_meta list_meta-Inverts "metadata", tt),
          ),
        ),
      )
      (refl, refl)

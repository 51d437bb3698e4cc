-- ===== src/Tests/Codecs.antt =====
-- Theorems on the models, at a run and at small objects.
use pipeline_operator.Prelude.{◌≡◌, refl}
use pipeline_operator.Value.{
  Value, undefined, null, string, number, date, array, object, Fields, nil, cons, end, field,
  dates_valid,
}
use pipeline_operator.Errors.{ok}
use pipeline_operator.Models.Codec.{
  from_json, to_json, read_fields, unless_nullish, map_array, map_items,
}
use pipeline_operator.Models.Codec.Laws.{ReadsOwnText}
use pipeline_operator.Models.Run.{run}
use pipeline_operator.Models.Common.{pipeline_spec_volumes_inner}
use pipeline_operator.Models.Rereads.{from_json-run, from_json-AgreeOn}
use pipeline_operator.Tests.Samples.{read_text, run_json}

pub read_text-ReadsOwnText : ReadsOwnText read_text
read_text-ReadsOwnText v iso h = refl

-- What the run is decoded to.
abbrev pub decoded_run : Value
decoded_run = object (
    field "apiVersion" (string "pipeline.1eedaegon.github.io/v1") (
      field "kind" (string "Run") (
        field "metadata" undefined (
          field "spec" undefined (
            field "status"
              (object (
                field "jobStates"
                  (array (
                    cons
                      (object (
                        field "jobState" (string "Running")
                          (field "name" (string "train") (field "reason" undefined end))))
                      nil))
                  (field "completed" undefined (
                    field "createdDate" (date "2024-05-01T00:00:00.000Z") (
                      field "deleted" undefined (
                        field "deleting" undefined (
                          field "failed" undefined (
                            field "initializing" undefined (
                              field "lastUpdateDate" undefined (
                                field "runState" undefined (
                                  field "running" undefined (
                                    field "stopping" undefined
                                      (field "waiting" undefined end)))))))))))))
              end)))))

abbrev with_status : Fields → Value
with_status fields = object (
    field "apiVersion" (string "pipeline.1eedaegon.github.io/v1") (
      field "kind" (string "Run")
        (field "metadata" undefined (field "spec" undefined (field "status" (object fields) end)))))

abbrev created_date : Value
created_date = date "2024-05-01T00:00:00.000Z"

abbrev decoded_pipeline : Value
decoded_pipeline = with_status (
    field "createdDate" created_date
      (field "lastUpdatedDate" undefined (field "runs" undefined end)))

abbrev decoded_task : Value
decoded_task = with_status (
    field "createdDate" created_date
      (field "jobs" undefined (field "lastUpdatedDate" undefined end)))

from_json-run_example :
    (u : Value) × (to_json (run read_text) decoded_run ≡ ok u)
    × (from_json (run read_text) u ≡ ok decoded_run)
unfolding from_json read_fields unless_nullish map_array map_items dates_valid
from_json-run_example =
    from_json-run read_text run_json decoded_run read_text-ReadsOwnText refl refl

-- A volume as the controller writes it, and what its model knows of it.
abbrev volume : Fields
volume = field "name" (string "data") (
    field "capacity" (number "10")
      (field "lifecycle" (string "Run") (field "accessModes" (array nil) end)))

abbrev known_volume : Fields
known_volume = field "capacity" (number "10") (field "name" (string "data") end)

from_json-AgreeOn_example :
    from_json pipeline_spec_volumes_inner (object volume)
    ≡ from_json pipeline_spec_volumes_inner (object known_volume)
from_json-AgreeOn_example =
    from_json-AgreeOn pipeline_spec_volumes_inner volume known_volume (refl, (refl, (refl, tt)))

abbrev decoded_volume : Fields
decoded_volume =
    field "capacity" (number "10") (field "name" (string "data") (field "storage" undefined end))

abbrev owner : Value
owner =
    object (field "apiVersion" (string "v1") (field "kind" (string "Run") (field "name" null end)))

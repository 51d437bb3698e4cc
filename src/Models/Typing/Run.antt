-- ===== src/Models/Typing/Run.antt =====
-- The models of runs read the values of the axios client as those of the fetch client.
use pipeline_operator.Prelude.{String, Option, refl}
use pipeline_operator.Value.{Value}
use pipeline_operator.Types.Decoding.{
  ReadsAll, done-ReadsAll, cons-ReadsAll, unless_nullish-ok-Reads, decode-Reads,
  unless_nullish-Reads, map_array-Decodes, from_json-Decodes, new_date-Decodes,
}
use pipeline_operator.Models.Run.{
  run_spec_jobs_inner, run_spec, run_status_job_states_inner, run_status, run, run_list,
}
use pipeline_operator.Axios.Interfaces.Runs.{
  run_interface, run_list_interface, run_spec_interface, run_spec_jobs_inner_interface,
  run_status_interface, run_status_job_states_inner_interface,
}
use pipeline_operator.Models.Interfaces.Run.{
  run_spec_jobs_inner_type, run_spec_type, run_status_job_states_inner_type, run_status_type,
  run_type, run_list_type,
}
use pipeline_operator.Models.Typing.Common.{
  pipeline_spec_history_limit-ReadsAll, pipeline_spec_resource-ReadsAll,
  pipeline_spec_schedule-ReadsAll, pipeline_spec_volumes_inner-ReadsAll,
}
use pipeline_operator.Models.Typing.Meta.{list_meta-ReadsAll, object_meta-ReadsAll}
use pipeline_operator.Models.Typing.{revised}

pub run_spec_jobs_inner-ReadsAll :
    ReadsAll run_spec_jobs_inner_interface run_spec_jobs_inner (revised run_spec_jobs_inner_type)
unfolding revised
run_spec_jobs_inner-ReadsAll = cons-ReadsAll refl refl refl unless_nullish-ok-Reads (
    cons-ReadsAll refl refl refl unless_nullish-ok-Reads (
      cons-ReadsAll refl refl refl unless_nullish-ok-Reads (
        cons-ReadsAll refl refl refl unless_nullish-ok-Reads (
          cons-ReadsAll refl refl refl unless_nullish-ok-Reads (
            cons-ReadsAll refl refl refl unless_nullish-ok-Reads (
              cons-ReadsAll refl refl refl unless_nullish-ok-Reads (
                cons-ReadsAll refl refl refl unless_nullish-ok-Reads (
                  cons-ReadsAll refl refl refl
                    (unless_nullish-Reads (from_json-Decodes pipeline_spec_resource-ReadsAll))
                    (cons-ReadsAll refl refl refl unless_nullish-ok-Reads (
                      cons-ReadsAll refl refl refl
                        (unless_nullish-Reads (from_json-Decodes pipeline_spec_schedule-ReadsAll))
                        (cons-ReadsAll refl refl refl unless_nullish-ok-Reads
                          done-ReadsAll)))))))))))

pub run_spec-ReadsAll : ReadsAll run_spec_interface run_spec (revised run_spec_type)
unfolding revised
run_spec-ReadsAll = cons-ReadsAll refl refl refl unless_nullish-ok-Reads (
    cons-ReadsAll refl refl refl
      (unless_nullish-Reads (from_json-Decodes pipeline_spec_history_limit-ReadsAll))
      (cons-ReadsAll refl refl refl unless_nullish-ok-Reads (
        cons-ReadsAll refl refl refl
          (unless_nullish-Reads
            (map_array-Decodes (from_json-Decodes run_spec_jobs_inner-ReadsAll)))
          (cons-ReadsAll refl refl refl unless_nullish-ok-Reads (
            cons-ReadsAll refl refl refl
              (unless_nullish-Reads (from_json-Decodes pipeline_spec_resource-ReadsAll))
              (cons-ReadsAll refl refl refl unless_nullish-ok-Reads (
                cons-ReadsAll refl refl refl
                  (unless_nullish-Reads (from_json-Decodes pipeline_spec_schedule-ReadsAll))
                  (cons-ReadsAll refl refl refl unless_nullish-ok-Reads (
                    cons-ReadsAll refl refl refl
                      (unless_nullish-Reads (
                        map_array-Decodes (from_json-Decodes pipeline_spec_volumes_inner-ReadsAll)))
                      done-ReadsAll)))))))))

pub run_status_job_states_inner-ReadsAll :
    ReadsAll run_status_job_states_inner_interface run_status_job_states_inner
      run_status_job_states_inner_type
run_status_job_states_inner-ReadsAll = cons-ReadsAll refl refl refl unless_nullish-ok-Reads (
    cons-ReadsAll refl refl refl unless_nullish-ok-Reads
      (cons-ReadsAll refl refl refl unless_nullish-ok-Reads done-ReadsAll))

pub run_status-ReadsAll :
    (parse_date : Value → Option String)
    → ReadsAll run_status_interface (run_status parse_date) run_status_type
run_status-ReadsAll parse_date =
    cons-ReadsAll refl refl refl
      (unless_nullish-Reads
        (map_array-Decodes (from_json-Decodes run_status_job_states_inner-ReadsAll)))
      (cons-ReadsAll refl refl refl unless_nullish-ok-Reads (
        cons-ReadsAll refl refl refl (unless_nullish-Reads (new_date-Decodes parse_date)) (
          cons-ReadsAll refl refl refl unless_nullish-ok-Reads (
            cons-ReadsAll refl refl refl unless_nullish-ok-Reads (
              cons-ReadsAll refl refl refl unless_nullish-ok-Reads (
                cons-ReadsAll refl refl refl unless_nullish-ok-Reads (
                  cons-ReadsAll refl refl refl (unless_nullish-Reads (new_date-Decodes parse_date))
                    (cons-ReadsAll refl refl refl unless_nullish-ok-Reads (
                      cons-ReadsAll refl refl refl unless_nullish-ok-Reads (
                        cons-ReadsAll refl refl refl unless_nullish-ok-Reads (
                          cons-ReadsAll refl refl refl unless_nullish-ok-Reads
                            done-ReadsAll)))))))))))

pub run-ReadsAll :
    (parse_date : Value → Option String)
    → ReadsAll run_interface (run parse_date) (revised run_type)
unfolding revised
run-ReadsAll parse_date = cons-ReadsAll refl refl refl unless_nullish-ok-Reads (
    cons-ReadsAll refl refl refl unless_nullish-ok-Reads (
      cons-ReadsAll refl refl refl
        (unless_nullish-Reads (from_json-Decodes (object_meta-ReadsAll parse_date)))
        (cons-ReadsAll refl refl refl (unless_nullish-Reads (from_json-Decodes run_spec-ReadsAll)) (
          cons-ReadsAll refl refl refl
            (unless_nullish-Reads (from_json-Decodes (run_status-ReadsAll parse_date)))
            done-ReadsAll))))

pub run_list-ReadsAll :
    (parse_date : Value → Option String)
    → ReadsAll run_list_interface (run_list parse_date) (revised run_list_type)
unfolding revised
run_list-ReadsAll parse_date = cons-ReadsAll refl refl refl unless_nullish-ok-Reads (
    cons-ReadsAll refl refl refl
      (decode-Reads (map_array-Decodes (from_json-Decodes (run-ReadsAll parse_date))))
      (cons-ReadsAll refl refl refl unless_nullish-ok-Reads (
        cons-ReadsAll refl refl refl (unless_nullish-Reads (from_json-Decodes list_meta-ReadsAll))
          done-ReadsAll)))

-- ===== src/Models/Interfaces/Run.antt =====
-- The interfaces of runs, from the files of
-- generated/sdk/ts-fetch/models.
use pipeline_operator.Types.{
  string_type, number_type, date_type, array_of, record_of, interface, must, may, Members, done,
  ◌⊕◌,
}
use pipeline_operator.Models.Interfaces.Common.{
  pipeline_spec_history_limit_type, pipeline_spec_resource_type, pipeline_spec_schedule_type,
  pipeline_spec_volumes_inner_type,
}
use pipeline_operator.Models.Interfaces.Meta.{list_meta_type, object_meta_type}

abbrev pub run_spec_jobs_inner_type : Members
run_spec_jobs_inner_type =
    may "args" (array_of string_type)
    ⊕ may "command" string_type
    ⊕ may "env" (record_of string_type)
    ⊕ may "image" string_type
    ⊕ may "inputs" (array_of string_type)
    ⊕ may "name" string_type
    ⊕ may "namespace" string_type
    ⊕ may "outputs" (array_of string_type)
    ⊕ may "resource" (interface pipeline_spec_resource_type)
    ⊕ may "runBefore" (array_of string_type)
    ⊕ may "schedule" (interface pipeline_spec_schedule_type)
    ⊕ may "trigger" string_type
    ⊕ done

abbrev pub run_spec_type : Members
run_spec_type =
    may "env" (record_of string_type)
    ⊕ may "historyLimit" (interface pipeline_spec_history_limit_type)
    ⊕ may "inputs" (array_of string_type)
    ⊕ may "jobs" (array_of (interface run_spec_jobs_inner_type))
    ⊕ may "outputs" (array_of string_type)
    ⊕ may "resource" (interface pipeline_spec_resource_type)
    ⊕ may "runBefore" (array_of string_type)
    ⊕ may "schedule" (interface pipeline_spec_schedule_type)
    ⊕ may "trigger" string_type
    ⊕ may "volumes" (array_of (interface pipeline_spec_volumes_inner_type))
    ⊕ done

abbrev pub run_status_job_states_inner_type : Members
run_status_job_states_inner_type =
    may "jobState" string_type ⊕ may "name" string_type ⊕ may "reason" string_type ⊕ done

abbrev pub run_status_type : Members
run_status_type =
    may "jobStates" (array_of (interface run_status_job_states_inner_type))
    ⊕ may "completed" number_type
    ⊕ may "createdDate" date_type
    ⊕ may "deleted" number_type
    ⊕ may "deleting" number_type
    ⊕ may "failed" number_type
    ⊕ may "initializing" number_type
    ⊕ may "lastUpdateDate" date_type
    ⊕ may "runState" string_type
    ⊕ may "running" number_type
    ⊕ may "stopping" number_type
    ⊕ may "waiting" number_type
    ⊕ done

abbrev pub run_type : Members
run_type =
    may "apiVersion" string_type
    ⊕ may "kind" string_type
    ⊕ may "metadata" (interface object_meta_type)
    ⊕ may "spec" (interface run_spec_type)
    ⊕ may "status" (interface run_status_type)
    ⊕ done

abbrev pub run_list_type : Members
run_list_type =
    may "apiVersion" string_type
    ⊕ must "items" (array_of (interface run_type))
    ⊕ may "kind" string_type
    ⊕ may "metadata" (interface list_meta_type)
    ⊕ done

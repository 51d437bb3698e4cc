-- ===== src/Axios/Interfaces/Runs.antt =====
-- The interfaces of runs in
-- generated/sdk/ts-axios/api.ts.
use pipeline_operator.Types.{
  string_type, number_type, array_of, record_of, interface, must, may, Members, done, ◌⊕◌,
}
use pipeline_operator.Axios.Interfaces.Meta.{list_meta_interface, object_meta_interface}
use pipeline_operator.Axios.Interfaces.Containers.{container_interface}
use pipeline_operator.Axios.Interfaces.Pods.{pod_interface}
use pipeline_operator.Axios.Interfaces.Specs.{
  pipeline_spec_history_limit_interface, pipeline_spec_inputs_inner_interface,
  pipeline_spec_resource_interface, pipeline_spec_schedule_interface,
  pipeline_spec_volumes_inner_interface,
}

abbrev pub run_spec_jobs_inner_interface : Members
run_spec_jobs_inner_interface =
    may "additionalContainerSpecs" (interface container_interface)
    ⊕ may "additionalPodSpecs" (interface pod_interface)
    ⊕ may "args" (array_of string_type)
    ⊕ may "command" string_type
    ⊕ may "env" (record_of string_type)
    ⊕ may "image" string_type
    ⊕ may "inputs" (array_of (interface pipeline_spec_inputs_inner_interface))
    ⊕ may "name" string_type
    ⊕ may "namespace" string_type
    ⊕ may "outputs" (array_of (interface pipeline_spec_inputs_inner_interface))
    ⊕ may "resource" (interface pipeline_spec_resource_interface)
    ⊕ may "runBefore" (array_of string_type)
    ⊕ may "schedule" (interface pipeline_spec_schedule_interface)
    ⊕ may "trigger" string_type
    ⊕ done

abbrev pub run_spec_interface : Members
run_spec_interface =
    may "additionalContainerSpecs" (interface container_interface)
    ⊕ may "additionalPodSpecs" (interface pod_interface)
    ⊕ may "env" (record_of string_type)
    ⊕ may "historyLimit" (interface pipeline_spec_history_limit_interface)
    ⊕ may "inputs" (array_of (interface pipeline_spec_inputs_inner_interface))
    ⊕ may "jobs" (array_of (interface run_spec_jobs_inner_interface))
    ⊕ may "outputs" (array_of (interface pipeline_spec_inputs_inner_interface))
    ⊕ may "resource" (interface pipeline_spec_resource_interface)
    ⊕ may "runBefore" (array_of string_type)
    ⊕ may "schedule" (interface pipeline_spec_schedule_interface)
    ⊕ may "trigger" string_type
    ⊕ may "volumes" (array_of (interface pipeline_spec_volumes_inner_interface))
    ⊕ done

abbrev pub run_status_job_states_inner_interface : Members
run_status_job_states_inner_interface =
    may "jobState" string_type
    ⊕ may "name" string_type
    ⊕ may "reason" string_type
    ⊕ may "runJobName" string_type
    ⊕ done

abbrev pub run_status_interface : Members
run_status_interface =
    may "JobStates" (array_of (interface run_status_job_states_inner_interface))
    ⊕ may "completed" number_type
    ⊕ may "createdDate" string_type
    ⊕ may "deleted" number_type
    ⊕ may "deleting" number_type
    ⊕ may "failed" number_type
    ⊕ may "initializing" number_type
    ⊕ may "lastUpdateDate" string_type
    ⊕ may "runState" string_type
    ⊕ may "running" number_type
    ⊕ may "stopping" number_type
    ⊕ may "waiting" number_type
    ⊕ done

abbrev pub run_interface : Members
run_interface =
    may "apiVersion" string_type
    ⊕ may "kind" string_type
    ⊕ may "metadata" (interface object_meta_interface)
    ⊕ may "spec" (interface run_spec_interface)
    ⊕ may "status" (interface run_status_interface)
    ⊕ done

abbrev pub run_list_interface : Members
run_list_interface =
    may "apiVersion" string_type
    ⊕ must "items" (array_of (interface run_interface))
    ⊕ may "kind" string_type
    ⊕ may "metadata" (interface list_meta_interface)
    ⊕ done

-- ===== src/Axios/Interfaces/Pipelines.antt =====
-- The interfaces of pipelines in
-- generated/sdk/ts-axios/api.ts.
use pipeline_operator.Types.{
  string_type, number_type, boolean_type, array_of, record_of, interface, must, may, Members, done,
  ◌⊕◌,
}
use pipeline_operator.Axios.Interfaces.Meta.{list_meta_interface, object_meta_interface}
use pipeline_operator.Axios.Interfaces.Containers.{container_interface}
use pipeline_operator.Axios.Interfaces.Pods.{pod_interface}
use pipeline_operator.Axios.Interfaces.Specs.{
  pipeline_spec_history_limit_interface, pipeline_spec_inputs_inner_interface,
  pipeline_spec_resource_interface, pipeline_spec_schedule_interface,
  pipeline_spec_volumes_inner_interface,
}

abbrev pub pipeline_spec_tasks_inner_interface : Members
pipeline_spec_tasks_inner_interface =
    may "additionalContainerSpecs" (interface container_interface)
    ⊕ may "additionalPodSpecs" (interface pod_interface)
    ⊕ may "args" (array_of string_type)
    ⊕ may "command" string_type
    ⊕ may "env" (record_of string_type)
    ⊕ may "image" string_type
    ⊕ may "inputs" (array_of (interface pipeline_spec_inputs_inner_interface))
    ⊕ may "name" string_type
    ⊕ may "outputs" (array_of (interface pipeline_spec_inputs_inner_interface))
    ⊕ may "resource" (interface pipeline_spec_resource_interface)
    ⊕ may "runBefore" (array_of string_type)
    ⊕ may "schedule" (interface pipeline_spec_schedule_interface)
    ⊕ may "trigger" boolean_type
    ⊕ done

abbrev pub pipeline_spec_interface : Members
pipeline_spec_interface =
    may "additionalContainerSpecs" (interface container_interface)
    ⊕ may "additionalPodSpecs" (interface pod_interface)
    ⊕ may "env" (record_of string_type)
    ⊕ may "historyLimit" (interface pipeline_spec_history_limit_interface)
    ⊕ may "inputs" (array_of (interface pipeline_spec_inputs_inner_interface))
    ⊕ may "outputs" (array_of (interface pipeline_spec_inputs_inner_interface))
    ⊕ may "resource" (interface pipeline_spec_resource_interface)
    ⊕ may "runBefore" (array_of string_type)
    ⊕ may "schedule" (interface pipeline_spec_schedule_interface)
    ⊕ may "tasks" (array_of (interface pipeline_spec_tasks_inner_interface))
    ⊕ may "trigger" boolean_type
    ⊕ may "volumes" (array_of (interface pipeline_spec_volumes_inner_interface))
    ⊕ done

abbrev pub pipeline_status_interface : Members
pipeline_status_interface =
    may "createdDate" string_type
    ⊕ may "lastUpdatedDate" string_type
    ⊕ may "runs" number_type
    ⊕ done

abbrev pub pipeline_interface : Members
pipeline_interface =
    may "apiVersion" string_type
    ⊕ may "kind" string_type
    ⊕ may "metadata" (interface object_meta_interface)
    ⊕ may "spec" (interface pipeline_spec_interface)
    ⊕ may "status" (interface pipeline_status_interface)
    ⊕ done

abbrev pub pipeline_list_interface : Members
pipeline_list_interface =
    may "apiVersion" string_type
    ⊕ must "items" (array_of (interface pipeline_interface))
    ⊕ may "kind" string_type
    ⊕ may "metadata" (interface list_meta_interface)
    ⊕ done

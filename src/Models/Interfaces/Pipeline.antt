-- ===== src/Models/Interfaces/Pipeline.antt =====
-- The interfaces of pipelines, from the files of
-- generated/sdk/ts-fetch/models.
use pipeline_operator.Types.{
  string_type, number_type, boolean_type, date_type, array_of, record_of, interface, must, may,
  Members, done, ◌⊕◌,
}
use pipeline_operator.Models.Interfaces.Common.{
  pipeline_spec_history_limit_type, pipeline_spec_resource_type, pipeline_spec_schedule_type,
  pipeline_spec_volumes_inner_type,
}
use pipeline_operator.Models.Interfaces.Meta.{list_meta_type, object_meta_type}

abbrev pub pipeline_spec_tasks_inner_type : Members
pipeline_spec_tasks_inner_type =
    may "args" (array_of string_type)
    ⊕ may "command" string_type
    ⊕ may "env" (record_of string_type)
    ⊕ may "image" string_type
    ⊕ may "inputs" (array_of string_type)
    ⊕ may "name" string_type
    ⊕ may "outputs" (array_of string_type)
    ⊕ may "resource" (interface pipeline_spec_resource_type)
    ⊕ may "runBefore" (array_of string_type)
    ⊕ may "schedule" (interface pipeline_spec_schedule_type)
    ⊕ may "trigger" boolean_type
    ⊕ done

abbrev pub pipeline_spec_type : Members
pipeline_spec_type =
    may "env" (record_of string_type)
    ⊕ may "historyLimit" (interface pipeline_spec_history_limit_type)
    ⊕ may "inputs" (array_of string_type)
    ⊕ may "outputs" (array_of string_type)
    ⊕ may "resource" (interface pipeline_spec_resource_type)
    ⊕ may "runBefore" (array_of string_type)
    ⊕ may "schedule" (interface pipeline_spec_schedule_type)
    ⊕ may "tasks" (array_of (interface pipeline_spec_tasks_inner_type))
    ⊕ may "trigger" boolean_type
    ⊕ may "volumes" (array_of (interface pipeline_spec_volumes_inner_type))
    ⊕ done

abbrev pub pipeline_status_type : Members
pipeline_status_type =
    may "createdDate" date_type ⊕ may "lastUpdatedDate" date_type ⊕ may "runs" number_type ⊕ done

abbrev pub pipeline_type : Members
pipeline_type =
    may "apiVersion" string_type
    ⊕ may "kind" string_type
    ⊕ may "metadata" (interface object_meta_type)
    ⊕ may "spec" (interface pipeline_spec_type)
    ⊕ may "status" (interface pipeline_status_type)
    ⊕ done

abbrev pub pipeline_list_type : Members
pipeline_list_type =
    may "apiVersion" string_type
    ⊕ must "items" (array_of (interface pipeline_type))
    ⊕ may "kind" string_type
    ⊕ may "metadata" (interface list_meta_type)
    ⊕ done

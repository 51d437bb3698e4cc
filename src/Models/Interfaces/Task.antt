-- ===== src/Models/Interfaces/Task.antt =====
-- The interfaces of tasks, from the files of
-- generated/sdk/ts-fetch/models.
use pipeline_operator.Types.{
  string_type, number_type, date_type, array_of, interface, must, may, Members, done, ◌⊕◌,
}
use pipeline_operator.Models.Interfaces.Meta.{list_meta_type, object_meta_type}

abbrev pub task_spec_type : Members
task_spec_type =
    may "args" (array_of string_type)
    ⊕ may "command" string_type
    ⊕ may "image" string_type
    ⊕ may "name" string_type
    ⊕ done

abbrev pub task_status_type : Members
task_status_type =
    may "createdDate" date_type ⊕ may "jobs" number_type ⊕ may "lastUpdatedDate" date_type ⊕ done

abbrev pub task_type : Members
task_type =
    may "apiVersion" string_type
    ⊕ may "kind" string_type
    ⊕ may "metadata" (interface object_meta_type)
    ⊕ may "spec" (interface task_spec_type)
    ⊕ may "status" (interface task_status_type)
    ⊕ done

abbrev pub task_list_type : Members
task_list_type =
    may "apiVersion" string_type
    ⊕ must "items" (array_of (interface task_type))
    ⊕ may "kind" string_type
    ⊕ may "metadata" (interface list_meta_type)
    ⊕ done

-- ===== src/Axios/Interfaces/Tasks.antt =====
-- The interfaces of tasks in
-- generated/sdk/ts-axios/api.ts.
use pipeline_operator.Types.{
  string_type, number_type, array_of, interface, must, may, Members, done, ◌⊕◌,
}
use pipeline_operator.Axios.Interfaces.Meta.{list_meta_interface, object_meta_interface}

abbrev pub task_spec_interface : Members
task_spec_interface =
    may "args" (array_of string_type)
    ⊕ may "command" string_type
    ⊕ may "image" string_type
    ⊕ may "name" string_type
    ⊕ done

abbrev pub task_status_interface : Members
task_status_interface =
    may "createdDate" string_type
    ⊕ may "jobs" number_type
    ⊕ may "lastUpdatedDate" string_type
    ⊕ done

abbrev pub task_interface : Members
task_interface =
    may "apiVersion" string_type
    ⊕ may "kind" string_type
    ⊕ may "metadata" (interface object_meta_interface)
    ⊕ may "spec" (interface task_spec_interface)
    ⊕ may "status" (interface task_status_interface)
    ⊕ done

abbrev pub task_list_interface : Members
task_list_interface =
    may "apiVersion" string_type
    ⊕ must "items" (array_of (interface task_interface))
    ⊕ may "kind" string_type
    ⊕ may "metadata" (interface list_meta_interface)
    ⊕ done

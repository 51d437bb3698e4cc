-- ===== src/Axios/Interfaces/Specs.antt =====
-- The interfaces that pipelines and runs share in
-- generated/sdk/ts-axios/api.ts.
use pipeline_operator.Types.{
  string_type, number_type, boolean_type, interface, may, Members, done, ◌⊕◌,
}

abbrev pub pipeline_spec_history_limit_interface : Members
pipeline_spec_history_limit_interface = may "amount" number_type ⊕ may "date" string_type ⊕ done

abbrev pub pipeline_spec_inputs_inner_interface : Members
pipeline_spec_inputs_inner_interface =
    may "name" string_type ⊕ may "useIntermediateDirectory" boolean_type ⊕ done

abbrev pub pipeline_spec_resource_gpu_interface : Members
pipeline_spec_resource_gpu_interface = may "amount" number_type ⊕ may "type" string_type ⊕ done

abbrev pub pipeline_spec_resource_interface : Members
pipeline_spec_resource_interface =
    may "cpu" string_type
    ⊕ may "gpu" (interface pipeline_spec_resource_gpu_interface)
    ⊕ may "memory" string_type
    ⊕ done

abbrev pub pipeline_spec_schedule_interface : Members
pipeline_spec_schedule_interface = may "endDate" string_type ⊕ may "scheduleDate" string_type ⊕ done

abbrev pub pipeline_spec_volumes_inner_interface : Members
pipeline_spec_volumes_inner_interface =
    may "capacity" string_type ⊕ may "name" string_type ⊕ may "storage" string_type ⊕ done

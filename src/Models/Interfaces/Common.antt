-- ===== src/Models/Interfaces/Common.antt =====
-- The interfaces that pipelines and runs share, from the files of
-- generated/sdk/ts-fetch/models.
use pipeline_operator.Types.{string_type, number_type, interface, may, Members, done, ◌⊕◌}

abbrev pub pipeline_spec_history_limit_type : Members
pipeline_spec_history_limit_type = may "amount" number_type ⊕ may "date" string_type ⊕ done

abbrev pub pipeline_spec_resource_gpu_type : Members
pipeline_spec_resource_gpu_type = may "amount" number_type ⊕ may "type" string_type ⊕ done

abbrev pub pipeline_spec_resource_type : Members
pipeline_spec_resource_type =
    may "cpu" string_type
    ⊕ may "gpu" (interface pipeline_spec_resource_gpu_type)
    ⊕ may "memory" string_type
    ⊕ done

abbrev pub pipeline_spec_schedule_type : Members
pipeline_spec_schedule_type = may "endDate" string_type ⊕ may "scheduleDate" string_type ⊕ done

abbrev pub pipeline_spec_volumes_inner_type : Members
pipeline_spec_volumes_inner_type =
    may "capacity" string_type ⊕ may "name" string_type ⊕ may "storage" string_type ⊕ done

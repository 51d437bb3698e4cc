-- ===== src/Axios/Interfaces/Environments.antt =====
-- The interfaces of environments of containers in
-- generated/sdk/ts-axios/api.ts.
use pipeline_operator.Types.{
  string_type, boolean_type, object_type, interface, must, may, Members, done, ◌⊕◌,
}

abbrev pub container_env_from_inner_config_map_ref_interface : Members
container_env_from_inner_config_map_ref_interface =
    may "name" string_type ⊕ may "optional" boolean_type ⊕ done

abbrev pub container_env_from_inner_interface : Members
container_env_from_inner_interface =
    may "configMapRef" (interface container_env_from_inner_config_map_ref_interface)
    ⊕ may "prefix" string_type
    ⊕ may "secretRef" (interface container_env_from_inner_config_map_ref_interface)
    ⊕ done

abbrev pub container_env_inner_value_from_config_map_key_ref_interface : Members
container_env_inner_value_from_config_map_key_ref_interface =
    must "key" string_type ⊕ may "name" string_type ⊕ may "optional" boolean_type ⊕ done

abbrev pub container_env_inner_value_from_field_ref_interface : Members
container_env_inner_value_from_field_ref_interface =
    may "apiVersion" string_type ⊕ must "fieldPath" string_type ⊕ done

abbrev pub container_env_inner_value_from_resource_field_ref_interface : Members
container_env_inner_value_from_resource_field_ref_interface =
    may "containerName" string_type ⊕ may "divisor" object_type ⊕ must "resource" string_type ⊕ done

abbrev pub container_env_inner_value_from_interface : Members
container_env_inner_value_from_interface =
    may "configMapKeyRef" (interface container_env_inner_value_from_config_map_key_ref_interface)
    ⊕ may "fieldRef" (interface container_env_inner_value_from_field_ref_interface)
    ⊕ may "resourceFieldRef" (interface container_env_inner_value_from_resource_field_ref_interface)
    ⊕ may "secretKeyRef" (interface container_env_inner_value_from_config_map_key_ref_interface)
    ⊕ done

abbrev pub container_env_inner_interface : Members
container_env_inner_interface =
    must "name" string_type
    ⊕ may "value" string_type
    ⊕ may "valueFrom" (interface container_env_inner_value_from_interface)
    ⊕ done

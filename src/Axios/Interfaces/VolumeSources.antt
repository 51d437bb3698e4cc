-- ===== src/Axios/Interfaces/VolumeSources.antt =====
-- The interfaces of the sources of volumes, from AWS to hosts in
-- generated/sdk/ts-axios/api.ts.
use pipeline_operator.Types.{
  string_type, number_type, boolean_type, object_type, array_of, record_of, interface, must, may,
  Members, done, ◌⊕◌,
}
use pipeline_operator.Axios.Interfaces.Shared.{
  pod_label_selector_interface, pod_image_pull_secrets_inner_interface,
}
use pipeline_operator.Axios.Interfaces.Environments.{
  container_env_inner_value_from_field_ref_interface,
  container_env_inner_value_from_resource_field_ref_interface,
}

abbrev pub pod_volumes_inner_aws_elastic_block_store_interface : Members
pod_volumes_inner_aws_elastic_block_store_interface =
    may "fsType" string_type
    ⊕ may "partition" number_type
    ⊕ may "readOnly" boolean_type
    ⊕ must "volumeID" string_type
    ⊕ done

abbrev pub pod_volumes_inner_azure_disk_interface : Members
pod_volumes_inner_azure_disk_interface =
    may "cachingMode" string_type
    ⊕ must "diskName" string_type
    ⊕ must "diskURI" string_type
    ⊕ may "fsType" string_type
    ⊕ may "kind" string_type
    ⊕ may "readOnly" boolean_type
    ⊕ done

abbrev pub pod_volumes_inner_azure_file_interface : Members
pod_volumes_inner_azure_file_interface =
    may "readOnly" boolean_type
    ⊕ must "secretName" string_type
    ⊕ must "shareName" string_type
    ⊕ done

abbrev pub pod_volumes_inner_cephfs_interface : Members
pod_volumes_inner_cephfs_interface =
    must "monitors" (array_of string_type)
    ⊕ may "path" string_type
    ⊕ may "readOnly" boolean_type
    ⊕ may "secretFile" string_type
    ⊕ may "secretRef" (interface pod_image_pull_secrets_inner_interface)
    ⊕ may "user" string_type
    ⊕ done

abbrev pub pod_volumes_inner_cinder_interface : Members
pod_volumes_inner_cinder_interface =
    may "fsType" string_type
    ⊕ may "readOnly" boolean_type
    ⊕ may "secretRef" (interface pod_image_pull_secrets_inner_interface)
    ⊕ must "volumeID" string_type
    ⊕ done

abbrev pub pod_volumes_inner_config_map_items_inner_interface : Members
pod_volumes_inner_config_map_items_inner_interface =
    must "key" string_type ⊕ may "mode" number_type ⊕ must "path" string_type ⊕ done

abbrev pub pod_volumes_inner_config_map_interface : Members
pod_volumes_inner_config_map_interface =
    may "defaultMode" number_type
    ⊕ may "items" (array_of (interface pod_volumes_inner_config_map_items_inner_interface))
    ⊕ may "name" string_type
    ⊕ may "optional" boolean_type
    ⊕ done

abbrev pub pod_volumes_inner_csi_interface : Members
pod_volumes_inner_csi_interface =
    must "driver" string_type
    ⊕ may "fsType" string_type
    ⊕ may "nodePublishSecretRef" (interface pod_image_pull_secrets_inner_interface)
    ⊕ may "readOnly" boolean_type
    ⊕ may "volumeAttributes" (record_of string_type)
    ⊕ done

abbrev pub pod_volumes_inner_downward_api_items_inner_interface : Members
pod_volumes_inner_downward_api_items_inner_interface =
    may "fieldRef" (interface container_env_inner_value_from_field_ref_interface)
    ⊕ may "mode" number_type
    ⊕ must "path" string_type
    ⊕ may "resourceFieldRef" (interface container_env_inner_value_from_resource_field_ref_interface)
    ⊕ done

abbrev pub pod_volumes_inner_downward_api_interface : Members
pod_volumes_inner_downward_api_interface =
    may "defaultMode" number_type
    ⊕ may "items" (array_of (interface pod_volumes_inner_downward_api_items_inner_interface))
    ⊕ done

abbrev pub pod_volumes_inner_empty_dir_interface : Members
pod_volumes_inner_empty_dir_interface =
    may "medium" string_type ⊕ may "sizeLimit" object_type ⊕ done

abbrev pub pod_volumes_inner_ephemeral_volume_claim_template_spec_data_source_interface : Members
pod_volumes_inner_ephemeral_volume_claim_template_spec_data_source_interface =
    may "apiGroup" string_type ⊕ must "kind" string_type ⊕ must "name" string_type ⊕ done

abbrev pub pod_volumes_inner_ephemeral_volume_claim_template_spec_data_source_ref_interface :
    Members
pod_volumes_inner_ephemeral_volume_claim_template_spec_data_source_ref_interface =
    may "apiGroup" string_type
    ⊕ must "kind" string_type
    ⊕ must "name" string_type
    ⊕ may "namespace" string_type
    ⊕ done

abbrev pub pod_volumes_inner_ephemeral_volume_claim_template_spec_resources_interface : Members
pod_volumes_inner_ephemeral_volume_claim_template_spec_resources_interface =
    may "limits" (record_of object_type) ⊕ may "requests" (record_of object_type) ⊕ done

abbrev pub pod_volumes_inner_ephemeral_volume_claim_template_spec_interface : Members
pod_volumes_inner_ephemeral_volume_claim_template_spec_interface =
    may "accessModes" (array_of string_type)
    ⊕ may "dataSource"
        (interface pod_volumes_inner_ephemeral_volume_claim_template_spec_data_source_interface)
    ⊕ may "dataSourceRef"
        (interface pod_volumes_inner_ephemeral_volume_claim_template_spec_data_source_ref_interface)
    ⊕ may "resources"
        (interface pod_volumes_inner_ephemeral_volume_claim_template_spec_resources_interface)
    ⊕ may "selector" (interface pod_label_selector_interface)
    ⊕ may "storageClassName" string_type
    ⊕ may "volumeAttributesClassName" string_type
    ⊕ may "volumeMode" string_type
    ⊕ may "volumeName" string_type
    ⊕ done

abbrev pub pod_volumes_inner_ephemeral_volume_claim_template_interface : Members
pod_volumes_inner_ephemeral_volume_claim_template_interface =
    may "metadata" object_type
    ⊕ must "spec" (interface pod_volumes_inner_ephemeral_volume_claim_template_spec_interface)
    ⊕ done

abbrev pub pod_volumes_inner_ephemeral_interface : Members
pod_volumes_inner_ephemeral_interface =
    may "volumeClaimTemplate"
      (interface pod_volumes_inner_ephemeral_volume_claim_template_interface)
    ⊕ done

abbrev pub pod_volumes_inner_fc_interface : Members
pod_volumes_inner_fc_interface =
    may "fsType" string_type
    ⊕ may "lun" number_type
    ⊕ may "readOnly" boolean_type
    ⊕ may "targetWWNs" (array_of string_type)
    ⊕ may "wwids" (array_of string_type)
    ⊕ done

abbrev pub pod_volumes_inner_flex_volume_interface : Members
pod_volumes_inner_flex_volume_interface =
    must "driver" string_type
    ⊕ may "fsType" string_type
    ⊕ may "options" (record_of string_type)
    ⊕ may "readOnly" boolean_type
    ⊕ may "secretRef" (interface pod_image_pull_secrets_inner_interface)
    ⊕ done

abbrev pub pod_volumes_inner_flocker_interface : Members
pod_volumes_inner_flocker_interface =
    may "datasetName" string_type ⊕ may "datasetUUID" string_type ⊕ done

abbrev pub pod_volumes_inner_gce_persistent_disk_interface : Members
pod_volumes_inner_gce_persistent_disk_interface =
    may "fsType" string_type
    ⊕ may "partition" number_type
    ⊕ must "pdName" string_type
    ⊕ may "readOnly" boolean_type
    ⊕ done

abbrev pub pod_volumes_inner_git_repo_interface : Members
pod_volumes_inner_git_repo_interface =
    may "directory" string_type ⊕ must "repository" string_type ⊕ may "revision" string_type ⊕ done

abbrev pub pod_volumes_inner_glusterfs_interface : Members
pod_volumes_inner_glusterfs_interface =
    must "endpoints" string_type ⊕ must "path" string_type ⊕ may "readOnly" boolean_type ⊕ done

abbrev pub pod_volumes_inner_host_path_interface : Members
pod_volumes_inner_host_path_interface = must "path" string_type ⊕ may "type" string_type ⊕ done

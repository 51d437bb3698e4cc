-- ===== src/Axios/Interfaces/VolumePlugins.antt =====
-- The interfaces of the sources of volumes, from iSCSI to vSphere in
-- generated/sdk/ts-axios/api.ts.
use pipeline_operator.Types.{
  string_type, number_type, boolean_type, array_of, interface, must, may, Members, done, ◌⊕◌,
}
use pipeline_operator.Axios.Interfaces.Shared.{
  pod_label_selector_interface, pod_image_pull_secrets_inner_interface,
}
use pipeline_operator.Axios.Interfaces.VolumeSources.{
  pod_volumes_inner_config_map_items_inner_interface,
  pod_volumes_inner_downward_api_items_inner_interface,
}

abbrev pub pod_volumes_inner_iscsi_interface : Members
pod_volumes_inner_iscsi_interface =
    may "chapAuthDiscovery" boolean_type
    ⊕ may "chapAuthSession" boolean_type
    ⊕ may "fsType" string_type
    ⊕ may "initiatorName" string_type
    ⊕ must "iqn" string_type
    ⊕ may "iscsiInterface" string_type
    ⊕ must "lun" number_type
    ⊕ may "portals" (array_of string_type)
    ⊕ may "readOnly" boolean_type
    ⊕ may "secretRef" (interface pod_image_pull_secrets_inner_interface)
    ⊕ must "targetPortal" string_type
    ⊕ done

abbrev pub pod_volumes_inner_nfs_interface : Members
pod_volumes_inner_nfs_interface =
    must "path" string_type ⊕ may "readOnly" boolean_type ⊕ must "server" string_type ⊕ done

abbrev pub pod_volumes_inner_persistent_volume_claim_interface : Members
pod_volumes_inner_persistent_volume_claim_interface =
    must "claimName" string_type ⊕ may "readOnly" boolean_type ⊕ done

abbrev pub pod_volumes_inner_photon_persistent_disk_interface : Members
pod_volumes_inner_photon_persistent_disk_interface =
    may "fsType" string_type ⊕ must "pdID" string_type ⊕ done

abbrev pub pod_volumes_inner_portworx_volume_interface : Members
pod_volumes_inner_portworx_volume_interface =
    may "fsType" string_type ⊕ may "readOnly" boolean_type ⊕ must "volumeID" string_type ⊕ done

abbrev pub pod_volumes_inner_projected_sources_inner_cluster_trust_bundle_interface : Members
pod_volumes_inner_projected_sources_inner_cluster_trust_bundle_interface =
    may "labelSelector" (interface pod_label_selector_interface)
    ⊕ may "name" string_type
    ⊕ may "optional" boolean_type
    ⊕ must "path" string_type
    ⊕ may "signerName" string_type
    ⊕ done

abbrev pub pod_volumes_inner_projected_sources_inner_config_map_interface : Members
pod_volumes_inner_projected_sources_inner_config_map_interface =
    may "items" (array_of (interface pod_volumes_inner_config_map_items_inner_interface))
    ⊕ may "name" string_type
    ⊕ may "optional" boolean_type
    ⊕ done

abbrev pub pod_volumes_inner_projected_sources_inner_downward_api_interface : Members
pod_volumes_inner_projected_sources_inner_downward_api_interface =
    may "items" (array_of (interface pod_volumes_inner_downward_api_items_inner_interface)) ⊕ done

abbrev pub pod_volumes_inner_projected_sources_inner_service_account_token_interface : Members
pod_volumes_inner_projected_sources_inner_service_account_token_interface =
    may "audience" string_type
    ⊕ may "expirationSeconds" number_type
    ⊕ must "path" string_type
    ⊕ done

abbrev pub pod_volumes_inner_projected_sources_inner_interface : Members
pod_volumes_inner_projected_sources_inner_interface =
    may "clusterTrustBundle"
      (interface pod_volumes_inner_projected_sources_inner_cluster_trust_bundle_interface)
    ⊕ may "configMap" (interface pod_volumes_inner_projected_sources_inner_config_map_interface)
    ⊕ may "downwardAPI" (interface pod_volumes_inner_projected_sources_inner_downward_api_interface)
    ⊕ may "secret" (interface pod_volumes_inner_projected_sources_inner_config_map_interface)
    ⊕ may "serviceAccountToken"
        (interface pod_volumes_inner_projected_sources_inner_service_account_token_interface)
    ⊕ done

abbrev pub pod_volumes_inner_projected_interface : Members
pod_volumes_inner_projected_interface =
    may "defaultMode" number_type
    ⊕ may "sources" (array_of (interface pod_volumes_inner_projected_sources_inner_interface))
    ⊕ done

abbrev pub pod_volumes_inner_quobyte_interface : Members
pod_volumes_inner_quobyte_interface =
    may "group" string_type
    ⊕ may "readOnly" boolean_type
    ⊕ must "registry" string_type
    ⊕ may "tenant" string_type
    ⊕ may "user" string_type
    ⊕ must "volume" string_type
    ⊕ done

abbrev pub pod_volumes_inner_rbd_interface : Members
pod_volumes_inner_rbd_interface =
    may "fsType" string_type
    ⊕ must "image" string_type
    ⊕ may "keyring" string_type
    ⊕ must "monitors" (array_of string_type)
    ⊕ may "pool" string_type
    ⊕ may "readOnly" boolean_type
    ⊕ may "secretRef" (interface pod_image_pull_secrets_inner_interface)
    ⊕ may "user" string_type
    ⊕ done

abbrev pub pod_volumes_inner_scale_io_interface : Members
pod_volumes_inner_scale_io_interface =
    may "fsType" string_type
    ⊕ must "gateway" string_type
    ⊕ may "protectionDomain" string_type
    ⊕ may "readOnly" boolean_type
    ⊕ must "secretRef" (interface pod_image_pull_secrets_inner_interface)
    ⊕ may "sslEnabled" boolean_type
    ⊕ may "storageMode" string_type
    ⊕ may "storagePool" string_type
    ⊕ must "system" string_type
    ⊕ may "volumeName" string_type
    ⊕ done

abbrev pub pod_volumes_inner_secret_interface : Members
pod_volumes_inner_secret_interface =
    may "defaultMode" number_type
    ⊕ may "items" (array_of (interface pod_volumes_inner_config_map_items_inner_interface))
    ⊕ may "optional" boolean_type
    ⊕ may "secretName" string_type
    ⊕ done

abbrev pub pod_volumes_inner_storageos_interface : Members
pod_volumes_inner_storageos_interface =
    may "fsType" string_type
    ⊕ may "readOnly" boolean_type
    ⊕ may "secretRef" (interface pod_image_pull_secrets_inner_interface)
    ⊕ may "volumeName" string_type
    ⊕ may "volumeNamespace" string_type
    ⊕ done

abbrev pub pod_volumes_inner_vsphere_volume_interface : Members
pod_volumes_inner_vsphere_volume_interface =
    may "fsType" string_type
    ⊕ may "storagePolicyID" string_type
    ⊕ may "storagePolicyName" string_type
    ⊕ must "volumePath" string_type
    ⊕ done

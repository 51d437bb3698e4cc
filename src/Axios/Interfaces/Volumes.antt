-- ===== src/Axios/Interfaces/Volumes.antt =====
-- The interfaces of the volumes of pods in
-- generated/sdk/ts-axios/api.ts.
use pipeline_operator.Types.{string_type, interface, must, may, Members, done, ◌⊕◌}
use pipeline_operator.Axios.Interfaces.VolumeSources.{
  pod_volumes_inner_aws_elastic_block_store_interface, pod_volumes_inner_azure_disk_interface,
  pod_volumes_inner_azure_file_interface, pod_volumes_inner_cephfs_interface,
  pod_volumes_inner_cinder_interface, pod_volumes_inner_config_map_interface,
  pod_volumes_inner_csi_interface, pod_volumes_inner_downward_api_interface,
  pod_volumes_inner_empty_dir_interface, pod_volumes_inner_ephemeral_interface,
  pod_volumes_inner_fc_interface, pod_volumes_inner_flex_volume_interface,
  pod_volumes_inner_flocker_interface, pod_volumes_inner_gce_persistent_disk_interface,
  pod_volumes_inner_git_repo_interface, pod_volumes_inner_glusterfs_interface,
  pod_volumes_inner_host_path_interface,
}
use pipeline_operator.Axios.Interfaces.VolumePlugins.{
  pod_volumes_inner_iscsi_interface, pod_volumes_inner_nfs_interface,
  pod_volumes_inner_persistent_volume_claim_interface,
  pod_volumes_inner_photon_persistent_disk_interface, pod_volumes_inner_portworx_volume_interface,
  pod_volumes_inner_projected_interface, pod_volumes_inner_quobyte_interface,
  pod_volumes_inner_rbd_interface, pod_volumes_inner_scale_io_interface,
  pod_volumes_inner_secret_interface, pod_volumes_inner_storageos_interface,
  pod_volumes_inner_vsphere_volume_interface,
}

abbrev pub pod_volumes_inner_interface : Members
pod_volumes_inner_interface =
    may "awsElasticBlockStore" (interface pod_volumes_inner_aws_elastic_block_store_interface)
    ⊕ may "azureDisk" (interface pod_volumes_inner_azure_disk_interface)
    ⊕ may "azureFile" (interface pod_volumes_inner_azure_file_interface)
    ⊕ may "cephfs" (interface pod_volumes_inner_cephfs_interface)
    ⊕ may "cinder" (interface pod_volumes_inner_cinder_interface)
    ⊕ may "configMap" (interface pod_volumes_inner_config_map_interface)
    ⊕ may "csi" (interface pod_volumes_inner_csi_interface)
    ⊕ may "downwardAPI" (interface pod_volumes_inner_downward_api_interface)
    ⊕ may "emptyDir" (interface pod_volumes_inner_empty_dir_interface)
    ⊕ may "ephemeral" (interface pod_volumes_inner_ephemeral_interface)
    ⊕ may "fc" (interface pod_volumes_inner_fc_interface)
    ⊕ may "flexVolume" (interface pod_volumes_inner_flex_volume_interface)
    ⊕ may "flocker" (interface pod_volumes_inner_flocker_interface)
    ⊕ may "gcePersistentDisk" (interface pod_volumes_inner_gce_persistent_disk_interface)
    ⊕ may "gitRepo" (interface pod_volumes_inner_git_repo_interface)
    ⊕ may "glusterfs" (interface pod_volumes_inner_glusterfs_interface)
    ⊕ may "hostPath" (interface pod_volumes_inner_host_path_interface)
    ⊕ may "iscsi" (interface pod_volumes_inner_iscsi_interface)
    ⊕ must "name" string_type
    ⊕ may "nfs" (interface pod_volumes_inner_nfs_interface)
    ⊕ may "persistentVolumeClaim" (interface pod_volumes_inner_persistent_volume_claim_interface)
    ⊕ may "photonPersistentDisk" (interface pod_volumes_inner_photon_persistent_disk_interface)
    ⊕ may "portworxVolume" (interface pod_volumes_inner_portworx_volume_interface)
    ⊕ may "projected" (interface pod_volumes_inner_projected_interface)
    ⊕ may "quobyte" (interface pod_volumes_inner_quobyte_interface)
    ⊕ may "rbd" (interface pod_volumes_inner_rbd_interface)
    ⊕ may "scaleIO" (interface pod_volumes_inner_scale_io_interface)
    ⊕ may "secret" (interface pod_volumes_inner_secret_interface)
    ⊕ may "storageos" (interface pod_volumes_inner_storageos_interface)
    ⊕ may "vsphereVolume" (interface pod_volumes_inner_vsphere_volume_interface)
    ⊕ done

-- ===== src/Axios/Interfaces/Containers.antt =====
-- The interfaces of containers in
-- generated/sdk/ts-axios/api.ts.
use pipeline_operator.Types.{
  string_type, number_type, boolean_type, object_type, array_of, record_of, interface, must, may,
  Members, done, ◌⊕◌,
}
use pipeline_operator.Axios.Interfaces.Environments.{
  container_env_from_inner_interface, container_env_inner_interface,
}
use pipeline_operator.Axios.Interfaces.Probes.{
  container_lifecycle_interface, container_liveness_probe_interface,
}

abbrev pub container_ports_inner_interface : Members
container_ports_inner_interface =
    must "containerPort" number_type
    ⊕ may "hostIP" string_type
    ⊕ may "hostPort" number_type
    ⊕ may "name" string_type
    ⊕ may "protocol" string_type
    ⊕ done

abbrev pub container_resize_policy_inner_interface : Members
container_resize_policy_inner_interface =
    must "resourceName" string_type ⊕ must "restartPolicy" string_type ⊕ done

abbrev pub container_resources_claims_inner_interface : Members
container_resources_claims_inner_interface = must "name" string_type ⊕ done

abbrev pub container_resources_interface : Members
container_resources_interface =
    may "claims" (array_of (interface container_resources_claims_inner_interface))
    ⊕ may "limits" (record_of object_type)
    ⊕ may "requests" (record_of object_type)
    ⊕ done

abbrev pub container_security_context_capabilities_interface : Members
container_security_context_capabilities_interface =
    may "add" (array_of string_type) ⊕ may "drop" (array_of string_type) ⊕ done

abbrev pub container_security_context_se_linux_options_interface : Members
container_security_context_se_linux_options_interface =
    may "level" string_type
    ⊕ may "role" string_type
    ⊕ may "type" string_type
    ⊕ may "user" string_type
    ⊕ done

abbrev pub container_security_context_seccomp_profile_interface : Members
container_security_context_seccomp_profile_interface =
    may "localhostProfile" string_type ⊕ must "type" string_type ⊕ done

abbrev pub container_security_context_windows_options_interface : Members
container_security_context_windows_options_interface =
    may "gmsaCredentialSpec" string_type
    ⊕ may "gmsaCredentialSpecName" string_type
    ⊕ may "hostProcess" boolean_type
    ⊕ may "runAsUserName" string_type
    ⊕ done

abbrev pub container_security_context_interface : Members
container_security_context_interface =
    may "allowPrivilegeEscalation" boolean_type
    ⊕ may "capabilities" (interface container_security_context_capabilities_interface)
    ⊕ may "privileged" boolean_type
    ⊕ may "procMount" string_type
    ⊕ may "readOnlyRootFilesystem" boolean_type
    ⊕ may "runAsGroup" number_type
    ⊕ may "runAsNonRoot" boolean_type
    ⊕ may "runAsUser" number_type
    ⊕ may "seLinuxOptions" (interface container_security_context_se_linux_options_interface)
    ⊕ may "seccompProfile" (interface container_security_context_seccomp_profile_interface)
    ⊕ may "windowsOptions" (interface container_security_context_windows_options_interface)
    ⊕ done

abbrev pub container_volume_devices_inner_interface : Members
container_volume_devices_inner_interface =
    must "devicePath" string_type ⊕ must "name" string_type ⊕ done

abbrev pub container_volume_mounts_inner_interface : Members
container_volume_mounts_inner_interface =
    must "mountPath" string_type
    ⊕ may "mountPropagation" string_type
    ⊕ must "name" string_type
    ⊕ may "readOnly" boolean_type
    ⊕ may "subPath" string_type
    ⊕ may "subPathExpr" string_type
    ⊕ done

abbrev pub container_interface : Members
container_interface =
    may "args" (array_of string_type)
    ⊕ may "command" (array_of string_type)
    ⊕ may "env" (array_of (interface container_env_inner_interface))
    ⊕ may "envFrom" (array_of (interface container_env_from_inner_interface))
    ⊕ may "image" string_type
    ⊕ may "imagePullPolicy" string_type
    ⊕ may "lifecycle" (interface container_lifecycle_interface)
    ⊕ may "livenessProbe" (interface container_liveness_probe_interface)
    ⊕ must "name" string_type
    ⊕ may "ports" (array_of (interface container_ports_inner_interface))
    ⊕ may "readinessProbe" (interface container_liveness_probe_interface)
    ⊕ may "resizePolicy" (array_of (interface container_resize_policy_inner_interface))
    ⊕ may "resources" (interface container_resources_interface)
    ⊕ may "restartPolicy" string_type
    ⊕ may "securityContext" (interface container_security_context_interface)
    ⊕ may "startupProbe" (interface container_liveness_probe_interface)
    ⊕ may "stdin" boolean_type
    ⊕ may "stdinOnce" boolean_type
    ⊕ may "terminationMessagePath" string_type
    ⊕ may "terminationMessagePolicy" string_type
    ⊕ may "tty" boolean_type
    ⊕ may "volumeDevices" (array_of (interface container_volume_devices_inner_interface))
    ⊕ may "volumeMounts" (array_of (interface container_volume_mounts_inner_interface))
    ⊕ may "workingDir" string_type
    ⊕ done

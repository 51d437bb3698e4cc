-- ===== src/Axios/Interfaces/Pods.antt =====
-- The interfaces of pods in
-- generated/sdk/ts-axios/api.ts.
use pipeline_operator.Types.{
  string_type, number_type, boolean_type, object_type, array_of, record_of, interface, must, may,
  Members, done, ◌⊕◌,
}
use pipeline_operator.Axios.Interfaces.Shared.{
  pod_label_selector_interface, pod_image_pull_secrets_inner_interface,
}
use pipeline_operator.Axios.Interfaces.Environments.{
  container_env_from_inner_interface, container_env_inner_interface,
}
use pipeline_operator.Axios.Interfaces.Probes.{
  container_lifecycle_post_start_http_get_http_headers_inner_interface,
  container_lifecycle_interface, container_liveness_probe_interface,
}
use pipeline_operator.Axios.Interfaces.Containers.{
  container_ports_inner_interface, container_resize_policy_inner_interface,
  container_resources_claims_inner_interface, container_resources_interface,
  container_security_context_se_linux_options_interface,
  container_security_context_seccomp_profile_interface,
  container_security_context_windows_options_interface, container_security_context_interface,
  container_volume_devices_inner_interface, container_volume_mounts_inner_interface,
  container_interface,
}
use pipeline_operator.Axios.Interfaces.Affinities.{pod_affinity_interface}
use pipeline_operator.Axios.Interfaces.Volumes.{pod_volumes_inner_interface}

abbrev pub pod_dns_config_options_inner_interface : Members
pod_dns_config_options_inner_interface = may "name" string_type ⊕ may "value" string_type ⊕ done

abbrev pub pod_dns_config_interface : Members
pod_dns_config_interface =
    may "nameservers" (array_of string_type)
    ⊕ may "options" (array_of (interface pod_dns_config_options_inner_interface))
    ⊕ may "searches" (array_of string_type)
    ⊕ done

abbrev pub pod_ephemeral_containers_inner_interface : Members
pod_ephemeral_containers_inner_interface =
    may "args" (array_of string_type)
    ⊕ may "command" (array_of string_type)
    ⊕ may "env" (array_of (interface container_env_inner_interface))
    ⊕ may "envFrom" (array_of (interface container_env_from_inner_interface))
    ⊕ may "image" string_type
    ⊕ may "imagePullPolicy" string_type
    ⊕ may "lifecycle" (interface container_lifecycle_interface)
    ⊕ may "livenessProbe" (interface container_liveness_probe_interface)
    ⊕ must "name" string_type
    ⊕ may "ports" (array_of (interface container_ports_inner_interface))
    ⊕ may "readinessProbe" (interface container_liveness_probe_interface)
    ⊕ may "resizePolicy" (array_of (interface container_resize_policy_inner_interface))
    ⊕ may "resources" (interface container_resources_interface)
    ⊕ may "restartPolicy" string_type
    ⊕ may "securityContext" (interface container_security_context_interface)
    ⊕ may "startupProbe" (interface container_liveness_probe_interface)
    ⊕ may "stdin" boolean_type
    ⊕ may "stdinOnce" boolean_type
    ⊕ may "targetContainerName" string_type
    ⊕ may "terminationMessagePath" string_type
    ⊕ may "terminationMessagePolicy" string_type
    ⊕ may "tty" boolean_type
    ⊕ may "volumeDevices" (array_of (interface container_volume_devices_inner_interface))
    ⊕ may "volumeMounts" (array_of (interface container_volume_mounts_inner_interface))
    ⊕ may "workingDir" string_type
    ⊕ done

abbrev pub pod_host_aliases_inner_interface : Members
pod_host_aliases_inner_interface =
    may "hostnames" (array_of string_type) ⊕ may "ip" string_type ⊕ done

abbrev pub pod_readiness_gates_inner_interface : Members
pod_readiness_gates_inner_interface = must "conditionType" string_type ⊕ done

abbrev pub pod_resource_claims_inner_source_interface : Members
pod_resource_claims_inner_source_interface =
    may "resourceClaimName" string_type ⊕ may "resourceClaimTemplateName" string_type ⊕ done

abbrev pub pod_resource_claims_inner_interface : Members
pod_resource_claims_inner_interface =
    must "name" string_type
    ⊕ may "source" (interface pod_resource_claims_inner_source_interface)
    ⊕ done

abbrev pub pod_security_context_interface : Members
pod_security_context_interface =
    may "fsGroup" number_type
    ⊕ may "fsGroupChangePolicy" string_type
    ⊕ may "runAsGroup" number_type
    ⊕ may "runAsNonRoot" boolean_type
    ⊕ may "runAsUser" number_type
    ⊕ may "seLinuxOptions" (interface container_security_context_se_linux_options_interface)
    ⊕ may "seccompProfile" (interface container_security_context_seccomp_profile_interface)
    ⊕ may "supplementalGroups" (array_of number_type)
    ⊕ may "sysctls"
        (array_of (interface container_lifecycle_post_start_http_get_http_headers_inner_interface))
    ⊕ may "windowsOptions" (interface container_security_context_windows_options_interface)
    ⊕ done

abbrev pub pod_tolerations_inner_interface : Members
pod_tolerations_inner_interface =
    may "effect" string_type
    ⊕ may "key" string_type
    ⊕ may "operator" string_type
    ⊕ may "tolerationSeconds" number_type
    ⊕ may "value" string_type
    ⊕ done

abbrev pub pod_topology_spread_constraints_inner_interface : Members
pod_topology_spread_constraints_inner_interface =
    may "labelSelector" (interface pod_label_selector_interface)
    ⊕ may "matchLabelKeys" (array_of string_type)
    ⊕ must "maxSkew" number_type
    ⊕ may "minDomains" number_type
    ⊕ may "nodeAffinityPolicy" string_type
    ⊕ may "nodeTaintsPolicy" string_type
    ⊕ must "topologyKey" string_type
    ⊕ must "whenUnsatisfiable" string_type
    ⊕ done

abbrev pub pod_interface : Members
pod_interface =
    may "activeDeadlineSeconds" number_type
    ⊕ may "affinity" (interface pod_affinity_interface)
    ⊕ may "automountServiceAccountToken" boolean_type
    ⊕ must "containers" (array_of (interface container_interface))
    ⊕ may "dnsConfig" (interface pod_dns_config_interface)
    ⊕ may "dnsPolicy" string_type
    ⊕ may "enableServiceLinks" boolean_type
    ⊕ may "ephemeralContainers" (array_of (interface pod_ephemeral_containers_inner_interface))
    ⊕ may "hostAliases" (array_of (interface pod_host_aliases_inner_interface))
    ⊕ may "hostIPC" boolean_type
    ⊕ may "hostNetwork" boolean_type
    ⊕ may "hostPID" boolean_type
    ⊕ may "hostUsers" boolean_type
    ⊕ may "hostname" string_type
    ⊕ may "imagePullSecrets" (array_of (interface pod_image_pull_secrets_inner_interface))
    ⊕ may "initContainers" (array_of (interface container_interface))
    ⊕ may "nodeName" string_type
    ⊕ may "nodeSelector" (record_of string_type)
    ⊕ may "os" (interface container_resources_claims_inner_interface)
    ⊕ may "overhead" (record_of object_type)
    ⊕ may "preemptionPolicy" string_type
    ⊕ may "priority" number_type
    ⊕ may "priorityClassName" string_type
    ⊕ may "readinessGates" (array_of (interface pod_readiness_gates_inner_interface))
    ⊕ may "resourceClaims" (array_of (interface pod_resource_claims_inner_interface))
    ⊕ may "restartPolicy" string_type
    ⊕ may "runtimeClassName" string_type
    ⊕ may "schedulerName" string_type
    ⊕ may "schedulingGates" (array_of (interface container_resources_claims_inner_interface))
    ⊕ may "securityContext" (interface pod_security_context_interface)
    ⊕ may "serviceAccount" string_type
    ⊕ may "serviceAccountName" string_type
    ⊕ may "setHostnameAsFQDN" boolean_type
    ⊕ may "shareProcessNamespace" boolean_type
    ⊕ may "subdomain" string_type
    ⊕ may "terminationGracePeriodSeconds" number_type
    ⊕ may "tolerations" (array_of (interface pod_tolerations_inner_interface))
    ⊕ may "topologySpreadConstraints"
        (array_of (interface pod_topology_spread_constraints_inner_interface))
    ⊕ may "volumes" (array_of (interface pod_volumes_inner_interface))
    ⊕ done

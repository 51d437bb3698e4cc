-- ===== src/Axios/Interfaces/Affinities.antt =====
-- The interfaces of the affinity of pods in
-- generated/sdk/ts-axios/api.ts.
use pipeline_operator.Types.{
  string_type, number_type, array_of, interface, must, may, Members, done, ◌⊕◌,
}
use pipeline_operator.Axios.Interfaces.Shared.{
  pod_match_expressions_inner_interface, pod_label_selector_interface,
}

abbrev pub pod_affinity_node_affinity_preferred_inner_preference_interface : Members
pod_affinity_node_affinity_preferred_inner_preference_interface =
    may "matchExpressions" (array_of (interface pod_match_expressions_inner_interface))
    ⊕ may "matchFields" (array_of (interface pod_match_expressions_inner_interface))
    ⊕ done

abbrev pub pod_affinity_node_affinity_preferred_inner_interface : Members
pod_affinity_node_affinity_preferred_inner_interface =
    must "preference" (interface pod_affinity_node_affinity_preferred_inner_preference_interface)
    ⊕ must "weight" number_type
    ⊕ done

abbrev pub pod_affinity_node_affinity_required_interface : Members
pod_affinity_node_affinity_required_interface =
    must "nodeSelectorTerms"
      (array_of (interface pod_affinity_node_affinity_preferred_inner_preference_interface))
    ⊕ done

abbrev pub pod_affinity_node_affinity_interface : Members
pod_affinity_node_affinity_interface =
    may "preferredDuringSchedulingIgnoredDuringExecution"
      (array_of (interface pod_affinity_node_affinity_preferred_inner_interface))
    ⊕ may "requiredDuringSchedulingIgnoredDuringExecution"
        (interface pod_affinity_node_affinity_required_interface)
    ⊕ done

abbrev pub pod_affinity_pod_affinity_preferred_inner_pod_affinity_term_interface : Members
pod_affinity_pod_affinity_preferred_inner_pod_affinity_term_interface =
    may "labelSelector" (interface pod_label_selector_interface)
    ⊕ may "matchLabelKeys" (array_of string_type)
    ⊕ may "mismatchLabelKeys" (array_of string_type)
    ⊕ may "namespaceSelector" (interface pod_label_selector_interface)
    ⊕ may "namespaces" (array_of string_type)
    ⊕ must "topologyKey" string_type
    ⊕ done

abbrev pub pod_affinity_pod_affinity_preferred_inner_interface : Members
pod_affinity_pod_affinity_preferred_inner_interface =
    must "podAffinityTerm"
      (interface pod_affinity_pod_affinity_preferred_inner_pod_affinity_term_interface)
    ⊕ must "weight" number_type
    ⊕ done

abbrev pub pod_affinity_pod_affinity_interface : Members
pod_affinity_pod_affinity_interface =
    may "preferredDuringSchedulingIgnoredDuringExecution"
      (array_of (interface pod_affinity_pod_affinity_preferred_inner_interface))
    ⊕ may "requiredDuringSchedulingIgnoredDuringExecution"
        (array_of (interface pod_affinity_pod_affinity_preferred_inner_pod_affinity_term_interface))
    ⊕ done

abbrev pub pod_affinity_interface : Members
pod_affinity_interface =
    may "nodeAffinity" (interface pod_affinity_node_affinity_interface)
    ⊕ may "podAffinity" (interface pod_affinity_pod_affinity_interface)
    ⊕ may "podAntiAffinity" (interface pod_affinity_pod_affinity_interface)
    ⊕ done

-- ===== src/Axios/Interfaces/Shared.antt =====
-- The interfaces of parts that several others have in
-- generated/sdk/ts-axios/api.ts.
use pipeline_operator.Types.{
  string_type, array_of, record_of, interface, must, may, Members, done, ◌⊕◌,
}

abbrev pub pod_match_expressions_inner_interface : Members
pod_match_expressions_inner_interface =
    must "key" string_type
    ⊕ must "operator" string_type
    ⊕ may "values" (array_of string_type)
    ⊕ done

abbrev pub pod_label_selector_interface : Members
pod_label_selector_interface =
    may "matchExpressions" (array_of (interface pod_match_expressions_inner_interface))
    ⊕ may "matchLabels" (record_of string_type)
    ⊕ done

abbrev pub pod_image_pull_secrets_inner_interface : Members
pod_image_pull_secrets_inner_interface = may "name" string_type ⊕ done

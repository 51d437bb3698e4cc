-- ===== src/Axios/Interfaces/Discovery.antt =====
-- The interfaces of the discovery of the API in
-- generated/sdk/ts-axios/api.ts.
use pipeline_operator.Types.{
  string_type, boolean_type, array_of, record_of, interface, must, may, Members, done, ◌⊕◌,
}

abbrev pub group_version_for_discovery_interface : Members
group_version_for_discovery_interface =
    must "groupVersion" string_type ⊕ must "version" string_type ⊕ done

abbrev pub server_address_by_client_cidr_interface : Members
server_address_by_client_cidr_interface =
    must "clientCIDR" string_type ⊕ must "serverAddress" string_type ⊕ done

abbrev pub api_group_interface : Members
api_group_interface =
    may "apiVersion" string_type
    ⊕ may "kind" string_type
    ⊕ must "name" string_type
    ⊕ may "preferredVersion" (interface group_version_for_discovery_interface)
    ⊕ may "serverAddressByClientCIDRs"
        (array_of (interface server_address_by_client_cidr_interface))
    ⊕ must "versions" (array_of (interface group_version_for_discovery_interface))
    ⊕ done

abbrev pub api_group_list_interface : Members
api_group_list_interface =
    may "apiVersion" string_type
    ⊕ must "groups" (array_of (interface api_group_interface))
    ⊕ may "kind" string_type
    ⊕ done

abbrev pub api_resource_interface : Members
api_resource_interface =
    may "categories" (array_of string_type)
    ⊕ may "group" string_type
    ⊕ must "kind" string_type
    ⊕ must "name" string_type
    ⊕ must "namespaced" boolean_type
    ⊕ may "shortNames" (array_of string_type)
    ⊕ must "singularName" string_type
    ⊕ may "storageVersionHash" string_type
    ⊕ must "verbs" (array_of string_type)
    ⊕ may "version" string_type
    ⊕ done

abbrev pub api_resource_list_interface : Members
api_resource_list_interface =
    may "apiVersion" string_type
    ⊕ must "groupVersion" string_type
    ⊕ may "kind" string_type
    ⊕ must "resources" (array_of (interface api_resource_interface))
    ⊕ done

abbrev pub api_versions_interface : Members
api_versions_interface =
    may "apiVersion" string_type
    ⊕ may "kind" string_type
    ⊕ must "serverAddressByClientCIDRs"
        (array_of (interface server_address_by_client_cidr_interface))
    ⊕ must "versions" (array_of string_type)
    ⊕ done

abbrev pub field_selector_requirement_interface : Members
field_selector_requirement_interface =
    must "key" string_type
    ⊕ must "operator" string_type
    ⊕ may "values" (array_of string_type)
    ⊕ done

abbrev pub label_selector_requirement_interface : Members
label_selector_requirement_interface =
    must "key" string_type
    ⊕ must "operator" string_type
    ⊕ may "values" (array_of string_type)
    ⊕ done

abbrev pub label_selector_interface : Members
label_selector_interface =
    may "matchExpressions" (array_of (interface label_selector_requirement_interface))
    ⊕ may "matchLabels" (record_of string_type)
    ⊕ done

abbrev pub version_info_interface : Members
version_info_interface =
    must "buildDate" string_type
    ⊕ must "compiler" string_type
    ⊕ must "gitCommit" string_type
    ⊕ must "gitTreeState" string_type
    ⊕ must "gitVersion" string_type
    ⊕ must "goVersion" string_type
    ⊕ must "major" string_type
    ⊕ must "minor" string_type
    ⊕ must "platform" string_type
    ⊕ done

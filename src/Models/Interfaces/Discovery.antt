-- ===== src/Models/Interfaces/Discovery.antt =====
-- The interfaces of the discovery of the API, from the files of
-- generated/sdk/ts-fetch/models.
use pipeline_operator.Types.{
  string_type, boolean_type, array_of, record_of, interface, must, may, Members, done, ◌⊕◌,
}

abbrev pub group_version_for_discovery_type : Members
group_version_for_discovery_type =
    must "groupVersion" string_type ⊕ must "version" string_type ⊕ done

abbrev pub server_address_by_client_cidr_type : Members
server_address_by_client_cidr_type =
    must "clientCIDR" string_type ⊕ must "serverAddress" string_type ⊕ done

abbrev pub api_group_type : Members
api_group_type =
    may "apiVersion" string_type
    ⊕ may "kind" string_type
    ⊕ must "name" string_type
    ⊕ may "preferredVersion" (interface group_version_for_discovery_type)
    ⊕ may "serverAddressByClientCIDRs" (array_of (interface server_address_by_client_cidr_type))
    ⊕ must "versions" (array_of (interface group_version_for_discovery_type))
    ⊕ done

abbrev pub api_group_list_type : Members
api_group_list_type =
    may "apiVersion" string_type
    ⊕ must "groups" (array_of (interface api_group_type))
    ⊕ may "kind" string_type
    ⊕ done

abbrev pub api_resource_type : Members
api_resource_type =
    may "categories" (array_of string_type)
    ⊕ may "group" string_type
    ⊕ must "kind" string_type
    ⊕ must "name" string_type
    ⊕ must "namespaced" boolean_type
    ⊕ may "shortNames" (array_of string_type)
    ⊕ must "singularName" string_type
    ⊕ may "storageVersionHash" string_type
    ⊕ must "verbs" (array_of string_type)
    ⊕ may "version" string_type
    ⊕ done

abbrev pub api_resource_list_type : Members
api_resource_list_type =
    may "apiVersion" string_type
    ⊕ must "groupVersion" string_type
    ⊕ may "kind" string_type
    ⊕ must "resources" (array_of (interface api_resource_type))
    ⊕ done

abbrev pub api_versions_type : Members
api_versions_type =
    may "apiVersion" string_type
    ⊕ may "kind" string_type
    ⊕ must "serverAddressByClientCIDRs" (array_of (interface server_address_by_client_cidr_type))
    ⊕ must "versions" (array_of string_type)
    ⊕ done

abbrev pub field_selector_requirement_type : Members
field_selector_requirement_type =
    must "key" string_type
    ⊕ must "operator" string_type
    ⊕ may "values" (array_of string_type)
    ⊕ done

abbrev pub label_selector_requirement_type : Members
label_selector_requirement_type =
    must "key" string_type
    ⊕ must "operator" string_type
    ⊕ may "values" (array_of string_type)
    ⊕ done

abbrev pub label_selector_type : Members
label_selector_type =
    may "matchExpressions" (array_of (interface label_selector_requirement_type))
    ⊕ may "matchLabels" (record_of string_type)
    ⊕ done

abbrev pub version_info_type : Members
version_info_type =
    must "buildDate" string_type
    ⊕ must "compiler" string_type
    ⊕ must "gitCommit" string_type
    ⊕ must "gitTreeState" string_type
    ⊕ must "gitVersion" string_type
    ⊕ must "goVersion" string_type
    ⊕ must "major" string_type
    ⊕ must "minor" string_type
    ⊕ must "platform" string_type
    ⊕ done

-- ===== src/Models/Discovery.antt =====
-- The models of API discovery and selectors of the Kubernetes API, generated/sdk/ts-fetch/models: for each
-- file the table of its properties.
use pipeline_operator.Prelude.{[], ◌∷◌}
use pipeline_operator.Models.Codec.{Model}
use pipeline_operator.Models.Codec.Kinds.{model?, models, models?, plain, plain?}

abbrev pub group_version_for_discovery : Model
group_version_for_discovery = plain "groupVersion" ∷ plain "version" ∷ []

abbrev pub server_address_by_client_cidr : Model
server_address_by_client_cidr = plain "clientCIDR" ∷ plain "serverAddress" ∷ []

abbrev pub api_group : Model
api_group =
    plain? "apiVersion"
    ∷ plain? "kind"
    ∷ plain "name"
    ∷ model? "preferredVersion" group_version_for_discovery
    ∷ models? "serverAddressByClientCIDRs" server_address_by_client_cidr
    ∷ models "versions" group_version_for_discovery
    ∷ []

abbrev pub api_group_list : Model
api_group_list = plain? "apiVersion" ∷ models "groups" api_group ∷ plain? "kind" ∷ []

abbrev pub api_resource : Model
api_resource =
    plain? "categories"
    ∷ plain? "group"
    ∷ plain "kind"
    ∷ plain "name"
    ∷ plain "namespaced"
    ∷ plain? "shortNames"
    ∷ plain "singularName"
    ∷ plain? "storageVersionHash"
    ∷ plain "verbs"
    ∷ plain? "version"
    ∷ []

abbrev pub api_resource_list : Model
api_resource_list =
    plain? "apiVersion"
    ∷ plain "groupVersion"
    ∷ plain? "kind"
    ∷ models "resources" api_resource
    ∷ []

abbrev pub api_versions : Model
api_versions =
    plain? "apiVersion"
    ∷ plain? "kind"
    ∷ models "serverAddressByClientCIDRs" server_address_by_client_cidr
    ∷ plain "versions"
    ∷ []

abbrev pub label_selector_requirement : Model
label_selector_requirement = plain "key" ∷ plain "operator" ∷ plain? "values" ∷ []

abbrev pub label_selector : Model
label_selector = models? "matchExpressions" label_selector_requirement ∷ plain? "matchLabels" ∷ []

abbrev pub field_selector_requirement : Model
field_selector_requirement = plain "key" ∷ plain "operator" ∷ plain? "values" ∷ []

abbrev pub version_info : Model
version_info =
    plain "buildDate"
    ∷ plain "compiler"
    ∷ plain "gitCommit"
    ∷ plain "gitTreeState"
    ∷ plain "gitVersion"
    ∷ plain "goVersion"
    ∷ plain "major"
    ∷ plain "minor"
    ∷ plain "platform"
    ∷ []

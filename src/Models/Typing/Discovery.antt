-- ===== src/Models/Typing/Discovery.antt =====
-- The models of the discovery of the API read the values of the axios client as those of the fetch client.
use pipeline_operator.Prelude.{refl}
use pipeline_operator.Types.Decoding.{
  ReadsAll, done-ReadsAll, cons-ReadsAll, ok-Reads, unless_nullish-ok-Reads, decode-Reads,
  unless_nullish-Reads, map_array-Decodes, from_json-Decodes,
}
use pipeline_operator.Models.Discovery.{
  group_version_for_discovery, server_address_by_client_cidr, api_group, api_group_list,
  api_resource, api_resource_list, api_versions, field_selector_requirement,
  label_selector_requirement, label_selector, version_info,
}
use pipeline_operator.Axios.Interfaces.Discovery.{
  api_group_interface, api_group_list_interface, api_resource_interface,
  api_resource_list_interface, api_versions_interface, field_selector_requirement_interface,
  group_version_for_discovery_interface, label_selector_interface,
  label_selector_requirement_interface, server_address_by_client_cidr_interface,
  version_info_interface,
}
use pipeline_operator.Models.Interfaces.Discovery.{
  group_version_for_discovery_type, server_address_by_client_cidr_type, api_group_type,
  api_group_list_type, api_resource_type, api_resource_list_type, api_versions_type,
  field_selector_requirement_type, label_selector_requirement_type, label_selector_type,
  version_info_type,
}

pub group_version_for_discovery-ReadsAll :
    ReadsAll group_version_for_discovery_interface group_version_for_discovery
      group_version_for_discovery_type
group_version_for_discovery-ReadsAll =
    cons-ReadsAll refl refl refl ok-Reads (cons-ReadsAll refl refl refl ok-Reads done-ReadsAll)

pub server_address_by_client_cidr-ReadsAll :
    ReadsAll server_address_by_client_cidr_interface server_address_by_client_cidr
      server_address_by_client_cidr_type
server_address_by_client_cidr-ReadsAll =
    cons-ReadsAll refl refl refl ok-Reads (cons-ReadsAll refl refl refl ok-Reads done-ReadsAll)

pub api_group-ReadsAll : ReadsAll api_group_interface api_group api_group_type
api_group-ReadsAll = cons-ReadsAll refl refl refl unless_nullish-ok-Reads (
    cons-ReadsAll refl refl refl unless_nullish-ok-Reads (
      cons-ReadsAll refl refl refl ok-Reads (
        cons-ReadsAll refl refl refl
          (unless_nullish-Reads (from_json-Decodes group_version_for_discovery-ReadsAll))
          (cons-ReadsAll refl refl refl
            (unless_nullish-Reads
              (map_array-Decodes (from_json-Decodes server_address_by_client_cidr-ReadsAll)))
            (cons-ReadsAll refl refl refl
              (decode-Reads
                (map_array-Decodes (from_json-Decodes group_version_for_discovery-ReadsAll)))
              done-ReadsAll)))))

pub api_group_list-ReadsAll : ReadsAll api_group_list_interface api_group_list api_group_list_type
api_group_list-ReadsAll = cons-ReadsAll refl refl refl unless_nullish-ok-Reads (
    cons-ReadsAll refl refl refl
      (decode-Reads (map_array-Decodes (from_json-Decodes api_group-ReadsAll)))
      (cons-ReadsAll refl refl refl unless_nullish-ok-Reads done-ReadsAll))

pub api_resource-ReadsAll : ReadsAll api_resource_interface api_resource api_resource_type
api_resource-ReadsAll = cons-ReadsAll refl refl refl unless_nullish-ok-Reads (
    cons-ReadsAll refl refl refl unless_nullish-ok-Reads (
      cons-ReadsAll refl refl refl ok-Reads (
        cons-ReadsAll refl refl refl ok-Reads (
          cons-ReadsAll refl refl refl ok-Reads (
            cons-ReadsAll refl refl refl unless_nullish-ok-Reads (
              cons-ReadsAll refl refl refl ok-Reads (
                cons-ReadsAll refl refl refl unless_nullish-ok-Reads (
                  cons-ReadsAll refl refl refl ok-Reads
                    (cons-ReadsAll refl refl refl unless_nullish-ok-Reads done-ReadsAll)))))))))

pub api_resource_list-ReadsAll :
    ReadsAll api_resource_list_interface api_resource_list api_resource_list_type
api_resource_list-ReadsAll = cons-ReadsAll refl refl refl unless_nullish-ok-Reads (
    cons-ReadsAll refl refl refl ok-Reads (
      cons-ReadsAll refl refl refl unless_nullish-ok-Reads (
        cons-ReadsAll refl refl refl
          (decode-Reads (map_array-Decodes (from_json-Decodes api_resource-ReadsAll)))
          done-ReadsAll)))

pub api_versions-ReadsAll : ReadsAll api_versions_interface api_versions api_versions_type
api_versions-ReadsAll = cons-ReadsAll refl refl refl unless_nullish-ok-Reads (
    cons-ReadsAll refl refl refl unless_nullish-ok-Reads (
      cons-ReadsAll refl refl refl
        (decode-Reads
          (map_array-Decodes (from_json-Decodes server_address_by_client_cidr-ReadsAll)))
        (cons-ReadsAll refl refl refl ok-Reads done-ReadsAll)))

pub field_selector_requirement-ReadsAll :
    ReadsAll field_selector_requirement_interface field_selector_requirement
      field_selector_requirement_type
field_selector_requirement-ReadsAll = cons-ReadsAll refl refl refl ok-Reads (
    cons-ReadsAll refl refl refl ok-Reads
      (cons-ReadsAll refl refl refl unless_nullish-ok-Reads done-ReadsAll))

pub label_selector_requirement-ReadsAll :
    ReadsAll label_selector_requirement_interface label_selector_requirement
      label_selector_requirement_type
label_selector_requirement-ReadsAll = cons-ReadsAll refl refl refl ok-Reads (
    cons-ReadsAll refl refl refl ok-Reads
      (cons-ReadsAll refl refl refl unless_nullish-ok-Reads done-ReadsAll))

pub label_selector-ReadsAll : ReadsAll label_selector_interface label_selector label_selector_type
label_selector-ReadsAll =
    cons-ReadsAll refl refl refl
      (unless_nullish-Reads
        (map_array-Decodes (from_json-Decodes label_selector_requirement-ReadsAll)))
      (cons-ReadsAll refl refl refl unless_nullish-ok-Reads done-ReadsAll)

pub version_info-ReadsAll : ReadsAll version_info_interface version_info version_info_type
version_info-ReadsAll = cons-ReadsAll refl refl refl ok-Reads (
    cons-ReadsAll refl refl refl ok-Reads (
      cons-ReadsAll refl refl refl ok-Reads (
        cons-ReadsAll refl refl refl ok-Reads (
          cons-ReadsAll refl refl refl ok-Reads (
            cons-ReadsAll refl refl refl ok-Reads (
              cons-ReadsAll refl refl refl ok-Reads (
                cons-ReadsAll refl refl refl ok-Reads
                  (cons-ReadsAll refl refl refl ok-Reads done-ReadsAll))))))))

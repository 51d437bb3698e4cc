-- ===== src/Models/Typing/Meta.antt =====
-- The models of metadata, status and deletion options read the values of the axios client as those of the fetch client.
use pipeline_operator.Prelude.{String, Option, refl}
use pipeline_operator.Value.{Value}
use pipeline_operator.Types.Decoding.{
  ReadsAll, done-ReadsAll, cons-ReadsAll, ok-Reads, unless_nullish-ok-Reads, decode-Reads,
  unless_nullish-Reads, map_array-Decodes, from_json-Decodes, new_date-Decodes,
}
use pipeline_operator.Models.Meta.{
  condition, preconditions, delete_options, list_meta, managed_fields_entry, owner_reference,
  object_meta, status_cause, status_details, status, watch_event,
}
use pipeline_operator.Axios.Interfaces.Meta.{
  condition_interface, delete_options_interface, list_meta_interface,
  managed_fields_entry_interface, object_meta_interface, owner_reference_interface,
  preconditions_interface, status_interface, status_cause_interface, status_details_interface,
  watch_event_interface,
}
use pipeline_operator.Models.Interfaces.Meta.{
  condition_type, preconditions_type, delete_options_type, list_meta_type,
  managed_fields_entry_type, owner_reference_type, object_meta_type, status_cause_type,
  status_details_type, status_type, watch_event_type,
}

pub condition-ReadsAll :
    (parse_date : Value → Option String)
    → ReadsAll condition_interface (condition parse_date) condition_type
condition-ReadsAll parse_date =
    cons-ReadsAll refl refl refl (decode-Reads (new_date-Decodes parse_date)) (
      cons-ReadsAll refl refl refl ok-Reads (
        cons-ReadsAll refl refl refl unless_nullish-ok-Reads (
          cons-ReadsAll refl refl refl ok-Reads (
            cons-ReadsAll refl refl refl ok-Reads
              (cons-ReadsAll refl refl refl ok-Reads done-ReadsAll)))))

pub preconditions-ReadsAll : ReadsAll preconditions_interface preconditions preconditions_type
preconditions-ReadsAll =
    cons-ReadsAll refl refl refl unless_nullish-ok-Reads
      (cons-ReadsAll refl refl refl unless_nullish-ok-Reads done-ReadsAll)

pub delete_options-ReadsAll : ReadsAll delete_options_interface delete_options delete_options_type
delete_options-ReadsAll = cons-ReadsAll refl refl refl unless_nullish-ok-Reads (
    cons-ReadsAll refl refl refl unless_nullish-ok-Reads (
      cons-ReadsAll refl refl refl unless_nullish-ok-Reads (
        cons-ReadsAll refl refl refl unless_nullish-ok-Reads (
          cons-ReadsAll refl refl refl unless_nullish-ok-Reads (
            cons-ReadsAll refl refl refl
              (unless_nullish-Reads (from_json-Decodes preconditions-ReadsAll))
              (cons-ReadsAll refl refl refl unless_nullish-ok-Reads done-ReadsAll))))))

pub list_meta-ReadsAll : ReadsAll list_meta_interface list_meta list_meta_type
list_meta-ReadsAll = cons-ReadsAll refl refl refl unless_nullish-ok-Reads (
    cons-ReadsAll refl refl refl unless_nullish-ok-Reads (
      cons-ReadsAll refl refl refl unless_nullish-ok-Reads
        (cons-ReadsAll refl refl refl unless_nullish-ok-Reads done-ReadsAll)))

pub managed_fields_entry-ReadsAll :
    (parse_date : Value → Option String)
    → ReadsAll managed_fields_entry_interface
        (managed_fields_entry parse_date)
        managed_fields_entry_type
managed_fields_entry-ReadsAll parse_date = cons-ReadsAll refl refl refl unless_nullish-ok-Reads (
    cons-ReadsAll refl refl refl unless_nullish-ok-Reads (
      cons-ReadsAll refl refl refl unless_nullish-ok-Reads (
        cons-ReadsAll refl refl refl unless_nullish-ok-Reads (
          cons-ReadsAll refl refl refl unless_nullish-ok-Reads (
            cons-ReadsAll refl refl refl unless_nullish-ok-Reads (
              cons-ReadsAll refl refl refl (unless_nullish-Reads (new_date-Decodes parse_date))
                done-ReadsAll))))))

pub owner_reference-ReadsAll :
    ReadsAll owner_reference_interface owner_reference owner_reference_type
owner_reference-ReadsAll = cons-ReadsAll refl refl refl ok-Reads (
    cons-ReadsAll refl refl refl unless_nullish-ok-Reads (
      cons-ReadsAll refl refl refl unless_nullish-ok-Reads (
        cons-ReadsAll refl refl refl ok-Reads (
          cons-ReadsAll refl refl refl ok-Reads
            (cons-ReadsAll refl refl refl ok-Reads done-ReadsAll)))))

pub object_meta-ReadsAll :
    (parse_date : Value → Option String)
    → ReadsAll object_meta_interface (object_meta parse_date) object_meta_type
object_meta-ReadsAll parse_date = cons-ReadsAll refl refl refl unless_nullish-ok-Reads (
    cons-ReadsAll refl refl refl (unless_nullish-Reads (new_date-Decodes parse_date)) (
      cons-ReadsAll refl refl refl unless_nullish-ok-Reads (
        cons-ReadsAll refl refl refl (unless_nullish-Reads (new_date-Decodes parse_date)) (
          cons-ReadsAll refl refl refl unless_nullish-ok-Reads (
            cons-ReadsAll refl refl refl unless_nullish-ok-Reads (
              cons-ReadsAll refl refl refl unless_nullish-ok-Reads (
                cons-ReadsAll refl refl refl unless_nullish-ok-Reads (
                  cons-ReadsAll refl refl refl
                    (unless_nullish-Reads (
                      map_array-Decodes
                        (from_json-Decodes (managed_fields_entry-ReadsAll parse_date))))
                    (cons-ReadsAll refl refl refl unless_nullish-ok-Reads (
                      cons-ReadsAll refl refl refl unless_nullish-ok-Reads (
                        cons-ReadsAll refl refl refl
                          (unless_nullish-Reads
                            (map_array-Decodes (from_json-Decodes owner_reference-ReadsAll)))
                          (cons-ReadsAll refl refl refl unless_nullish-ok-Reads (
                            cons-ReadsAll refl refl refl unless_nullish-ok-Reads (
                              cons-ReadsAll refl refl refl unless_nullish-ok-Reads
                                done-ReadsAll))))))))))))))

pub status_cause-ReadsAll : ReadsAll status_cause_interface status_cause status_cause_type
status_cause-ReadsAll = cons-ReadsAll refl refl refl unless_nullish-ok-Reads (
    cons-ReadsAll refl refl refl unless_nullish-ok-Reads
      (cons-ReadsAll refl refl refl unless_nullish-ok-Reads done-ReadsAll))

pub status_details-ReadsAll : ReadsAll status_details_interface status_details status_details_type
status_details-ReadsAll =
    cons-ReadsAll refl refl refl
      (unless_nullish-Reads (map_array-Decodes (from_json-Decodes status_cause-ReadsAll)))
      (cons-ReadsAll refl refl refl unless_nullish-ok-Reads (
        cons-ReadsAll refl refl refl unless_nullish-ok-Reads (
          cons-ReadsAll refl refl refl unless_nullish-ok-Reads (
            cons-ReadsAll refl refl refl unless_nullish-ok-Reads
              (cons-ReadsAll refl refl refl unless_nullish-ok-Reads done-ReadsAll)))))

pub status-ReadsAll : ReadsAll status_interface status status_type
status-ReadsAll = cons-ReadsAll refl refl refl unless_nullish-ok-Reads (
    cons-ReadsAll refl refl refl unless_nullish-ok-Reads (
      cons-ReadsAll refl refl refl
        (unless_nullish-Reads (from_json-Decodes status_details-ReadsAll))
        (cons-ReadsAll refl refl refl unless_nullish-ok-Reads (
          cons-ReadsAll refl refl refl unless_nullish-ok-Reads (
            cons-ReadsAll refl refl refl
              (unless_nullish-Reads (from_json-Decodes list_meta-ReadsAll))
              (cons-ReadsAll refl refl refl unless_nullish-ok-Reads
                (cons-ReadsAll refl refl refl unless_nullish-ok-Reads done-ReadsAll)))))))

pub watch_event-ReadsAll : ReadsAll watch_event_interface watch_event watch_event_type
watch_event-ReadsAll =
    cons-ReadsAll refl refl refl ok-Reads (cons-ReadsAll refl refl refl ok-Reads done-ReadsAll)

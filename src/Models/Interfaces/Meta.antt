-- ===== src/Models/Interfaces/Meta.antt =====
-- The interfaces of metadata, status and deletion options, from the files of
-- generated/sdk/ts-fetch/models.
use pipeline_operator.Types.{
  string_type, number_type, boolean_type, date_type, object_type, array_of, record_of, interface,
  must, may, Members, done, ◌⊕◌,
}

abbrev pub condition_type : Members
condition_type =
    must "lastTransitionTime" date_type
    ⊕ must "message" string_type
    ⊕ may "observedGeneration" number_type
    ⊕ must "reason" string_type
    ⊕ must "status" string_type
    ⊕ must "type" string_type
    ⊕ done

abbrev pub preconditions_type : Members
preconditions_type = may "resourceVersion" string_type ⊕ may "uid" string_type ⊕ done

abbrev pub delete_options_type : Members
delete_options_type =
    may "apiVersion" string_type
    ⊕ may "dryRun" (array_of string_type)
    ⊕ may "gracePeriodSeconds" number_type
    ⊕ may "kind" string_type
    ⊕ may "orphanDependents" boolean_type
    ⊕ may "preconditions" (interface preconditions_type)
    ⊕ may "propagationPolicy" string_type
    ⊕ done

abbrev pub list_meta_type : Members
list_meta_type =
    may "_continue" string_type
    ⊕ may "remainingItemCount" number_type
    ⊕ may "resourceVersion" string_type
    ⊕ may "selfLink" string_type
    ⊕ done

abbrev pub managed_fields_entry_type : Members
managed_fields_entry_type =
    may "apiVersion" string_type
    ⊕ may "fieldsType" string_type
    ⊕ may "fieldsV1" object_type
    ⊕ may "manager" string_type
    ⊕ may "operation" string_type
    ⊕ may "subresource" string_type
    ⊕ may "time" date_type
    ⊕ done

abbrev pub owner_reference_type : Members
owner_reference_type =
    must "apiVersion" string_type
    ⊕ may "blockOwnerDeletion" boolean_type
    ⊕ may "controller" boolean_type
    ⊕ must "kind" string_type
    ⊕ must "name" string_type
    ⊕ must "uid" string_type
    ⊕ done

abbrev pub object_meta_type : Members
object_meta_type =
    may "annotations" (record_of string_type)
    ⊕ may "creationTimestamp" date_type
    ⊕ may "deletionGracePeriodSeconds" number_type
    ⊕ may "deletionTimestamp" date_type
    ⊕ may "finalizers" (array_of string_type)
    ⊕ may "generateName" string_type
    ⊕ may "generation" number_type
    ⊕ may "labels" (record_of string_type)
    ⊕ may "managedFields" (array_of (interface managed_fields_entry_type))
    ⊕ may "name" string_type
    ⊕ may "namespace" string_type
    ⊕ may "ownerReferences" (array_of (interface owner_reference_type))
    ⊕ may "resourceVersion" string_type
    ⊕ may "selfLink" string_type
    ⊕ may "uid" string_type
    ⊕ done

abbrev pub status_cause_type : Members
status_cause_type =
    may "field" string_type ⊕ may "message" string_type ⊕ may "reason" string_type ⊕ done

abbrev pub status_details_type : Members
status_details_type =
    may "causes" (array_of (interface status_cause_type))
    ⊕ may "group" string_type
    ⊕ may "kind" string_type
    ⊕ may "name" string_type
    ⊕ may "retryAfterSeconds" number_type
    ⊕ may "uid" string_type
    ⊕ done

abbrev pub status_type : Members
status_type =
    may "apiVersion" string_type
    ⊕ may "code" number_type
    ⊕ may "details" (interface status_details_type)
    ⊕ may "kind" string_type
    ⊕ may "message" string_type
    ⊕ may "metadata" (interface list_meta_type)
    ⊕ may "reason" string_type
    ⊕ may "status" string_type
    ⊕ done

abbrev pub watch_event_type : Members
watch_event_type = must "object" object_type ⊕ must "type" string_type ⊕ done

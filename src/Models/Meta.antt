-- ===== src/Models/Meta.antt =====
-- The models of metadata, status and deletion options of the Kubernetes API, generated/sdk/ts-fetch/models: for each
-- file the table of its properties.
use pipeline_operator.Prelude.{String, Option, [], ◌∷◌}
use pipeline_operator.Value.{Value}
use pipeline_operator.Models.Codec.{Model}
use pipeline_operator.Models.Codec.Kinds.{instant, instant?, model?, models?, named, plain, plain?}

abbrev pub managed_fields_entry : (Value → Option String) → Model
managed_fields_entry parse_date =
    plain? "apiVersion"
    ∷ plain? "fieldsType"
    ∷ plain? "fieldsV1"
    ∷ plain? "manager"
    ∷ plain? "operation"
    ∷ plain? "subresource"
    ∷ instant? parse_date "time"
    ∷ []

abbrev pub owner_reference : Model
owner_reference =
    plain "apiVersion"
    ∷ plain? "blockOwnerDeletion"
    ∷ plain? "controller"
    ∷ plain "kind"
    ∷ plain "name"
    ∷ plain "uid"
    ∷ []

abbrev pub object_meta : (Value → Option String) → Model
object_meta parse_date =
    plain? "annotations"
    ∷ instant? parse_date "creationTimestamp"
    ∷ plain? "deletionGracePeriodSeconds"
    ∷ instant? parse_date "deletionTimestamp"
    ∷ plain? "finalizers"
    ∷ plain? "generateName"
    ∷ plain? "generation"
    ∷ plain? "labels"
    ∷ models? "managedFields" (managed_fields_entry parse_date)
    ∷ plain? "name"
    ∷ plain? "namespace"
    ∷ models? "ownerReferences" owner_reference
    ∷ plain? "resourceVersion"
    ∷ plain? "selfLink"
    ∷ plain? "uid"
    ∷ []

abbrev pub list_meta : Model
list_meta =
    named "continue" (plain? "_continue")
    ∷ plain? "remainingItemCount"
    ∷ plain? "resourceVersion"
    ∷ plain? "selfLink"
    ∷ []

abbrev pub preconditions : Model
preconditions = plain? "resourceVersion" ∷ plain? "uid" ∷ []

abbrev pub delete_options : Model
delete_options =
    plain? "apiVersion"
    ∷ plain? "dryRun"
    ∷ plain? "gracePeriodSeconds"
    ∷ plain? "kind"
    ∷ plain? "orphanDependents"
    ∷ model? "preconditions" preconditions
    ∷ plain? "propagationPolicy"
    ∷ []

abbrev pub status_cause : Model
status_cause = plain? "field" ∷ plain? "message" ∷ plain? "reason" ∷ []

abbrev pub status_details : Model
status_details =
    models? "causes" status_cause
    ∷ plain? "group"
    ∷ plain? "kind"
    ∷ plain? "name"
    ∷ plain? "retryAfterSeconds"
    ∷ plain? "uid"
    ∷ []

abbrev pub status : Model
status =
    plain? "apiVersion"
    ∷ plain? "code"
    ∷ model? "details" status_details
    ∷ plain? "kind"
    ∷ plain? "message"
    ∷ model? "metadata" list_meta
    ∷ plain? "reason"
    ∷ plain? "status"
    ∷ []

abbrev pub condition : (Value → Option String) → Model
condition parse_date =
    instant parse_date "lastTransitionTime"
    ∷ plain "message"
    ∷ plain? "observedGeneration"
    ∷ plain "reason"
    ∷ plain "status"
    ∷ plain "type"
    ∷ []

abbrev pub watch_event : Model
watch_event = plain "object" ∷ plain "type" ∷ []

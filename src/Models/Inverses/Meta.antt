-- ===== src/Models/Inverses/Meta.antt =====
-- The models of metadata, status and deletion options of the Kubernetes API: each can be read back after it was written.
use pipeline_operator.Prelude.{String, Option, refl}
use pipeline_operator.Value.{Value}
use pipeline_operator.Models.Codec.{from_json, to_json}
use pipeline_operator.Models.Codec.Laws.{
  Inverts, ReadsOwnText, instant-IsInvertible, instant?-IsInvertible, model?-IsInvertible,
  models?-IsInvertible, plain-IsInvertible, plain?-IsInvertible,
}
use pipeline_operator.Models.Codec.Roundtrip.{model-Inverts}
use pipeline_operator.Models.Meta.{
  managed_fields_entry, owner_reference, object_meta, list_meta, preconditions, delete_options,
  status_cause, status_details, status, condition, watch_event,
}

pub managed_fields_entry-Inverts :
    (parse_date : Value → Option String)
    → ReadsOwnText parse_date
    → Inverts
        (from_json (managed_fields_entry parse_date))
        (to_json (managed_fields_entry parse_date))
managed_fields_entry-Inverts parse_date own =
    model-Inverts (managed_fields_entry parse_date)
      (
        plain?-IsInvertible "apiVersion",
        (
          plain?-IsInvertible "fieldsType",
          (
            plain?-IsInvertible "fieldsV1",
            (
              plain?-IsInvertible "manager",
              (
                plain?-IsInvertible "operation",
                (
                  plain?-IsInvertible "subresource",
                  (instant?-IsInvertible parse_date own "time", tt),
                ),
              ),
            ),
          ),
        ),
      )
      (refl, refl)

pub owner_reference-Inverts : Inverts (from_json owner_reference) (to_json owner_reference)
owner_reference-Inverts =
    model-Inverts owner_reference
      (
        plain-IsInvertible "apiVersion",
        (
          plain?-IsInvertible "blockOwnerDeletion",
          (
            plain?-IsInvertible "controller",
            (
              plain-IsInvertible "kind",
              (plain-IsInvertible "name", (plain-IsInvertible "uid", tt)),
            ),
          ),
        ),
      )
      (refl, refl)

pub object_meta-Inverts :
    (parse_date : Value → Option String)
    → ReadsOwnText parse_date
    → Inverts (from_json (object_meta parse_date)) (to_json (object_meta parse_date))
object_meta-Inverts parse_date own =
    model-Inverts (object_meta parse_date)
      (
        plain?-IsInvertible "annotations",
        (
          instant?-IsInvertible parse_date own "creationTimestamp",
          (
            plain?-IsInvertible "deletionGracePeriodSeconds",
            (
              instant?-IsInvertible parse_date own "deletionTimestamp",
              (
                plain?-IsInvertible "finalizers",
                (
                  plain?-IsInvertible "generateName",
                  (
                    plain?-IsInvertible "generation",
                    (
                      plain?-IsInvertible "labels",
                      (
                        models?-IsInvertible (managed_fields_entry parse_date)
                            (managed_fields_entry-Inverts parse_date own) "managedFields",
                        (
                          plain?-IsInvertible "name",
                          (
                            plain?-IsInvertible "namespace",
                            (
                              models?-IsInvertible owner_reference owner_reference-Inverts
                                  "ownerReferences",
                              (
                                plain?-IsInvertible "resourceVersion",
                                (plain?-IsInvertible "selfLink", (plain?-IsInvertible "uid", tt)),
                              ),
                            ),
                          ),
                        ),
                      ),
                    ),
                  ),
                ),
              ),
            ),
          ),
        ),
      )
      (refl, refl)

pub list_meta-Inverts : Inverts (from_json list_meta) (to_json list_meta)
list_meta-Inverts =
    model-Inverts list_meta
      (
        plain?-IsInvertible "_continue",
        (
          plain?-IsInvertible "remainingItemCount",
          (plain?-IsInvertible "resourceVersion", (plain?-IsInvertible "selfLink", tt)),
        ),
      )
      (refl, refl)

pub preconditions-Inverts : Inverts (from_json preconditions) (to_json preconditions)
preconditions-Inverts =
    model-Inverts preconditions
      (plain?-IsInvertible "resourceVersion", (plain?-IsInvertible "uid", tt)) (refl, refl)

pub delete_options-Inverts : Inverts (from_json delete_options) (to_json delete_options)
delete_options-Inverts =
    model-Inverts delete_options
      (
        plain?-IsInvertible "apiVersion",
        (
          plain?-IsInvertible "dryRun",
          (
            plain?-IsInvertible "gracePeriodSeconds",
            (
              plain?-IsInvertible "kind",
              (
                plain?-IsInvertible "orphanDependents",
                (
                  model?-IsInvertible preconditions preconditions-Inverts "preconditions",
                  (plain?-IsInvertible "propagationPolicy", tt),
                ),
              ),
            ),
          ),
        ),
      )
      (refl, refl)

pub status_cause-Inverts : Inverts (from_json status_cause) (to_json status_cause)
status_cause-Inverts =
    model-Inverts status_cause
      (
        plain?-IsInvertible "field",
        (plain?-IsInvertible "message", (plain?-IsInvertible "reason", tt)),
      )
      (refl, refl)

pub status_details-Inverts : Inverts (from_json status_details) (to_json status_details)
status_details-Inverts =
    model-Inverts status_details
      (
        models?-IsInvertible status_cause status_cause-Inverts "causes",
        (
          plain?-IsInvertible "group",
          (
            plain?-IsInvertible "kind",
            (
              plain?-IsInvertible "name",
              (plain?-IsInvertible "retryAfterSeconds", (plain?-IsInvertible "uid", tt)),
            ),
          ),
        ),
      )
      (refl, refl)

pub status-Inverts : Inverts (from_json status) (to_json status)
status-Inverts =
    model-Inverts status
      (
        plain?-IsInvertible "apiVersion",
        (
          plain?-IsInvertible "code",
          (
            model?-IsInvertible status_details status_details-Inverts "details",
            (
              plain?-IsInvertible "kind",
              (
                plain?-IsInvertible "message",
                (
                  model?-IsInvertible list_meta list_meta-Inverts "metadata",
                  (plain?-IsInvertible "reason", (plain?-IsInvertible "status", tt)),
                ),
              ),
            ),
          ),
        ),
      )
      (refl, refl)

pub condition-Inverts :
    (parse_date : Value → Option String)
    → ReadsOwnText parse_date
    → Inverts (from_json (condition parse_date)) (to_json (condition parse_date))
condition-Inverts parse_date own =
    model-Inverts (condition parse_date)
      (
        instant-IsInvertible parse_date own "lastTransitionTime",
        (
          plain-IsInvertible "message",
          (
            plain?-IsInvertible "observedGeneration",
            (
              plain-IsInvertible "reason",
              (plain-IsInvertible "status", (plain-IsInvertible "type", tt)),
            ),
          ),
        ),
      )
      (refl, refl)

pub watch_event-Inverts : Inverts (from_json watch_event) (to_json watch_event)
watch_event-Inverts =
    model-Inverts watch_event (plain-IsInvertible "object", (plain-IsInvertible "type", tt))
      (refl, refl)

-- ===== src/Axios/Operations/Queries.antt =====
-- The query parameters of the operations, each with the key that it is sent under.
use pipeline_operator.Prelude.{String, List, [], ◌∷◌}

abbrev pub change_query : List (String × String)
change_query =
    ("pretty", "pretty")
    ∷ ("dryRun", "dryRun")
    ∷ ("fieldManager", "fieldManager")
    ∷ ("fieldValidation", "fieldValidation")
    ∷ []

abbrev pub list_query : List (String × String)
list_query =
    ("pretty", "pretty")
    ∷ ("allowWatchBookmarks", "allowWatchBookmarks")
    ∷ ("_continue", "continue")
    ∷ ("fieldSelector", "fieldSelector")
    ∷ ("labelSelector", "labelSelector")
    ∷ ("limit", "limit")
    ∷ ("resourceVersion", "resourceVersion")
    ∷ ("resourceVersionMatch", "resourceVersionMatch")
    ∷ ("sendInitialEvents", "sendInitialEvents")
    ∷ ("timeoutSeconds", "timeoutSeconds")
    ∷ ("watch", "watch")
    ∷ []

abbrev pub delete_query : List (String × String)
delete_query =
    ("pretty", "pretty")
    ∷ ("dryRun", "dryRun")
    ∷ ("gracePeriodSeconds", "gracePeriodSeconds")
    ∷ (
      "ignoreStoreReadErrorWithClusterBreakingPotential",
      "ignoreStoreReadErrorWithClusterBreakingPotential",
    )
    ∷ ("orphanDependents", "orphanDependents")
    ∷ ("propagationPolicy", "propagationPolicy")
    ∷ []

abbrev pub list_all_query : List (String × String)
list_all_query =
    ("allowWatchBookmarks", "allowWatchBookmarks")
    ∷ ("_continue", "continue")
    ∷ ("fieldSelector", "fieldSelector")
    ∷ ("labelSelector", "labelSelector")
    ∷ ("limit", "limit")
    ∷ ("pretty", "pretty")
    ∷ ("resourceVersion", "resourceVersion")
    ∷ ("resourceVersionMatch", "resourceVersionMatch")
    ∷ ("sendInitialEvents", "sendInitialEvents")
    ∷ ("timeoutSeconds", "timeoutSeconds")
    ∷ ("watch", "watch")
    ∷ []

abbrev pub patch_query : List (String × String)
patch_query =
    ("pretty", "pretty")
    ∷ ("dryRun", "dryRun")
    ∷ ("fieldManager", "fieldManager")
    ∷ ("fieldValidation", "fieldValidation")
    ∷ ("force", "force")
    ∷ []

abbrev pub read_query : List (String × String)
read_query = ("pretty", "pretty") ∷ ("resourceVersion", "resourceVersion") ∷ []

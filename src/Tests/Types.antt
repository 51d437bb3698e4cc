-- ===== src/Tests/Types.antt =====
-- Theorems on JSON content types and query strings, at examples.
use pipeline_operator.Prelude.{◌≡◌, refl, ◌↔◌, true, some, [], ◌∷◌, codes, map, join, ◌++◌}
use pipeline_operator.Regex.{test}
use pipeline_operator.Runtime.Query.{
  HttpQuery, end, entry, scalar, array, nested, text, querystring,
}
use pipeline_operator.Runtime.Query.Flat.{flatten, encoded_pair, querystring-eq-join}
use pipeline_operator.Runtime.Mime
use pipeline_operator.Runtime.Mime.Laws.{is_json_mime_axios}
use pipeline_operator.Value.{Items, nil, cons, field, object, string, undefined}
use pipeline_operator.Value as V
use pipeline_operator.Axios.Params.{
  set_search_params, set_flattened, item_leaves, set_search_params-leaves,
}
use pipeline_operator.Axios.Mime as AxiosMime
use pipeline_operator.Axios.Mime.{json_mime}
use pipeline_operator.Axios.Mime.Laws.{IsJsonMime, is_json_mime_iff}

is_json_mime_iff_example :
    (AxiosMime.is_json_mime (some "Application/JSON; charset=utf-8") ≡ true)
    ↔ IsJsonMime (codes "Application/JSON; charset=utf-8")
is_json_mime_iff_example = is_json_mime_iff "Application/JSON; charset=utf-8"

is_json_mime_axios_example : Mime.is_json_mime (some "application/json-patch+json") ≡ true
unfolding AxiosMime.is_json_mime json_mime test
is_json_mime_axios_example = is_json_mime_axios "application/json-patch+json" refl

abbrev sample_query : HttpQuery
sample_query =
    entry "labels" (nested (entry "app" (scalar (text "x")) (entry "none" (nested end) end)))
      (entry "names" (array (text "a" ∷ text "b" ∷ [])) end)

querystring-eq-join_example :
    querystring (λ s. s) sample_query ""
    ≡ join "&" (map (encoded_pair (λ s. s)) (flatten sample_query ""))
querystring-eq-join_example = querystring-eq-join (λ s. s) sample_query "" refl

abbrev query_objects : Items
query_objects =
    cons
      (object (
        field "dryRun" (string "All") (
          field "limit" undefined (
            field "labels"
              (object (field "app" (V.array (cons (string "a") (cons (string "b") nil))) V.end))
              V.end))))
      nil

set_search_params-leaves_example :
    set_search_params (("dryRun", "x") ∷ []) query_objects
    ≡ (("dryRun", "x") ∷ []) ++ item_leaves query_objects ""
set_search_params-leaves_example = set_search_params-leaves (("dryRun", "x") ∷ []) query_objects

-- The same, computed.
flattened_query :
    set_search_params [] query_objects
    ≡ ("dryRun", "All") ∷ ("labels.app", "a") ∷ ("labels.app", "b") ∷ []
unfolding set_search_params set_flattened
flattened_query = refl

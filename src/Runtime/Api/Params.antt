-- ===== src/Runtime/Api/Params.antt =====
-- What `createFetchParams` sends: the URL, the headers and the body.
use pipeline_operator.Prelude.{
  String, ◌≡◌, refl, sym, ap, ◌∙◌, true, inl, inr, Option, none, some, List, [], ◌<>◌, Bool-cases,
  if◌then◌else◌, join, map,
}
use mathlib.Core.Option.{get_or}
use pipeline_operator.Value.{Value}
use pipeline_operator.Errors.{ok}
use pipeline_operator.Exec.{continue-eq-ok, ok-injective}
use pipeline_operator.Runtime.Query.{HttpQuery, end, entry, nested, querystring}
use pipeline_operator.Runtime.Query.Flat.{flatten, encoded_pair, querystring-eq-join}
use pipeline_operator.Runtime.Mime.{is_json_mime}
use pipeline_operator.Runtime.Types.{
  plain, RequestInit, FetchParams, RequestOpts, InitOverride, InitOverrides, absent, fixed,
  Platform,
}
use pipeline_operator.Runtime.Configuration
use pipeline_operator.Runtime.Headers.{assign, delete_undefined, lookup}
use pipeline_operator.Runtime.Headers.Laws.{names, sent, first_some, lookup-merged}
use pipeline_operator.Models.Codec.Roundtrip.{distinct}
use pipeline_operator.Runtime.Api.{
  BaseApi, overridden, override_function, spread, encode_body, with_query, create_fetch_params,
}

module _ {W : Type 0} (host : Platform W) (api : BaseApi W) (context : RequestOpts) where
  -- The headers before any override.
  pub merged : List (String × String)
  merged =
      delete_undefined (assign (assign [] (get_or api.configuration.headers [])) context.headers)

  pub defaults : RequestInit
  unfolding merged
  defaults = record {
    method = context.method;
    headers = merged;
    body = context.body;
    credentials = api.configuration.credentials;
    extra = [];
  }

  -- What came of a successful call: the override that was asked for, and the parameters.
  create_fetch_params-inverted :
      (overrides : InitOverrides W) (params : FetchParams) (w w' : W)
      → create_fetch_params host api context overrides w ≡ (ok params, w')
      → (o : InitOverride) × (override_function overrides defaults context w ≡ (ok o, w'))
        × (params ≡ record {
          url =
              with_query
                (Configuration.query_params_stringify host api.configuration)
                context.query
                (Configuration.base_path api.configuration <> context.path);
          init = record (spread defaults o) {
            body = encode_body host (lookup "Content-Type" merged) (spread defaults o).body;
          };
        })
  unfolding create_fetch_params defaults
  create_fetch_params-inverted overrides params w w' e =
      let (o, v, asked, made) =
        continue-eq-ok (override_function overrides defaults context w) _ e in
      let (same, world) = ok-injective made in (o, asked ∙ ap (λ z. (ok o, z)) world, sym same)

-- The URL that a query is expected to lead to, and the text of a query.
abbrev pub query_text : (String → String) → HttpQuery → String
query_text encode query = join "&" (map (encoded_pair encode) (flatten query ""))

abbrev pub url_with : (String → String) → String → Option HttpQuery → String
url_with encode url none = url
url_with encode url (some end) = url
url_with encode url (some (entry key v query)) =
    url <> ("?" <> query_text encode (entry key v query))

pub with_query-eq :
    (encode : String → String) (query : Option HttpQuery) (url : String)
    → encode "" ≡ ""
    → with_query (λ q. querystring encode q "") query url ≡ url_with encode url query
with_query-eq encode none url h = refl
with_query-eq encode (some end) url h = refl
with_query-eq encode (some (entry key v query)) url h =
    ap (λ t. url <> ("?" <> t)) (querystring-eq-join encode (entry key v query) "" h)

module _ {W : Type 0} (host : Platform W) (api : BaseApi W) (context : RequestOpts)
    (overrides : InitOverrides W) (params : FetchParams) (w w' : W)
    (made : create_fetch_params host api context overrides w ≡ (ok params, w')) where
  -- The URL is the base path and the operation's path, followed by `?` and the leaves of the query
  -- if the query has any key; no override changes it. The client has the runtime's own
  -- `querystring`, and encoding leaves the empty text empty.
  pub create_fetch_params-url :
      api.configuration.query_params_stringify ≡ none
      → host.encode_uri_component "" ≡ ""
      → params.url
        ≡ url_with host.encode_uri_component
            (Configuration.base_path api.configuration <> context.path)
            context.query
  unfolding Configuration.query_params_stringify
  create_fetch_params-url standard empty =
      let (o, asked, whole) =
        create_fetch_params-inverted host api context overrides params w w' made in
      ap (λ p. p.url) whole
      ∙ rw standard (with_query-eq host.encode_uri_component context.query _ empty)

  -- A query that has no leaf, and whose first key holds an empty object, leads to a URL that ends in
  -- a lone `?`. The client has the runtime's own `querystring`, and encoding leaves the empty text
  -- empty.
  pub create_fetch_params_lone_mark :
      (key : String) (rest : HttpQuery)
      → api.configuration.query_params_stringify ≡ none
      → host.encode_uri_component "" ≡ ""
      → context.query ≡ some (entry key (nested end) rest)
      → flatten rest "" ≡ []
      → params.url ≡ (Configuration.base_path api.configuration <> context.path) <> "?"
  unfolding flatten
  create_fetch_params_lone_mark key rest standard empty asked none_left =
      create_fetch_params-url standard empty ∙ rw (asked, none_left) refl

  -- With no override, a header of the request wins over the configuration's, and one that the
  -- winner sets to `undefined` is not sent. The names within each of the two are distinct.
  pub create_fetch_params-headers :
      (k : String)
      → overrides ≡ absent
      → distinct (names (get_or api.configuration.headers [])) ≡ true
      → distinct (names context.headers) ≡ true
      → lookup k params.init.headers
        ≡ sent
            (first_some (lookup k context.headers) (lookup k (get_or api.configuration.headers [])))
  unfolding merged defaults spread
  create_fetch_params-headers k plainly hc ho =
      let (o, asked, whole) =
        create_fetch_params-inverted host api context overrides params w w' made in
      let none_given = (ok-injective (rw plainly at asked)).0 in
      ap (λ p. lookup k p.init.headers) whole
      ∙ ap (λ q. lookup k (overridden (merged host api context) q.headers)) (sym none_given)
      ∙ lookup-merged k (get_or api.configuration.headers []) context.headers hc ho

  -- With a fixed override that gives other headers, and a plain body, whether the body is serialised
  -- is decided by the `Content-Type` before the override, though the override's headers are sent.
  pub create_fetch_params_override :
      (o : InitOverride) (headers : List (String × String)) (v : Value)
      → overrides ≡ fixed o
      → o.headers ≡ some headers
      → overridden context.body o.body ≡ plain v
      → (params.init.headers ≡ headers)
        × (params.init.body
            ≡ plain (
                if is_json_mime (lookup "Content-Type" (merged host api context))
                then host.json_stringify v
                else v))
  unfolding spread defaults encode_body
  create_fetch_params_override o headers v given others plainly =
      let (q, asked, whole) =
        create_fetch_params-inverted host api context overrides params w w' made in
      let same = sym (ok-injective (rw given at asked)).0 in
      let kind = lookup "Content-Type" (merged host api context) in
      (
        ap (λ p. p.init.headers) whole
            ∙ ap (λ a. overridden (merged host api context) a.headers) same
            ∙ rw others,
        ap (λ p. p.init.body) whole
            ∙ ap (λ a. encode_body host kind (overridden context.body a.body)) same
            ∙ rw plainly (elim (Bool-cases (is_json_mime kind)) [
              | inl json ↦ rw json refl
              | inr other ↦ rw other refl
            ]),
      )

-- ===== src/Runtime/Query/Flat.antt =====
-- What a query string holds: one `key=value` for each leaf of the nested query, its key the path
-- to the leaf. An empty array counts as one leaf with an empty value; an empty nested query has no
-- leaf.
use pipeline_operator.Prelude.{
  String, List, [], ◌∷◌, ◌++◌, map, ◌≡◌, refl, sym, false, ◌<>◌, All, is_blank, join, join_tail,
  non_blank, is_blank-append, join-append_cons, join_tail-eq-after_first, non_blank-All,
}
use mathlib.Core.List.{map-append}
use text.Mathlib.TextLemmas.{append-nil, append_assoc}
use native.Mathlib.Omega.{arith}
use pipeline_operator.Runtime.Query.{
  Scalar, QueryValue, scalar, array, set, date, nested, HttpQuery, end, entry, to_text, full_key,
  array_text, encode_all, querystring_single_key, query_parts, querystring,
}

abbrev array_pairs : String → List Scalar → List (String × String)
array_pairs key [] = (key, "") ∷ []
array_pairs key (v ∷ vs) = map (λ u. (key, to_text u)) (v ∷ vs)

unfoldable mutual
  pub value_pairs : QueryValue → String → List (String × String)
  value_pairs (array values) key = array_pairs key values
  value_pairs (set values) key = array_pairs key values
  value_pairs (date iso) key = (key, iso) ∷ []
  value_pairs (nested params) key = flatten params key
  value_pairs (scalar value) key = (key, to_text value) ∷ []

  pub flatten : HttpQuery → String → List (String × String)
  flatten end prefix = []
  flatten (entry key value params) prefix =
      value_pairs value (full_key prefix key) ++ flatten params prefix

abbrev pub encoded_pair : (String → String) → String × String → String
encoded_pair encode (key, value) = encode key <> "=" <> encode value

module _ (encode : String → String) (encode_empty : encode "" ≡ "") where
  encoded_pair-ne-blank : (p : String × String) → is_blank (encoded_pair encode p) ≡ false
  encoded_pair-ne-blank (key, value) = simp is_blank-append (ground arith)

  encoded_pairs-All :
      (ps : List (String × String)) → All (λ x. is_blank x ≡ false) (map (encoded_pair encode) ps)
  encoded_pairs-All [] = tt
  encoded_pairs-All (p ∷ ps) = (encoded_pair-ne-blank p, encoded_pairs-All ps)

  array_tail :
      (key : String) (vs : List Scalar)
      → join_tail ("&" <> encode key <> "=") (encode_all encode vs)
        ≡ join_tail "&" (map (encoded_pair encode) (map (λ v. (key, to_text v)) vs))
  array_tail key [] = refl
  array_tail key (v ∷ vs) = simp (append_assoc, array_tail key vs)

  array_text-eq-join :
      (key : String) (vs : List Scalar)
      → array_text encode key vs ≡ join "&" (map (encoded_pair encode) (array_pairs key vs))
  array_text-eq-join key [] = simp (encode_empty, append_assoc, append-nil)
  array_text-eq-join key (v ∷ vs) = simp (append_assoc, array_tail key vs)

  join-cons :
      (s : String) (rest : List String) (ps qs : List (String × String))
      → s ≡ join "&" (map (encoded_pair encode) ps)
      → join "&" (non_blank rest) ≡ join "&" (map (encoded_pair encode) qs)
      → join "&" (non_blank (s ∷ rest)) ≡ join "&" (map (encoded_pair encode) (ps ++ qs))
  join-cons s rest [] qs e h = rw e h
  join-cons s rest (p ∷ ps) qs e h =
      let filled : is_blank s ≡ false = rw (e, is_blank-append, encoded_pair-ne-blank p) refl in
      let cut =
        join-append_cons "&" (encoded_pair encode p) (map (encoded_pair encode) ps)
          (map (encoded_pair encode) qs) (encoded_pairs-All qs) in
      rw
        (
          filled,
          join_tail-eq-after_first "&" (non_blank rest) (non_blank-All rest),
          h,
          map-append (encoded_pair encode) ps qs,
        )
        (rw e (sym cut))

  mutual
    unfolding querystring_single_key value_pairs

    single_key-eq-join :
        (v : QueryValue) (key : String)
        → querystring_single_key encode v key
          ≡ join "&" (map (encoded_pair encode) (value_pairs v key))
    single_key-eq-join (array values) key = array_text-eq-join key values
    single_key-eq-join (set values) key = array_text-eq-join key values
    single_key-eq-join (date iso) key = sym (append-nil _)
    single_key-eq-join (nested params) key = parts-eq-join params key
    single_key-eq-join (scalar value) key = sym (append-nil _)

    parts-eq-join :
        (q : HttpQuery) (prefix : String)
        → join "&" (non_blank (query_parts encode q prefix))
          ≡ join "&" (map (encoded_pair encode) (flatten q prefix))
    parts-eq-join end prefix = refl
    parts-eq-join (entry key value params) prefix =
        join-cons _ (query_parts encode params prefix) (value_pairs value (full_key prefix key))
          (flatten params prefix) (single_key-eq-join value (full_key prefix key))
          (parts-eq-join params prefix)

-- `querystring` writes exactly the leaves of the query, in order: one `key=value` for each, the
-- key being the bracketed path to the leaf, both encoded, with `&` between them. It is assumed
-- that `encodeURIComponent` leaves the empty text empty.
pub querystring-eq-join :
    (encode : String → String) (query : HttpQuery) (prefix : String)
    → encode "" ≡ ""
    → querystring encode query prefix ≡ join "&" (map (encoded_pair encode) (flatten query prefix))
unfolding querystring
querystring-eq-join encode query prefix encode_empty =
    parts-eq-join encode encode_empty query prefix

-- ===== src/Axios/Requests/Options.antt =====
-- The method, the headers and the data of a successful creation.
use pipeline_operator.Prelude.{String, ◌≡◌, ap, ◌∙◌, Option, none, some}
use pipeline_operator.Value.{Value, string, object, Fields, end, field, get_field, get}
use pipeline_operator.Errors.{Result, ok, throw}
use pipeline_operator.Axios.Objects.{
  set_field, spread, members, find_field, or_else, HasDistinctKeys, find_field-set_field,
  find_field-spread,
}
use pipeline_operator.Axios.Requests.{
  AxiosConfiguration, AxiosPlatform, RequestArgs, Operation, set_api_key_to_object, base_options_of,
  headers_from_base_options, request_headers, with_content_type, with_data, add_data,
  serialize_data_if_needed, is_configured, create_args,
}
use pipeline_operator.Axios.Requests.Laws.{start_options, create_args-inverted}

-- The options keep the headers, and their other members but `data`.
abbrev Keeps : Fields → Fields → Fields → Type 0
Keeps headers options fs =
    (find_field "headers" fs ≡ some (object headers))
    × (find_field "method" fs ≡ find_field "method" options)

Keeps-headers :
    (headers options : Fields)
    → Keeps headers options (set_field "headers" (object headers) options)
Keeps-headers headers options = (
  find_field-set_field "headers" "headers" (object headers) options,
  find_field-set_field "headers" "method" (object headers) options,
)

Keeps-data :
    (headers options : Fields) (v : Value)
    → Keeps headers options (set_field "data" v (set_field "headers" (object headers) options))
Keeps-data headers options v =
    let (kept, same) = Keeps-headers headers options in
    let fs = set_field "headers" (object headers) options in
    (
      find_field-set_field "data" "headers" v fs ∙ kept,
      find_field-set_field "data" "method" v fs ∙ same,
    )

add_data-Keeps :
    (r : Result Value) (headers options fs : Fields)
    → add_data r headers options ≡ ok fs
    → Keeps headers options fs
add_data-Keeps (throw e) headers options fs h = absurd (cc)
add_data-Keeps (ok v) headers options fs h =
    let same : set_field "data" v (set_field "headers" (object headers) options) ≡ fs = cc in
    rw (← same) (Keeps-data headers options v)

with_data-Keeps :
    {W : Type 0} (host : AxiosPlatform) (configuration : Option (AxiosConfiguration W))
    (kind : Option String) (body : Value) (headers options fs : Fields)
    → with_data host configuration kind body headers options ≡ ok fs
    → Keeps headers options fs
unfolding with_data
with_data-Keeps host configuration none body headers options fs h =
    let same : set_field "headers" (object headers) options ≡ fs = cc in
    rw (← same) (Keeps-headers headers options)
with_data-Keeps host configuration (some kind) body headers options fs h =
    add_data-Keeps (serialize_data_if_needed host body headers (is_configured host configuration))
      headers options fs h

module _ {W : Type 0} (host : AxiosPlatform) (configuration : Option (AxiosConfiguration W))
    (op : Operation) (args : Value) (options : Fields) (r : RequestArgs) (w w' : W)
    (created : create_args host configuration op args options w ≡ (ok r, w')) where
  -- A request has the method of its operation, but a method in the options wins over one in the base
  -- options, and that over the operation's. No name stands twice in the two.
  pub create_args-method :
      HasDistinctKeys (members (base_options_of configuration))
      → HasDistinctKeys options
      → find_field "method" r.options
        ≡ or_else (find_field "method" options) (
            or_else
              (find_field "method" (members (base_options_of configuration)))
              (some (string op.method)))
  unfolding start_options
  create_args-method distinct_base distinct_options =
      let (own, given, asked, finished, url) =
        create_args-inverted host configuration op args options w r w' created in
      let base = members (base_options_of configuration) in
      let first = field "method" (string op.method) end in
      (with_data-Keeps host configuration op.content_type (get args "body") _ _ r.options
        finished).1
      ∙ find_field-spread "method" (spread first base) options distinct_options
      ∙ ap (or_else (find_field "method" options))
          (find_field-spread "method" first base distinct_base)

  -- The headers of a request: those of its options win over those of the base options, and these over
  -- the content type of the operation and the token. No name stands twice in the first two.
  pub create_args-headers :
      HasDistinctKeys (headers_from_base_options (base_options_of configuration))
      → HasDistinctKeys (members (get_field options "headers"))
      → (own : Fields) × (headers : Fields) × (set_api_key_to_object end "authorization"
            configuration w
          ≡ (ok own, w'))
        × (find_field "headers" r.options ≡ some (object headers))
        × ((k : String)
            → find_field k headers
              ≡ or_else (find_field k (members (get_field options "headers"))) (
                  or_else
                    (find_field k (headers_from_base_options (base_options_of configuration)))
                    (find_field k (with_content_type op.content_type own))))
  create_args-headers distinct_base distinct_options =
      let (own, given, asked, finished, url) =
        create_args-inverted host configuration op args options w r w' created in
      let base = headers_from_base_options (base_options_of configuration) in
      let mine = members (get_field options "headers") in
      let first = with_content_type op.content_type own in
      (
        own,
        request_headers first (base_options_of configuration) options,
        asked,
        (with_data-Keeps host configuration op.content_type (get args "body") _ _ r.options
            finished).0,
        (λ k.
            find_field-spread k (spread first base) mine distinct_options
            ∙ ap (or_else (find_field k mine)) (find_field-spread k first base distinct_base)),
      )

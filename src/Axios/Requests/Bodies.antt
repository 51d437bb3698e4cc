-- ===== src/Axios/Requests/Bodies.antt =====
-- What a client with nothing configured but its base path creates.
use pipeline_operator.Prelude.{String, ◌≡◌, refl, true, Option, none, some}
use pipeline_operator.Value.{Value, string, object, undefined, end, field, get}
use pipeline_operator.Errors.{ok}
use pipeline_operator.Runtime.Configuration.{secret_function}
use pipeline_operator.Axios.Mime as AxiosMime
use pipeline_operator.Axios.Objects.{set_field, spread}
use pipeline_operator.Axios.Requests.{
  AxiosConfiguration, AxiosPlatform, Operation, set_api_key_to_object, query_object, fill_path,
  path_string, with_data, serialize_data_if_needed, is_json_header, create_args,
}
use pipeline_operator.Axios.Requests.Laws.{first_missing, assert_params-eq-checked}

abbrev pub bare_axios : {W : Type 0} → Option String → AxiosConfiguration W
bare_axios base = record { api_key = none; base_path = base; base_options = undefined }

-- The data of a request with a JSON content type: a text is sent as it is, an omitted body as the JSON
-- of an empty object, and any other body as its JSON.
abbrev pub json_data : AxiosPlatform → Value → Value
json_data host (string s) = string s
json_data host undefined = string (host.json_stringify (object end))
json_data host body = string (host.json_stringify body)

serialize_data_if_needed-json :
    (host : AxiosPlatform) (body : Value) (kind : String)
    → AxiosMime.is_json_mime (some kind) ≡ true
    → serialize_data_if_needed host body (field "Content-Type" (string kind) end) true
      ≡ ok (json_data host body)
unfolding serialize_data_if_needed is_json_header
serialize_data_if_needed-json host (string s) kind json = refl
serialize_data_if_needed-json host undefined kind json = rw json
serialize_data_if_needed-json host body kind json = rw json

module _ {W : Type 0} (host : AxiosPlatform) (base : Option String) (op : Operation) (args : Value)
    (w : W) (given : first_missing op.required args ≡ none) where
  -- With all required parameters, a client with nothing configured but its base path, and without
  -- options, creates for an operation without a content type a request with the operation's method
  -- and no header and no data.
  pub create_args-bodiless :
      op.content_type ≡ none
      → create_args host (some (bare_axios base)) op args end w ≡ (
        ok (record {
          url =
              path_string host
                (fill_path host op.replaced args op.path)
                (query_object op.query args end);
          options = field "method" (string op.method) (field "headers" (object end) end);
        }),
        w,
      )
  unfolding create_args set_api_key_to_object secret_function with_data spread set_field
  create_args-bodiless no_kind =
      rw (assert_params-eq-checked op.function op.required args, given, no_kind)

  -- For a client with a configuration that has nothing but a base path, without options for the
  -- request, with all required parameters, and for an operation with a JSON content type: the content
  -- type is the only header, and the data is a body that is a text as it is, the JSON of an empty
  -- object for an omitted body, and the JSON of any other body. The URL and the method are those of the
  -- operation, and nothing else is done.
  pub create_args-json :
      (kind : String)
      → op.content_type ≡ some kind
      → AxiosMime.is_json_mime (some kind) ≡ true
      → create_args host (some (bare_axios base)) op args end w ≡ (
        ok (record {
          url =
              path_string host
                (fill_path host op.replaced args op.path)
                (query_object op.query args end);
          options = field "method" (string op.method) (
              field "headers"
                (object (field "Content-Type" (string kind) end))
                (field "data" (json_data host (get args "body")) end));
        }),
        w,
      )
  unfolding create_args set_api_key_to_object secret_function with_data spread set_field
  create_args-json kind has_kind json = rw (
    assert_params-eq-checked op.function op.required args,
    given,
    has_kind,
    serialize_data_if_needed-json host (get args "body") kind json,
  )

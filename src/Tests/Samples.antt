-- ===== src/Tests/Samples.antt =====
-- A platform that answers every request and logs its URL, one that answers none, and the client and
-- the objects that the examples use.
use pipeline_operator.Prelude.{String, Option, none, some, List, ◌∷◌}
use pipeline_operator.Value.{Value, string, date, array, object, nil, cons, end, field}
use pipeline_operator.Errors.{Response, ok, throw, error_object}
use pipeline_operator.Runtime.Types.{Middleware, Platform}
use pipeline_operator.Client.{Parameters}

abbrev pub Log : Type 0
Log = List String

abbrev pub created : Response
created = record { status = 201; content_type = some "application/json"; body = "{}" }

abbrev pub not_found : Response
not_found = record { status = 404; content_type = none; body = "" }

abbrev pub read_text : Value → Option String
read_text (string iso) = some iso
read_text (date iso) = some iso
read_text _ = none

abbrev pub run_json : Value
run_json = object (
    field "apiVersion" (string "pipeline.1eedaegon.github.io/v1") (
      field "kind" (string "Run") (
        field "status"
          (object (
            field "JobStates"
              (array (
                cons
                  (object (field "name" (string "train") (field "jobState" (string "Running") end)))
                  nil))
              (field "createdDate" (string "2024-05-01T00:00:00.000Z") end)))
          end)))

abbrev pub host : Platform Log
host = record {
  fetch = λ url init log. (ok created, url ∷ log);
  encode_uri_component = λ s. s;
  json_stringify = λ v. string "json";
  json_parse = λ s. some run_json;
  parse_date = read_text;
}

abbrev pub missing_host : Platform Log
missing_host = record host { fetch = λ url init log. (ok not_found, url ∷ log) }

abbrev pub down_host : Platform Log
down_host = record host {
  fetch = λ url init log. (throw (error_object "TypeError: fetch failed"), url ∷ log);
}

abbrev pub parameters : Parameters
parameters = record {
  name = some "train";
  body = run_json;
  dry_run = some "All";
  field_validation = none;
}

abbrev pub unnamed : Parameters
unnamed = record parameters { name = none }

-- A middleware that logs its name before the request and after it.
abbrev pub noting : String → Middleware Log
noting name = record {
  pre = some (λ params log. (ok none, name ∷ log));
  post = some (λ params response log. (ok none, name ∷ log));
  on_error = none;
}

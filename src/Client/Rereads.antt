-- ===== src/Client/Rereads.antt =====
-- A run that was read can be sent back.
use pipeline_operator.Prelude.{String, ◌≡◌, ap, true, false, Option, some}
use pipeline_operator.Value.{Value, is_nullish, dates_valid}
use pipeline_operator.Errors.{Response, ok}
use pipeline_operator.Models.Codec.{from_json}
use pipeline_operator.Models.Codec.Laws.{ReadsOwnText}
use pipeline_operator.Models.Run.{run}
use pipeline_operator.Models.Inverses.Run.{run-Inverts}
use pipeline_operator.Runtime.Types.{absent, Platform}
use pipeline_operator.Runtime.Api.{new_api}
use pipeline_operator.Client.{Parameters, value, json_content, replace}
use pipeline_operator.Client.Runs.{replace_namespaced_run_raw}
use pipeline_operator.Client.Laws.{bare}
use pipeline_operator.Client.Sends.{answer, dry_and_validated, replace_with-answer}

module _ {W : Type 0} (host : Platform W) (base : Option String) where
  -- What a response holds as a run, when it is not `null` and has no invalid date, is accepted as
  -- the body of a replacement: with a name, one PUT is sent, of JSON that is read as the same run.
  -- The platform encodes the empty text as itself, and reads the text of a date as that date.
  pub replace_namespaced_run-value :
      (raw : Response) (json v : Value) (name : String) (p : Parameters) (w w' : W)
      → host.encode_uri_component "" ≡ ""
      → ReadsOwnText host.parse_date
      → host.json_parse raw.body ≡ some json
      → value host (record { raw = raw; model = run host.parse_date }) w ≡ (ok v, w')
      → dates_valid v ≡ true
      → is_nullish v ≡ false
      → p.name ≡ some name
      → p.body ≡ v
      → (u : Value) × (replace_namespaced_run_raw host (new_api (bare base)) absent p w'
          ≡ answer host base "PUT"
              (replace "{name}"
                (host.encode_uri_component name)
                "/apis/pipeline.1eedaegon.github.io/v1/namespaces/{namespace}/runs/{name}")
              json_content
              (dry_and_validated p)
              u
              (run host.parse_date)
              w')
        × (from_json (run host.parse_date) u ≡ ok v)
  unfolding value replace_namespaced_run_raw
  replace_namespaced_run-value raw json v name p w w' empty own parsed was valid there named same =
      let decoded : from_json (run host.parse_date) json ≡ ok v =
        ap (λ r. r.0) (rw (parsed, value) at was) in
      let (u, written, again) = run-Inverts host.parse_date own json v decoded valid in
      (
        u,
        replace_with-answer host base "replacePipeline1eedaegonGithubIoV1NamespacedRun"
            "/apis/pipeline.1eedaegon.github.io/v1/namespaces/{namespace}/runs/{name}"
            (run host.parse_date) (run host.parse_date) p w' empty name u named (rw same there)
            (rw same written),
        again,
      )

-- ===== src/Lib.antt =====
-- Verification of pipeline-operator: the TypeScript clients of its API, and the jobs of runs in the
-- operator.
--
-- pipeline-operator is a Kubernetes operator with three kinds of objects, pipelines, runs and
-- tasks. Its repository holds the operator, in Go, and two clients of the API for TypeScript, that
-- a generator wrote from the API description: one over `fetch` (generated/sdk/ts-fetch) and one
-- over axios (generated/sdk/ts-axios). This library is about both clients, and about how the
-- operator creates, orders and suspends the jobs of runs and finds the states of jobs and runs.
--
-- A method of the client checks its parameters, encodes its body with the `ToJSON` function of a
-- model, and hands path, query, headers and body to `BaseAPI.request`. That puts together the URL
-- and the init object (`createFetchParams`), runs the middleware around `fetch` (`fetchApi`), and
-- gives back the response or throws. `value()` of the response reads its JSON with the `FromJSON`
-- function of a model. On the other side the operator finds the state of each Kubernetes job of a
-- run, decides whether the job is suspended, and sums the states up in the status of the run.
--
-- - Value, Errors, Exec: JavaScript values, what is thrown, and asynchronous code as a function
--   from a world to a result and the next world. The world is a parameter: it stands for whatever
--   `fetch`, the middleware and the callbacks of the user read and change. `await` is sequencing;
--   one call is one thread of control, and interleavings with other calls happen inside the
--   actions of the world.
-- - Runtime: generated/sdk/ts-fetch/runtime.ts. Query is `querystring`, Mime is `isJsonMime`,
--   Configuration the getters of `Configuration`, Headers the header objects, and Api the class
--   `BaseAPI`: `request`, `create_fetch_params`, `fetch_api` with its three loops over the
--   middleware (`run_pre`, `run_on_error`, `run_post`), and `with_middleware`.
-- - Models: generated/sdk/ts-fetch/models. Each of its 42 files is a table of properties, with
--   the same four functions over it, which are `from_json`, `to_json` and `instance_of` of
--   Models/Codec. Models/Inverses has the inverse law of each table of metadata, pipelines, runs
--   and tasks.
-- - Types: the types of TypeScript, when a value has one (`conforms`), and the rules by which a
--   table of properties reads values of one interface as values of another (Types/Decoding).
--   Axios/Interfaces has the interfaces of generated/sdk/ts-axios/api.ts, Models/Interfaces those
--   of the model files, and Models/Typing applies the rules to each model.
-- - Client: generated/sdk/ts-fetch/apis/Pipeline1eedaegonGithubIoV1Api.ts. The 33 methods are
--   instances of seven templates (`create`, `delete_collection`, `delete`, `list`, `patch`,
--   `read`, `replace_with`); each method is a definition of its own in Client/Pipelines, Runs and
--   Tasks, with `_raw` for the form that gives the response.
-- - Axios: `isJsonMime` of generated/sdk/ts-axios/configuration.ts in Mime; of
--   generated/sdk/ts-axios/common.ts `setSearchParams` in Params, the other helpers in Requests.
--   Requests has the text that the 33 functions of the parameter creator in
--   generated/sdk/ts-axios/api.ts share (`create_args`), Calls that of the functions of Fp, of the
--   factory and of the class; Operations has what the 33 differ in, and each function by its name.
-- - Regex: regular expressions with derivatives, for the two content type tests, with what
--   matches described independently in Regex/Matching.
-- - Operator: job states (api/v1/run_types.go) in State; the state of a run and its counts, from
--   the loop of `updateRunStatus` (internal/controller/run_controller.go), in Status; and whether
--   `ensureKJobList` suspends a job, in Suspension; the texts of volumes, images and paths
--   (api/v1/run_types.go) in Texts and Paths, where a panic is a result. Cluster has the whole of
--   `ensureKJobList` over a store of Kubernetes jobs: a pass visits the jobs of a run in order,
--   creates what is missing and marks what is there, and stops where a job that is waited for has no
--   Kubernetes job. Cluster/Reachable has the steps of a cluster with any number of runs as a
--   relation: passes, work of Kubernetes on the pods of a job, and removals.
-- - Prelude: names and lemmas that the parts share. Tests: concrete platforms and values, at
--   which the theorems are applied.
--
-- Parameters. The platform is a record `Platform`: `fetch`, `encodeURIComponent`,
-- `JSON.stringify`, `JSON.parse` and `new Date`. Of these a few theorems assume that the empty
-- text is encoded as the empty text, and that the ISO text of a date is read as that date. The
-- axios client has a platform of its own, `AxiosPlatform`, with the parts of a `URL`, and the
-- axios instance is a record of its base URL and its `request`. The operator's `GoPlatform` has the
-- hash of a text and `ParseBool`.
--
-- Representation. A number is its text and a valid date its ISO text. An object is the list of its
-- fields in the order of `Object.keys`. An optional parameter is an `Option`, so that `null` and
-- `undefined` are one where the code tests `== null`. Forms, search parameters and blobs are
-- opaque bodies. All loops are over finite lists, so the definitions are structural and need no
-- fuel.
--
-- Not modelled: the helpers of the axios client for other kinds of authentication and the response
-- classes and helpers of the runtime, which nothing calls; the rest of the operator (volumes,
-- schedules, tasks and the failures of the API server in internal/controller, the rest of the
-- construction of runs, jobs and volumes in api/v1, the start of the process in cmd); the example
-- service; and the API description, charts and custom resources, which hold data only.
pub mod Prelude
pub mod Value
pub mod Types
pub mod Errors
pub mod Exec
pub mod Regex
pub mod Runtime
pub mod Models
pub mod Client
pub mod Axios
pub mod Operator
pub mod Tests

-- ===== src/Client/Runs.antt =====
-- The methods of Pipeline1eedaegonGithubIoV1Api.ts about runs: each asks for the raw
-- response, and the method of the shorter name reads its JSON.
use pipeline_operator.Value.{Value}
use pipeline_operator.Exec.{Exec, ◌>>=◌}
use pipeline_operator.Models.Run.{run, run_list}
use pipeline_operator.Models.Meta.{status}
use pipeline_operator.Runtime.Types.{InitOverrides, Platform}
use pipeline_operator.Runtime.Api.{BaseApi}
use pipeline_operator.Client.{
  Parameters, ApiResponse, value, create, delete, delete_collection, list, patch, read,
  replace_with,
}

module _ {W : Type 0} (host : Platform W) (api : BaseApi W) (overrides : InitOverrides W) where
  unfoldable pub create_namespaced_run_raw : Parameters → Exec W ApiResponse
  unfolding create
  create_namespaced_run_raw p =
      create host api overrides "createPipeline1eedaegonGithubIoV1NamespacedRun"
        "/apis/pipeline.1eedaegon.github.io/v1/namespaces/{namespace}/runs" (run host.parse_date)
        (run host.parse_date) p

  unfoldable pub create_namespaced_run : Parameters → Exec W Value
  unfolding create_namespaced_run_raw value
  create_namespaced_run p = create_namespaced_run_raw p >>= value host

  unfoldable pub delete_collection_namespaced_run_raw : Exec W ApiResponse
  unfolding delete_collection
  delete_collection_namespaced_run_raw =
      delete_collection host api overrides
        "/apis/pipeline.1eedaegon.github.io/v1/namespaces/{namespace}/runs" status

  unfoldable pub delete_collection_namespaced_run : Exec W Value
  unfolding delete_collection_namespaced_run_raw value
  delete_collection_namespaced_run = delete_collection_namespaced_run_raw >>= value host

  unfoldable pub delete_namespaced_run_raw : Parameters → Exec W ApiResponse
  unfolding delete
  delete_namespaced_run_raw p =
      delete host api overrides "deletePipeline1eedaegonGithubIoV1NamespacedRun"
        "/apis/pipeline.1eedaegon.github.io/v1/namespaces/{namespace}/runs/{name}" status p

  unfoldable pub delete_namespaced_run : Parameters → Exec W Value
  unfolding delete_namespaced_run_raw value
  delete_namespaced_run p = delete_namespaced_run_raw p >>= value host

  unfoldable pub list_namespaced_run_raw : Exec W ApiResponse
  unfolding list
  list_namespaced_run_raw =
      list host api overrides "/apis/pipeline.1eedaegon.github.io/v1/namespaces/{namespace}/runs"
        (run_list host.parse_date)

  unfoldable pub list_namespaced_run : Exec W Value
  unfolding list_namespaced_run_raw value
  list_namespaced_run = list_namespaced_run_raw >>= value host

  unfoldable pub list_run_for_all_namespaces_raw : Exec W ApiResponse
  unfolding list
  list_run_for_all_namespaces_raw =
      list host api overrides "/apis/pipeline.1eedaegon.github.io/v1/runs"
        (run_list host.parse_date)

  unfoldable pub list_run_for_all_namespaces : Exec W Value
  unfolding list_run_for_all_namespaces_raw value
  list_run_for_all_namespaces = list_run_for_all_namespaces_raw >>= value host

  unfoldable pub patch_namespaced_run_raw : Parameters → Exec W ApiResponse
  unfolding patch
  patch_namespaced_run_raw p =
      patch host api overrides "patchPipeline1eedaegonGithubIoV1NamespacedRun"
        "/apis/pipeline.1eedaegon.github.io/v1/namespaces/{namespace}/runs/{name}"
        (run host.parse_date) p

  unfoldable pub patch_namespaced_run : Parameters → Exec W Value
  unfolding patch_namespaced_run_raw value
  patch_namespaced_run p = patch_namespaced_run_raw p >>= value host

  unfoldable pub patch_namespaced_run_status_raw : Parameters → Exec W ApiResponse
  unfolding patch
  patch_namespaced_run_status_raw p =
      patch host api overrides "patchPipeline1eedaegonGithubIoV1NamespacedRunStatus"
        "/apis/pipeline.1eedaegon.github.io/v1/namespaces/{namespace}/runs/{name}/status"
        (run host.parse_date) p

  unfoldable pub patch_namespaced_run_status : Parameters → Exec W Value
  unfolding patch_namespaced_run_status_raw value
  patch_namespaced_run_status p = patch_namespaced_run_status_raw p >>= value host

  unfoldable pub read_namespaced_run_raw : Parameters → Exec W ApiResponse
  unfolding read
  read_namespaced_run_raw p =
      read host api overrides "readPipeline1eedaegonGithubIoV1NamespacedRun"
        "/apis/pipeline.1eedaegon.github.io/v1/namespaces/{namespace}/runs/{name}"
        (run host.parse_date) p

  unfoldable pub read_namespaced_run : Parameters → Exec W Value
  unfolding read_namespaced_run_raw value
  read_namespaced_run p = read_namespaced_run_raw p >>= value host

  unfoldable pub read_namespaced_run_status_raw : Parameters → Exec W ApiResponse
  unfolding read
  read_namespaced_run_status_raw p =
      read host api overrides "readPipeline1eedaegonGithubIoV1NamespacedRunStatus"
        "/apis/pipeline.1eedaegon.github.io/v1/namespaces/{namespace}/runs/{name}/status"
        (run host.parse_date) p

  unfoldable pub read_namespaced_run_status : Parameters → Exec W Value
  unfolding read_namespaced_run_status_raw value
  read_namespaced_run_status p = read_namespaced_run_status_raw p >>= value host

  unfoldable pub replace_namespaced_run_raw : Parameters → Exec W ApiResponse
  unfolding replace_with
  replace_namespaced_run_raw p =
      replace_with host api overrides "replacePipeline1eedaegonGithubIoV1NamespacedRun"
        "/apis/pipeline.1eedaegon.github.io/v1/namespaces/{namespace}/runs/{name}"
        (run host.parse_date) (run host.parse_date) p

  unfoldable pub replace_namespaced_run : Parameters → Exec W Value
  unfolding replace_namespaced_run_raw value
  replace_namespaced_run p = replace_namespaced_run_raw p >>= value host

  unfoldable pub replace_namespaced_run_status_raw : Parameters → Exec W ApiResponse
  unfolding replace_with
  replace_namespaced_run_status_raw p =
      replace_with host api overrides "replacePipeline1eedaegonGithubIoV1NamespacedRunStatus"
        "/apis/pipeline.1eedaegon.github.io/v1/namespaces/{namespace}/runs/{name}/status"
        (run host.parse_date) (run host.parse_date) p

  unfoldable pub replace_namespaced_run_status : Parameters → Exec W Value
  unfolding replace_namespaced_run_status_raw value
  replace_namespaced_run_status p = replace_namespaced_run_status_raw p >>= value host

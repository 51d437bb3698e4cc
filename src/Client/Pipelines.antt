-- ===== src/Client/Pipelines.antt =====
-- The methods of Pipeline1eedaegonGithubIoV1Api.ts about pipelines: each asks for the raw
-- response, and the method of the shorter name reads its JSON.
use pipeline_operator.Value.{Value}
use pipeline_operator.Exec.{Exec, ◌>>=◌}
use pipeline_operator.Models.Pipeline.{pipeline, pipeline_list}
use pipeline_operator.Models.Meta.{status}
use pipeline_operator.Runtime.Types.{InitOverrides, Platform}
use pipeline_operator.Runtime.Api.{BaseApi}
use pipeline_operator.Client.{
  Parameters, ApiResponse, value, create, delete, delete_collection, list, patch, read,
  replace_with,
}

module _ {W : Type 0} (host : Platform W) (api : BaseApi W) (overrides : InitOverrides W) where
  unfoldable pub create_namespaced_pipeline_raw : Parameters → Exec W ApiResponse
  unfolding create
  create_namespaced_pipeline_raw p =
      create host api overrides "createPipeline1eedaegonGithubIoV1NamespacedPipeline"
        "/apis/pipeline.1eedaegon.github.io/v1/namespaces/{namespace}/pipelines"
        (pipeline host.parse_date) (pipeline host.parse_date) p

  unfoldable pub create_namespaced_pipeline : Parameters → Exec W Value
  unfolding create_namespaced_pipeline_raw value
  create_namespaced_pipeline p = create_namespaced_pipeline_raw p >>= value host

  unfoldable pub delete_collection_namespaced_pipeline_raw : Exec W ApiResponse
  unfolding delete_collection
  delete_collection_namespaced_pipeline_raw =
      delete_collection host api overrides
        "/apis/pipeline.1eedaegon.github.io/v1/namespaces/{namespace}/pipelines" status

  unfoldable pub delete_collection_namespaced_pipeline : Exec W Value
  unfolding delete_collection_namespaced_pipeline_raw value
  delete_collection_namespaced_pipeline = delete_collection_namespaced_pipeline_raw >>= value host

  unfoldable pub delete_namespaced_pipeline_raw : Parameters → Exec W ApiResponse
  unfolding delete
  delete_namespaced_pipeline_raw p =
      delete host api overrides "deletePipeline1eedaegonGithubIoV1NamespacedPipeline"
        "/apis/pipeline.1eedaegon.github.io/v1/namespaces/{namespace}/pipelines/{name}" status p

  unfoldable pub delete_namespaced_pipeline : Parameters → Exec W Value
  unfolding delete_namespaced_pipeline_raw value
  delete_namespaced_pipeline p = delete_namespaced_pipeline_raw p >>= value host

  unfoldable pub list_namespaced_pipeline_raw : Exec W ApiResponse
  unfolding list
  list_namespaced_pipeline_raw =
      list host api overrides
        "/apis/pipeline.1eedaegon.github.io/v1/namespaces/{namespace}/pipelines"
        (pipeline_list host.parse_date)

  unfoldable pub list_namespaced_pipeline : Exec W Value
  unfolding list_namespaced_pipeline_raw value
  list_namespaced_pipeline = list_namespaced_pipeline_raw >>= value host

  unfoldable pub list_pipeline_for_all_namespaces_raw : Exec W ApiResponse
  unfolding list
  list_pipeline_for_all_namespaces_raw =
      list host api overrides "/apis/pipeline.1eedaegon.github.io/v1/pipelines"
        (pipeline_list host.parse_date)

  unfoldable pub list_pipeline_for_all_namespaces : Exec W Value
  unfolding list_pipeline_for_all_namespaces_raw value
  list_pipeline_for_all_namespaces = list_pipeline_for_all_namespaces_raw >>= value host

  unfoldable pub patch_namespaced_pipeline_raw : Parameters → Exec W ApiResponse
  unfolding patch
  patch_namespaced_pipeline_raw p =
      patch host api overrides "patchPipeline1eedaegonGithubIoV1NamespacedPipeline"
        "/apis/pipeline.1eedaegon.github.io/v1/namespaces/{namespace}/pipelines/{name}"
        (pipeline host.parse_date) p

  unfoldable pub patch_namespaced_pipeline : Parameters → Exec W Value
  unfolding patch_namespaced_pipeline_raw value
  patch_namespaced_pipeline p = patch_namespaced_pipeline_raw p >>= value host

  unfoldable pub patch_namespaced_pipeline_status_raw : Parameters → Exec W ApiResponse
  unfolding patch
  patch_namespaced_pipeline_status_raw p =
      patch host api overrides "patchPipeline1eedaegonGithubIoV1NamespacedPipelineStatus"
        "/apis/pipeline.1eedaegon.github.io/v1/namespaces/{namespace}/pipelines/{name}/status"
        (pipeline host.parse_date) p

  unfoldable pub patch_namespaced_pipeline_status : Parameters → Exec W Value
  unfolding patch_namespaced_pipeline_status_raw value
  patch_namespaced_pipeline_status p = patch_namespaced_pipeline_status_raw p >>= value host

  unfoldable pub read_namespaced_pipeline_raw : Parameters → Exec W ApiResponse
  unfolding read
  read_namespaced_pipeline_raw p =
      read host api overrides "readPipeline1eedaegonGithubIoV1NamespacedPipeline"
        "/apis/pipeline.1eedaegon.github.io/v1/namespaces/{namespace}/pipelines/{name}"
        (pipeline host.parse_date) p

  unfoldable pub read_namespaced_pipeline : Parameters → Exec W Value
  unfolding read_namespaced_pipeline_raw value
  read_namespaced_pipeline p = read_namespaced_pipeline_raw p >>= value host

  unfoldable pub read_namespaced_pipeline_status_raw : Parameters → Exec W ApiResponse
  unfolding read
  read_namespaced_pipeline_status_raw p =
      read host api overrides "readPipeline1eedaegonGithubIoV1NamespacedPipelineStatus"
        "/apis/pipeline.1eedaegon.github.io/v1/namespaces/{namespace}/pipelines/{name}/status"
        (pipeline host.parse_date) p

  unfoldable pub read_namespaced_pipeline_status : Parameters → Exec W Value
  unfolding read_namespaced_pipeline_status_raw value
  read_namespaced_pipeline_status p = read_namespaced_pipeline_status_raw p >>= value host

  unfoldable pub replace_namespaced_pipeline_raw : Parameters → Exec W ApiResponse
  unfolding replace_with
  replace_namespaced_pipeline_raw p =
      replace_with host api overrides "replacePipeline1eedaegonGithubIoV1NamespacedPipeline"
        "/apis/pipeline.1eedaegon.github.io/v1/namespaces/{namespace}/pipelines/{name}"
        (pipeline host.parse_date) (pipeline host.parse_date) p

  unfoldable pub replace_namespaced_pipeline : Parameters → Exec W Value
  unfolding replace_namespaced_pipeline_raw value
  replace_namespaced_pipeline p = replace_namespaced_pipeline_raw p >>= value host

  unfoldable pub replace_namespaced_pipeline_status_raw : Parameters → Exec W ApiResponse
  unfolding replace_with
  replace_namespaced_pipeline_status_raw p =
      replace_with host api overrides "replacePipeline1eedaegonGithubIoV1NamespacedPipelineStatus"
        "/apis/pipeline.1eedaegon.github.io/v1/namespaces/{namespace}/pipelines/{name}/status"
        (pipeline host.parse_date) (pipeline host.parse_date) p

  unfoldable pub replace_namespaced_pipeline_status : Parameters → Exec W Value
  unfolding replace_namespaced_pipeline_status_raw value
  replace_namespaced_pipeline_status p = replace_namespaced_pipeline_status_raw p >>= value host

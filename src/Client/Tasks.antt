-- ===== src/Client/Tasks.antt =====
-- The methods of Pipeline1eedaegonGithubIoV1Api.ts about tasks: each asks for the raw
-- response, and the method of the shorter name reads its JSON.
use pipeline_operator.Value.{Value}
use pipeline_operator.Exec.{Exec, ◌>>=◌}
use pipeline_operator.Models.Task.{task, task_list}
use pipeline_operator.Models.Meta.{status}
use pipeline_operator.Runtime.Types.{InitOverrides, Platform}
use pipeline_operator.Runtime.Api.{BaseApi}
use pipeline_operator.Client.{
  Parameters, ApiResponse, value, create, delete, delete_collection, list, patch, read,
  replace_with,
}

module _ {W : Type 0} (host : Platform W) (api : BaseApi W) (overrides : InitOverrides W) where
  unfoldable pub create_namespaced_task_raw : Parameters → Exec W ApiResponse
  unfolding create
  create_namespaced_task_raw p =
      create host api overrides "createPipeline1eedaegonGithubIoV1NamespacedTask"
        "/apis/pipeline.1eedaegon.github.io/v1/namespaces/{namespace}/tasks" (task host.parse_date)
        (task host.parse_date) p

  unfoldable pub create_namespaced_task : Parameters → Exec W Value
  unfolding create_namespaced_task_raw value
  create_namespaced_task p = create_namespaced_task_raw p >>= value host

  unfoldable pub delete_collection_namespaced_task_raw : Exec W ApiResponse
  unfolding delete_collection
  delete_collection_namespaced_task_raw =
      delete_collection host api overrides
        "/apis/pipeline.1eedaegon.github.io/v1/namespaces/{namespace}/tasks" status

  unfoldable pub delete_collection_namespaced_task : Exec W Value
  unfolding delete_collection_namespaced_task_raw value
  delete_collection_namespaced_task = delete_collection_namespaced_task_raw >>= value host

  unfoldable pub delete_namespaced_task_raw : Parameters → Exec W ApiResponse
  unfolding delete
  delete_namespaced_task_raw p =
      delete host api overrides "deletePipeline1eedaegonGithubIoV1NamespacedTask"
        "/apis/pipeline.1eedaegon.github.io/v1/namespaces/{namespace}/tasks/{name}" status p

  unfoldable pub delete_namespaced_task : Parameters → Exec W Value
  unfolding delete_namespaced_task_raw value
  delete_namespaced_task p = delete_namespaced_task_raw p >>= value host

  unfoldable pub list_namespaced_task_raw : Exec W ApiResponse
  unfolding list
  list_namespaced_task_raw =
      list host api overrides "/apis/pipeline.1eedaegon.github.io/v1/namespaces/{namespace}/tasks"
        (task_list host.parse_date)

  unfoldable pub list_namespaced_task : Exec W Value
  unfolding list_namespaced_task_raw value
  list_namespaced_task = list_namespaced_task_raw >>= value host

  unfoldable pub list_task_for_all_namespaces_raw : Exec W ApiResponse
  unfolding list
  list_task_for_all_namespaces_raw =
      list host api overrides "/apis/pipeline.1eedaegon.github.io/v1/tasks"
        (task_list host.parse_date)

  unfoldable pub list_task_for_all_namespaces : Exec W Value
  unfolding list_task_for_all_namespaces_raw value
  list_task_for_all_namespaces = list_task_for_all_namespaces_raw >>= value host

  unfoldable pub patch_namespaced_task_raw : Parameters → Exec W ApiResponse
  unfolding patch
  patch_namespaced_task_raw p =
      patch host api overrides "patchPipeline1eedaegonGithubIoV1NamespacedTask"
        "/apis/pipeline.1eedaegon.github.io/v1/namespaces/{namespace}/tasks/{name}"
        (task host.parse_date) p

  unfoldable pub patch_namespaced_task : Parameters → Exec W Value
  unfolding patch_namespaced_task_raw value
  patch_namespaced_task p = patch_namespaced_task_raw p >>= value host

  unfoldable pub patch_namespaced_task_status_raw : Parameters → Exec W ApiResponse
  unfolding patch
  patch_namespaced_task_status_raw p =
      patch host api overrides "patchPipeline1eedaegonGithubIoV1NamespacedTaskStatus"
        "/apis/pipeline.1eedaegon.github.io/v1/namespaces/{namespace}/tasks/{name}/status"
        (task host.parse_date) p

  unfoldable pub patch_namespaced_task_status : Parameters → Exec W Value
  unfolding patch_namespaced_task_status_raw value
  patch_namespaced_task_status p = patch_namespaced_task_status_raw p >>= value host

  unfoldable pub read_namespaced_task_raw : Parameters → Exec W ApiResponse
  unfolding read
  read_namespaced_task_raw p =
      read host api overrides "readPipeline1eedaegonGithubIoV1NamespacedTask"
        "/apis/pipeline.1eedaegon.github.io/v1/namespaces/{namespace}/tasks/{name}"
        (task host.parse_date) p

  unfoldable pub read_namespaced_task : Parameters → Exec W Value
  unfolding read_namespaced_task_raw value
  read_namespaced_task p = read_namespaced_task_raw p >>= value host

  unfoldable pub read_namespaced_task_status_raw : Parameters → Exec W ApiResponse
  unfolding read
  read_namespaced_task_status_raw p =
      read host api overrides "readPipeline1eedaegonGithubIoV1NamespacedTaskStatus"
        "/apis/pipeline.1eedaegon.github.io/v1/namespaces/{namespace}/tasks/{name}/status"
        (task host.parse_date) p

  unfoldable pub read_namespaced_task_status : Parameters → Exec W Value
  unfolding read_namespaced_task_status_raw value
  read_namespaced_task_status p = read_namespaced_task_status_raw p >>= value host

  unfoldable pub replace_namespaced_task_raw : Parameters → Exec W ApiResponse
  unfolding replace_with
  replace_namespaced_task_raw p =
      replace_with host api overrides "replacePipeline1eedaegonGithubIoV1NamespacedTask"
        "/apis/pipeline.1eedaegon.github.io/v1/namespaces/{namespace}/tasks/{name}"
        (task host.parse_date) (task host.parse_date) p

  unfoldable pub replace_namespaced_task : Parameters → Exec W Value
  unfolding replace_namespaced_task_raw value
  replace_namespaced_task p = replace_namespaced_task_raw p >>= value host

  unfoldable pub replace_namespaced_task_status_raw : Parameters → Exec W ApiResponse
  unfolding replace_with
  replace_namespaced_task_status_raw p =
      replace_with host api overrides "replacePipeline1eedaegonGithubIoV1NamespacedTaskStatus"
        "/apis/pipeline.1eedaegon.github.io/v1/namespaces/{namespace}/tasks/{name}/status"
        (task host.parse_date) (task host.parse_date) p

  unfoldable pub replace_namespaced_task_status : Parameters → Exec W Value
  unfolding replace_namespaced_task_status_raw value
  replace_namespaced_task_status p = replace_namespaced_task_status_raw p >>= value host

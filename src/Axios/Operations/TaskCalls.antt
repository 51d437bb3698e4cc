-- ===== src/Axios/Operations/TaskCalls.antt =====
-- The functions on tasks of `Pipeline1eedaegonGithubIoV1ApiFp`, each with the method of the class
-- `Pipeline1eedaegonGithubIoV1Api` that calls it, generated/sdk/ts-axios/api.ts.
use pipeline_operator.Prelude.{String, Option}
use pipeline_operator.Value.{Value, Fields}
use pipeline_operator.Exec.{Exec}
use pipeline_operator.Axios.Requests.{AxiosConfiguration, AxiosPlatform}
use pipeline_operator.Axios.Calls.{AxiosInstance, AxiosApi, fp_request, api_request}
use pipeline_operator.Axios.Operations.Tasks.{
  create_namespaced_task_op, delete_collection_namespaced_task_op, delete_namespaced_task_op,
  list_namespaced_task_op, list_task_for_all_namespaces_op, patch_namespaced_task_op,
  patch_namespaced_task_status_op, read_namespaced_task_op, read_namespaced_task_status_op,
  replace_namespaced_task_op, replace_namespaced_task_status_op,
}

module _ {W : Type 0} (host : AxiosPlatform) (global : AxiosInstance W) where
  unfoldable pub create_namespaced_task_request :
      Option (AxiosConfiguration W)
      → Value
      → Fields
      → Exec W (Option (AxiosInstance W) → Option String → Exec W Value)
  unfolding fp_request
  create_namespaced_task_request configuration =
      fp_request host global configuration create_namespaced_task_op

  unfoldable pub create_namespaced_task_call : AxiosApi W → Value → Fields → Exec W Value
  unfolding api_request
  create_namespaced_task_call api = api_request host global api create_namespaced_task_op

  unfoldable pub delete_collection_namespaced_task_request :
      Option (AxiosConfiguration W)
      → Value
      → Fields
      → Exec W (Option (AxiosInstance W) → Option String → Exec W Value)
  unfolding fp_request
  delete_collection_namespaced_task_request configuration =
      fp_request host global configuration delete_collection_namespaced_task_op

  unfoldable pub delete_collection_namespaced_task_call : AxiosApi W → Value → Fields → Exec W Value
  unfolding api_request
  delete_collection_namespaced_task_call api =
      api_request host global api delete_collection_namespaced_task_op

  unfoldable pub delete_namespaced_task_request :
      Option (AxiosConfiguration W)
      → Value
      → Fields
      → Exec W (Option (AxiosInstance W) → Option String → Exec W Value)
  unfolding fp_request
  delete_namespaced_task_request configuration =
      fp_request host global configuration delete_namespaced_task_op

  unfoldable pub delete_namespaced_task_call : AxiosApi W → Value → Fields → Exec W Value
  unfolding api_request
  delete_namespaced_task_call api = api_request host global api delete_namespaced_task_op

  unfoldable pub list_namespaced_task_request :
      Option (AxiosConfiguration W)
      → Value
      → Fields
      → Exec W (Option (AxiosInstance W) → Option String → Exec W Value)
  unfolding fp_request
  list_namespaced_task_request configuration =
      fp_request host global configuration list_namespaced_task_op

  unfoldable pub list_namespaced_task_call : AxiosApi W → Value → Fields → Exec W Value
  unfolding api_request
  list_namespaced_task_call api = api_request host global api list_namespaced_task_op

  unfoldable pub list_task_for_all_namespaces_request :
      Option (AxiosConfiguration W)
      → Value
      → Fields
      → Exec W (Option (AxiosInstance W) → Option String → Exec W Value)
  unfolding fp_request
  list_task_for_all_namespaces_request configuration =
      fp_request host global configuration list_task_for_all_namespaces_op

  unfoldable pub list_task_for_all_namespaces_call : AxiosApi W → Value → Fields → Exec W Value
  unfolding api_request
  list_task_for_all_namespaces_call api =
      api_request host global api list_task_for_all_namespaces_op

  unfoldable pub patch_namespaced_task_request :
      Option (AxiosConfiguration W)
      → Value
      → Fields
      → Exec W (Option (AxiosInstance W) → Option String → Exec W Value)
  unfolding fp_request
  patch_namespaced_task_request configuration =
      fp_request host global configuration patch_namespaced_task_op

  unfoldable pub patch_namespaced_task_call : AxiosApi W → Value → Fields → Exec W Value
  unfolding api_request
  patch_namespaced_task_call api = api_request host global api patch_namespaced_task_op

  unfoldable pub patch_namespaced_task_status_request :
      Option (AxiosConfiguration W)
      → Value
      → Fields
      → Exec W (Option (AxiosInstance W) → Option String → Exec W Value)
  unfolding fp_request
  patch_namespaced_task_status_request configuration =
      fp_request host global configuration patch_namespaced_task_status_op

  unfoldable pub patch_namespaced_task_status_call : AxiosApi W → Value → Fields → Exec W Value
  unfolding api_request
  patch_namespaced_task_status_call api =
      api_request host global api patch_namespaced_task_status_op

  unfoldable pub read_namespaced_task_request :
      Option (AxiosConfiguration W)
      → Value
      → Fields
      → Exec W (Option (AxiosInstance W) → Option String → Exec W Value)
  unfolding fp_request
  read_namespaced_task_request configuration =
      fp_request host global configuration read_namespaced_task_op

  unfoldable pub read_namespaced_task_call : AxiosApi W → Value → Fields → Exec W Value
  unfolding api_request
  read_namespaced_task_call api = api_request host global api read_namespaced_task_op

  unfoldable pub read_namespaced_task_status_request :
      Option (AxiosConfiguration W)
      → Value
      → Fields
      → Exec W (Option (AxiosInstance W) → Option String → Exec W Value)
  unfolding fp_request
  read_namespaced_task_status_request configuration =
      fp_request host global configuration read_namespaced_task_status_op

  unfoldable pub read_namespaced_task_status_call : AxiosApi W → Value → Fields → Exec W Value
  unfolding api_request
  read_namespaced_task_status_call api = api_request host global api read_namespaced_task_status_op

  unfoldable pub replace_namespaced_task_request :
      Option (AxiosConfiguration W)
      → Value
      → Fields
      → Exec W (Option (AxiosInstance W) → Option String → Exec W Value)
  unfolding fp_request
  replace_namespaced_task_request configuration =
      fp_request host global configuration replace_namespaced_task_op

  unfoldable pub replace_namespaced_task_call : AxiosApi W → Value → Fields → Exec W Value
  unfolding api_request
  replace_namespaced_task_call api = api_request host global api replace_namespaced_task_op

  unfoldable pub replace_namespaced_task_status_request :
      Option (AxiosConfiguration W)
      → Value
      → Fields
      → Exec W (Option (AxiosInstance W) → Option String → Exec W Value)
  unfolding fp_request
  replace_namespaced_task_status_request configuration =
      fp_request host global configuration replace_namespaced_task_status_op

  unfoldable pub replace_namespaced_task_status_call : AxiosApi W → Value → Fields → Exec W Value
  unfolding api_request
  replace_namespaced_task_status_call api =
      api_request host global api replace_namespaced_task_status_op

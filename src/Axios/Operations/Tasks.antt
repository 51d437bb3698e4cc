-- ===== src/Axios/Operations/Tasks.antt =====
-- The operations on tasks of `Pipeline1eedaegonGithubIoV1ApiAxiosParamCreator`,
-- generated/sdk/ts-axios/api.ts.
use pipeline_operator.Prelude.{none, some, [], ◌∷◌}
use pipeline_operator.Axios.Requests.{Operation}
use pipeline_operator.Axios.Operations.Queries.{
  change_query, delete_query, list_all_query, list_query, patch_query, read_query,
}

abbrev pub create_namespaced_task_op : Operation
create_namespaced_task_op = record {
  function = "createPipeline1eedaegonGithubIoV1NamespacedTask";
  required = "namespace" ∷ "body" ∷ [];
  path = "/apis/pipeline.1eedaegon.github.io/v1/namespaces/{namespace}/tasks";
  replaced = "namespace" ∷ [];
  method = "POST";
  query = change_query;
  content_type = some "application/json";
}

abbrev pub delete_collection_namespaced_task_op : Operation
delete_collection_namespaced_task_op = record {
  function = "deletePipeline1eedaegonGithubIoV1CollectionNamespacedTask";
  required = "namespace" ∷ [];
  path = "/apis/pipeline.1eedaegon.github.io/v1/namespaces/{namespace}/tasks";
  replaced = "namespace" ∷ [];
  method = "DELETE";
  query = list_query;
  content_type = none;
}

abbrev pub delete_namespaced_task_op : Operation
delete_namespaced_task_op = record {
  function = "deletePipeline1eedaegonGithubIoV1NamespacedTask";
  required = "name" ∷ "namespace" ∷ [];
  path = "/apis/pipeline.1eedaegon.github.io/v1/namespaces/{namespace}/tasks/{name}";
  replaced = "name" ∷ "namespace" ∷ [];
  method = "DELETE";
  query = delete_query;
  content_type = some "application/json";
}

abbrev pub list_namespaced_task_op : Operation
list_namespaced_task_op = record {
  function = "listPipeline1eedaegonGithubIoV1NamespacedTask";
  required = "namespace" ∷ [];
  path = "/apis/pipeline.1eedaegon.github.io/v1/namespaces/{namespace}/tasks";
  replaced = "namespace" ∷ [];
  method = "GET";
  query = list_query;
  content_type = none;
}

abbrev pub list_task_for_all_namespaces_op : Operation
list_task_for_all_namespaces_op = record {
  function = "listPipeline1eedaegonGithubIoV1TaskForAllNamespaces";
  required = [];
  path = "/apis/pipeline.1eedaegon.github.io/v1/tasks";
  replaced = [];
  method = "GET";
  query = list_all_query;
  content_type = none;
}

abbrev pub patch_namespaced_task_op : Operation
patch_namespaced_task_op = record {
  function = "patchPipeline1eedaegonGithubIoV1NamespacedTask";
  required = "name" ∷ "namespace" ∷ "body" ∷ [];
  path = "/apis/pipeline.1eedaegon.github.io/v1/namespaces/{namespace}/tasks/{name}";
  replaced = "name" ∷ "namespace" ∷ [];
  method = "PATCH";
  query = patch_query;
  content_type = some "application/json-patch+json";
}

abbrev pub patch_namespaced_task_status_op : Operation
patch_namespaced_task_status_op = record {
  function = "patchPipeline1eedaegonGithubIoV1NamespacedTaskStatus";
  required = "name" ∷ "namespace" ∷ "body" ∷ [];
  path = "/apis/pipeline.1eedaegon.github.io/v1/namespaces/{namespace}/tasks/{name}/status";
  replaced = "name" ∷ "namespace" ∷ [];
  method = "PATCH";
  query = patch_query;
  content_type = some "application/json-patch+json";
}

abbrev pub read_namespaced_task_op : Operation
read_namespaced_task_op = record {
  function = "readPipeline1eedaegonGithubIoV1NamespacedTask";
  required = "name" ∷ "namespace" ∷ [];
  path = "/apis/pipeline.1eedaegon.github.io/v1/namespaces/{namespace}/tasks/{name}";
  replaced = "name" ∷ "namespace" ∷ [];
  method = "GET";
  query = read_query;
  content_type = none;
}

abbrev pub read_namespaced_task_status_op : Operation
read_namespaced_task_status_op = record {
  function = "readPipeline1eedaegonGithubIoV1NamespacedTaskStatus";
  required = "name" ∷ "namespace" ∷ [];
  path = "/apis/pipeline.1eedaegon.github.io/v1/namespaces/{namespace}/tasks/{name}/status";
  replaced = "name" ∷ "namespace" ∷ [];
  method = "GET";
  query = read_query;
  content_type = none;
}

abbrev pub replace_namespaced_task_op : Operation
replace_namespaced_task_op = record {
  function = "replacePipeline1eedaegonGithubIoV1NamespacedTask";
  required = "name" ∷ "namespace" ∷ "body" ∷ [];
  path = "/apis/pipeline.1eedaegon.github.io/v1/namespaces/{namespace}/tasks/{name}";
  replaced = "name" ∷ "namespace" ∷ [];
  method = "PUT";
  query = change_query;
  content_type = some "application/json";
}

abbrev pub replace_namespaced_task_status_op : Operation
replace_namespaced_task_status_op = record {
  function = "replacePipeline1eedaegonGithubIoV1NamespacedTaskStatus";
  required = "name" ∷ "namespace" ∷ "body" ∷ [];
  path = "/apis/pipeline.1eedaegon.github.io/v1/namespaces/{namespace}/tasks/{name}/status";
  replaced = "name" ∷ "namespace" ∷ [];
  method = "PUT";
  query = change_query;
  content_type = some "application/json";
}

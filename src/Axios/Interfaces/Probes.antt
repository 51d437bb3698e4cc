-- ===== src/Axios/Interfaces/Probes.antt =====
-- The interfaces of the lifecycle and the probes of containers in
-- generated/sdk/ts-axios/api.ts.
use pipeline_operator.Types.{
  string_type, number_type, object_type, array_of, interface, must, may, Members, done, ◌⊕◌,
}

abbrev pub container_lifecycle_post_start_exec_interface : Members
container_lifecycle_post_start_exec_interface = may "command" (array_of string_type) ⊕ done

abbrev pub container_lifecycle_post_start_http_get_http_headers_inner_interface : Members
container_lifecycle_post_start_http_get_http_headers_inner_interface =
    must "name" string_type ⊕ must "value" string_type ⊕ done

abbrev pub container_lifecycle_post_start_http_get_interface : Members
container_lifecycle_post_start_http_get_interface =
    may "host" string_type
    ⊕ may "httpHeaders"
        (array_of (interface container_lifecycle_post_start_http_get_http_headers_inner_interface))
    ⊕ may "path" string_type
    ⊕ must "port" object_type
    ⊕ may "scheme" string_type
    ⊕ done

abbrev pub container_lifecycle_post_start_sleep_interface : Members
container_lifecycle_post_start_sleep_interface = must "seconds" number_type ⊕ done

abbrev pub container_lifecycle_post_start_tcp_socket_interface : Members
container_lifecycle_post_start_tcp_socket_interface =
    may "host" string_type ⊕ must "port" object_type ⊕ done

abbrev pub container_lifecycle_post_start_interface : Members
container_lifecycle_post_start_interface =
    may "exec" (interface container_lifecycle_post_start_exec_interface)
    ⊕ may "httpGet" (interface container_lifecycle_post_start_http_get_interface)
    ⊕ may "sleep" (interface container_lifecycle_post_start_sleep_interface)
    ⊕ may "tcpSocket" (interface container_lifecycle_post_start_tcp_socket_interface)
    ⊕ done

abbrev pub container_lifecycle_interface : Members
container_lifecycle_interface =
    may "postStart" (interface container_lifecycle_post_start_interface)
    ⊕ may "preStop" (interface container_lifecycle_post_start_interface)
    ⊕ done

abbrev pub container_liveness_probe_grpc_interface : Members
container_liveness_probe_grpc_interface = must "port" number_type ⊕ may "service" string_type ⊕ done

abbrev pub container_liveness_probe_interface : Members
container_liveness_probe_interface =
    may "exec" (interface container_lifecycle_post_start_exec_interface)
    ⊕ may "failureThreshold" number_type
    ⊕ may "grpc" (interface container_liveness_probe_grpc_interface)
    ⊕ may "httpGet" (interface container_lifecycle_post_start_http_get_interface)
    ⊕ may "initialDelaySeconds" number_type
    ⊕ may "periodSeconds" number_type
    ⊕ may "successThreshold" number_type
    ⊕ may "tcpSocket" (interface container_lifecycle_post_start_tcp_socket_interface)
    ⊕ may "terminationGracePeriodSeconds" number_type
    ⊕ may "timeoutSeconds" number_type
    ⊕ done

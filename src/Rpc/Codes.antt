-- ===== src/Rpc/Codes.antt =====
-- The error codes of rpc/errors.go and the tables that translate them: HTTP statuses, gRPC status
-- numbers (rpc/handler.go), gRPC status names (rpc/retry_interceptor.go) and JSON-RPC error codes
-- (rpc/jsonrpc_types.go).
pub mod Tables
use hyperway.Prelude.{ℕ, Option, none, some, List, [], ◌∷◌, if◌then◌else◌}
use hyperway.Prelude.Int.{ℤ, negsuc}
use hyperway.Prelude.Str.{Str, str, str_eq, lookup}

-- `type Code string`: any text is a code, and sixteen are named.
abbrev pub Code : Type 0
Code = Str

abbrev pub code_canceled : Code
code_canceled = str "canceled"

abbrev pub code_unknown : Code
code_unknown = str "unknown"

abbrev pub code_invalid_argument : Code
code_invalid_argument = str "invalid_argument"

abbrev pub code_deadline_exceeded : Code
code_deadline_exceeded = str "deadline_exceeded"

abbrev pub code_not_found : Code
code_not_found = str "not_found"

abbrev pub code_already_exists : Code
code_already_exists = str "already_exists"

abbrev pub code_permission_denied : Code
code_permission_denied = str "permission_denied"

abbrev pub code_resource_exhausted : Code
code_resource_exhausted = str "resource_exhausted"

abbrev pub code_failed_precondition : Code
code_failed_precondition = str "failed_precondition"

abbrev pub code_aborted : Code
code_aborted = str "aborted"

abbrev pub code_out_of_range : Code
code_out_of_range = str "out_of_range"

abbrev pub code_unimplemented : Code
code_unimplemented = str "unimplemented"

abbrev pub code_internal : Code
code_internal = str "internal"

abbrev pub code_unavailable : Code
code_unavailable = str "unavailable"

abbrev pub code_data_loss : Code
code_data_loss = str "data_loss"

abbrev pub code_unauthenticated : Code
code_unauthenticated = str "unauthenticated"

unfoldable pub http_status_code_map : List (Code × ℕ)
http_status_code_map =
    (code_canceled, 408)
    ∷ (code_unknown, 500)
    ∷ (code_invalid_argument, 400)
    ∷ (code_deadline_exceeded, 408)
    ∷ (code_not_found, 404)
    ∷ (code_already_exists, 409)
    ∷ (code_permission_denied, 403)
    ∷ (code_resource_exhausted, 429)
    ∷ (code_failed_precondition, 412)
    ∷ (code_aborted, 409)
    ∷ (code_out_of_range, 400)
    ∷ (code_unimplemented, 501)
    ∷ (code_internal, 500)
    ∷ (code_unavailable, 503)
    ∷ (code_data_loss, 500)
    ∷ (code_unauthenticated, 401)
    ∷ []

unfoldable pub grpc_status_code_map : List (Code × ℕ)
grpc_status_code_map =
    (code_canceled, 1)
    ∷ (code_unknown, 2)
    ∷ (code_invalid_argument, 3)
    ∷ (code_deadline_exceeded, 4)
    ∷ (code_not_found, 5)
    ∷ (code_already_exists, 6)
    ∷ (code_permission_denied, 7)
    ∷ (code_resource_exhausted, 8)
    ∷ (code_failed_precondition, 9)
    ∷ (code_aborted, 10)
    ∷ (code_out_of_range, 11)
    ∷ (code_unimplemented, 12)
    ∷ (code_internal, 13)
    ∷ (code_unavailable, 14)
    ∷ (code_data_loss, 15)
    ∷ (code_unauthenticated, 16)
    ∷ []

abbrev pub status_unknown : Str
status_unknown = str "UNKNOWN"

unfoldable pub code_to_status_map : List (Code × Str)
code_to_status_map =
    (code_canceled, str "CANCELED")
    ∷ (code_unknown, status_unknown)
    ∷ (code_invalid_argument, str "INVALID_ARGUMENT")
    ∷ (code_deadline_exceeded, str "DEADLINE_EXCEEDED")
    ∷ (code_not_found, str "NOT_FOUND")
    ∷ (code_already_exists, str "ALREADY_EXISTS")
    ∷ (code_permission_denied, str "PERMISSION_DENIED")
    ∷ (code_resource_exhausted, str "RESOURCE_EXHAUSTED")
    ∷ (code_failed_precondition, str "FAILED_PRECONDITION")
    ∷ (code_aborted, str "ABORTED")
    ∷ (code_out_of_range, str "OUT_OF_RANGE")
    ∷ (code_unimplemented, str "UNIMPLEMENTED")
    ∷ (code_internal, str "INTERNAL")
    ∷ (code_unavailable, str "UNAVAILABLE")
    ∷ (code_data_loss, str "DATA_LOSS")
    ∷ (code_unauthenticated, str "UNAUTHENTICATED")
    ∷ []

-- `if v, ok := m[k]; ok { return v }; return other`
abbrev pub or_default {ℓ} : {V : Type ℓ} → V → Option V → V
or_default other none = other
or_default other (some v) = v

unfoldable pub http_status_code : Code → ℕ
unfolding http_status_code_map lookup
http_status_code c = or_default 500 (lookup c http_status_code_map)

unfoldable pub grpc_status_code : Code → ℕ
unfolding grpc_status_code_map lookup
grpc_status_code c = or_default 2 (lookup c grpc_status_code_map)

abbrev pub jsonrpc_parse_error : ℤ
jsonrpc_parse_error = negsuc 32699

abbrev pub jsonrpc_invalid_request : ℤ
jsonrpc_invalid_request = negsuc 32599

abbrev pub jsonrpc_method_not_found : ℤ
jsonrpc_method_not_found = negsuc 32600

abbrev pub jsonrpc_invalid_params : ℤ
jsonrpc_invalid_params = negsuc 32601

abbrev pub jsonrpc_internal_error : ℤ
jsonrpc_internal_error = negsuc 32602

abbrev pub jsonrpc_server_error : ℤ
jsonrpc_server_error = negsuc 31999

-- The listed codes of the last case and the default have one answer.
unfoldable pub error_code_to_jsonrpc : Code → ℤ
error_code_to_jsonrpc code =
    if str_eq code code_invalid_argument
    then jsonrpc_invalid_params
    else if str_eq code code_not_found
    then jsonrpc_method_not_found
    else if str_eq code code_internal
    then jsonrpc_internal_error
    else if str_eq code code_unimplemented
    then jsonrpc_method_not_found
    else jsonrpc_server_error

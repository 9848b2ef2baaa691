-- ===== src/Rpc/JsonRpc.antt =====
-- rpc/jsonrpc_types.go and rpc/handler_jsonrpc.go: JSON-RPC 2.0 requests, single and in batches. A body
-- is what is encoded, not its text. The JSON library, the service's methods and the handler are
-- parameters; how a batch runs its requests at the same time is in Rpc/JsonRpc/Batch.
pub mod Batch
pub mod Single
use hyperway.Prelude.{
  ℕ, ◌≡◌, Bool, true, false, not, ◌&&◌, ◌||◌, Option, none, some, List, [], ◌∷◌, ◌++◌, ◌==◌, ltb,
  length, if◌then◌else◌,
}
use hyperway.Prelude.Int.{ℤ}
use hyperway.Prelude.Str.{Str, str, str_eq, contains, split}
use hyperway.Prelude.Str.Numbers.{itoa}
use hyperway.Http.{Writer, set_header, write_header, write}
use hyperway.Rpc.Codes.{
  jsonrpc_parse_error, jsonrpc_invalid_request, jsonrpc_method_not_found, jsonrpc_invalid_params,
  jsonrpc_internal_error, error_code_to_jsonrpc,
}
use hyperway.Rpc.Errors.{Details, Error, GoError, rpc, text, Outcome, done, failed}

-- The id of a request: nil, a text, a number, or another JSON value by identity.
pub data RequestId : Type 0 where
  absent : RequestId
  named : Str → RequestId
  numbered : ℤ → RequestId
  opaque_id : ℕ → RequestId

pub record JsonRpcRequest : Type 0 where
  pub jsonrpc : Str
  pub method : Str
  pub params : Str
  pub id : RequestId

pub record JsonRpcError : Type 0 where
  pub code : ℤ
  pub message : Str
  pub data' : Option Details

-- An empty result is left out, as an error that is nil.
pub record JsonRpcResponse : Type 0 where
  pub result : Str
  pub error : Option JsonRpcError
  pub id : RequestId

-- what a response writer encodes
pub data JsonBody : Type 0 where
  one : JsonRpcResponse → JsonBody
  many : List JsonRpcResponse → JsonBody

abbrev pub is_absent : RequestId → Bool
is_absent absent = true
is_absent _ = false

abbrev pub is_notification : JsonRpcRequest → Bool
is_notification r = is_absent r.id

abbrev pub is_json_space : ℕ → Bool
is_json_space b = b == 32 || b == 9 || b == 10 || b == 13

unfoldable pub is_batch_request : Str → Bool
is_batch_request [] = false
is_batch_request (b ∷ data') =
    let rest = is_batch_request data' in if is_json_space b then rest else b == 91

unfoldable pub new_json_rpc_error : Error → JsonRpcError
new_json_rpc_error err = record {
  code = error_code_to_jsonrpc err.code;
  message = err.message;
  data' = err.details;
}

abbrev pub last : Str → List Str → Str
last default [] = default
last default (part ∷ more) = last part more

-- `resolveJSONRPCMethod`: what stands behind the last dot
unfoldable pub resolve_method : Str → Str
resolve_method method = if contains (46 ∷ []) method then last [] (split 46 method) else method

abbrev plain_error : ℤ → Str → JsonRpcError
plain_error code message = record { code = code; message = message; data' = none }

abbrev pub failure : RequestId → JsonRpcError → JsonRpcResponse
failure id e = record { result = []; error = some e; id = id }

-- What the handler uses of other code, over the inputs `I` and the outputs `O` of the methods.
pub record Service : Type 1 where
  pub I : Type 0
  pub O : Type 0
  pub has_method : Str → Bool
  -- prepareHandlerContext: the text of its error. A context that is cached was prepared.
  pub prepare_error : Str → Option Str
  -- json.Unmarshal of a body into one request, and into many
  pub parse : Str → Option JsonRpcRequest
  pub parse_batch : Str → Option (List JsonRpcRequest)
  -- the zero value of a method's input, and json.Unmarshal into it
  pub zero_input : Str → I
  pub unmarshal : Str → Str → Outcome I
  pub validate : Str → I → Option GoError
  pub call : Str → I → Outcome O
  pub marshal : O → Option Str
  pub batch_limit : ℕ

-- `err.(*Error)`: only that type keeps its code
unfoldable pub error_of_call : GoError → JsonRpcError
error_of_call (rpc e) = new_json_rpc_error e
error_of_call e = plain_error jsonrpc_internal_error (text e)

module _ (s : Service) where
  abbrev decoded : Outcome s.I → Outcome s.I
  decoded (done i) = done i
  decoded (failed e) = failed (GoError.other (str "failed to decode parameters: " ++ text e))

  unfoldable pub decode_params : Str → Str → Outcome s.I
  decode_params method params =
      if str_eq params [] || str_eq params (str "null")
      then done (s.zero_input method)
      else decoded (s.unmarshal method params)

  unfoldable pub encoded : RequestId → Option Str → JsonRpcResponse
  encoded id none =
      failure id (plain_error jsonrpc_internal_error (str "Failed to encode response"))
  encoded id (some result) = record { result = result; error = none; id = id }

  unfoldable pub called : RequestId → Outcome s.O → JsonRpcResponse
  unfolding encoded
  called id (failed e) = failure id (error_of_call e)
  called id (done output) = encoded id (s.marshal output)

  unfoldable pub validated : RequestId → Str → s.I → Option GoError → JsonRpcResponse
  unfolding called
  validated id method input (some e) = failure id (plain_error jsonrpc_invalid_params (text e))
  validated id method input none = called id (s.call method input)

  unfoldable pub with_params : RequestId → Str → Outcome s.I → JsonRpcResponse
  unfolding validated
  with_params id method (failed e) = failure id (plain_error jsonrpc_invalid_params (text e))
  with_params id method (done input) = validated id method input (s.validate method input)

  unfoldable pub prepared : JsonRpcRequest → Str → Option Str → JsonRpcResponse
  unfolding with_params
  prepared req method (some e) =
      failure req.id (plain_error jsonrpc_internal_error (str "Failed to prepare handler: " ++ e))
  prepared req method none = with_params req.id method (decode_params method req.params)

  -- `processJSONRPCRequest`
  unfoldable pub process_request : JsonRpcRequest → JsonRpcResponse
  unfolding prepared
  process_request req =
      let method = resolve_method req.method in
      if s.has_method method
      then prepared req method (s.prepare_error method)
      else failure req.id
          (plain_error jsonrpc_method_not_found (str "Method not found: " ++ req.method))

  abbrev Out : Type 0
  Out = Writer JsonBody

  unfoldable pub write_response : JsonRpcResponse → Out → Out
  write_response resp w =
      write (one resp)
        (write_header 200 (set_header (str "Content-Type") (str "application/json") w))

  unfoldable pub write_error : RequestId → JsonRpcError → Out → Out
  write_error id e w = write_response (failure id e) w

  abbrev pub has_error : JsonRpcResponse → Bool
  has_error resp = elim resp.error [ none ↦ false | some e ↦ true ]

  unfoldable pub is_version_2 : JsonRpcRequest → Bool
  is_version_2 req = str_eq req.jsonrpc (str "2.0")

  -- the answer to a request whose version is not 2.0
  unfoldable pub wrong_version : JsonRpcRequest → JsonRpcResponse
  wrong_version req =
      failure req.id (plain_error jsonrpc_invalid_request (str "Invalid jsonrpc version"))

  unfoldable pub handle_parsed : Option JsonRpcRequest → Out → Out
  handle_parsed none w = write_error absent (plain_error jsonrpc_parse_error (str "Invalid JSON")) w
  handle_parsed (some req) w =
      let resp = process_request req in
      if not (is_version_2 req)
      then write_response (wrong_version req) w
      else if is_notification req && not (has_error resp)
      then write_header 204 w
      else write_response resp w

  -- a request that is not a batch
  unfoldable pub handle_single : Str → Out → Out
  unfolding handle_parsed
  handle_single body w = handle_parsed (s.parse body) w

  -- the end of a batch, when all its requests are answered
  unfoldable pub write_batch : List JsonRpcResponse → Out → Out
  write_batch [] w = write_header 204 w
  write_batch (r ∷ rs) w =
      write (many (r ∷ rs)) (set_header (str "Content-Type") (str "application/json") w)

  -- `answered`: the responses in the order in which the requests of the batch ended
  unfoldable pub with_batch :
      (List JsonRpcRequest → List JsonRpcResponse) → Option (List JsonRpcRequest) → Out → Out
  with_batch answered none w =
      write_error absent (plain_error jsonrpc_parse_error (str "Invalid batch request")) w
  with_batch answered (some requests) w =
      if ltb s.batch_limit (length requests)
      then write_error absent
          (plain_error jsonrpc_invalid_request
            (str "Batch request exceeds limit of " ++ itoa s.batch_limit))
          w
      else write_batch (answered requests) w

  unfoldable pub handle_batch : (List JsonRpcRequest → List JsonRpcResponse) → Str → Out → Out
  unfolding with_batch
  handle_batch answered body w = with_batch answered (s.parse_batch body) w

  -- `handleJSONRPCRequest`; the body is `none` if it cannot be read
  unfoldable pub handle_request :
      (List JsonRpcRequest → List JsonRpcResponse) → Str → Option Str → Out → Out
  handle_request answered method body w =
      if not (str_eq method (str "POST"))
      then write_error absent
          (plain_error jsonrpc_invalid_request (str "Only POST method is allowed")) w
      else (elim body [
        | none ↦
            write_error absent (plain_error jsonrpc_parse_error (str "Failed to read request body"))
              w
        | some b ↦ if is_batch_request b then handle_batch answered b w else handle_single b w
      ])

-- ===== src/Rpc/Protocol.antt =====
-- rpc/handler.go: which protocol and codec a request asks for, its timeouts, and how errors are written.
-- A body is what is encoded, not its text.
pub mod Timeouts
pub mod Exclusive
pub mod Failures
use hyperway.Prelude.{
  ℕ, ◌≡◌, ◌*◌, Bool, true, false, not, ◌&&◌, ◌||◌, Option, none, some, List, [], ◌∷◌, ◌++◌, ◌==◌,
  if◌then◌else◌,
}
use hyperway.Prelude.Int.{ℤ, pos, ◌*ℤ◌, ltb_ℤ, wrap_64}
use hyperway.Prelude.Str.{Str, str, str_eq, lookup, contains, has_prefix, has_suffix}
use hyperway.Prelude.Str.Numbers.{itoa, atoi}
use hyperway.Http.{Header, Writer, get, set_header, write_header, write}
use hyperway.Rpc.Codes.{
  Code, code_unimplemented, code_deadline_exceeded, code_canceled, code_invalid_argument,
  code_internal, http_status_code, grpc_status_code,
}
use hyperway.Rpc.Errors.{
  Any, Details, Error, new_error, error_text, to_error, GoError, rpc, with_details,
  context_deadline_exceeded, context_canceled, other, text,
}

-- what the program reads of a request
pub record Incoming : Type 0 where
  pub method : Str
  pub path : Str
  pub header : Header

pub record ProtocolInfo : Type 0 where
  pub is_connect : Bool
  pub is_grpc : Bool
  pub is_grpc_web : Bool
  pub is_json_rpc : Bool
  pub wants_json : Bool
  pub wants_proto : Bool

abbrev pub contains_json : Str → Bool
contains_json content_type =
    contains (str "+json") content_type || contains (str "/json") content_type

abbrev pub contains_protobuf : Str → Bool
contains_protobuf content_type =
    contains (str "+proto") content_type || contains (str "protobuf") content_type

unfoldable pub detect_protocol_type : Str → Header → ProtocolInfo → ProtocolInfo
detect_protocol_type content_type headers info =
    if str_eq (get (str "X-Grpc-Web") headers) (str "1")
      || str_eq (get (str "grpc-web") headers) (str "1")
      || contains (str "grpc-web") content_type
    then record info { is_grpc_web = true }
    else if has_prefix (str "application/grpc") content_type
    then record info { is_grpc = true }
    else info

-- the content type's preference
unfoldable pub prefer : Str → ProtocolInfo → ProtocolInfo
prefer content_type info =
    if contains_json content_type
    then record info { wants_json = true }
    else if contains_protobuf content_type || info.is_grpc
    then record info { wants_proto = true }
    else info

-- that of the Accept header, which overrides it
unfoldable pub override : Str → ProtocolInfo → ProtocolInfo
override accept info =
    if str_eq accept [] || str_eq accept (str "*/*")
    then info
    else if contains_json accept
    then record info { wants_json = true; wants_proto = false }
    else if contains_protobuf accept
    then record info { wants_proto = true; wants_json = false }
    else info

unfoldable pub grpc_default : ProtocolInfo → ProtocolInfo
grpc_default info =
    if info.is_grpc && not info.wants_json then record info { wants_proto = true } else info

unfoldable pub detect_codec_preference : Str → Str → ProtocolInfo → ProtocolInfo
detect_codec_preference content_type accept info =
    grpc_default (override accept (prefer content_type info))

unfoldable pub detect_protocol : Incoming → ProtocolInfo
detect_protocol r =
    let content_type = get (str "Content-Type") r.header in
    let info : ProtocolInfo = record {
      is_connect = str_eq (get (str "Connect-Protocol-Version") r.header) (str "1");
      is_grpc = false;
      is_grpc_web = false;
      is_json_rpc = false;
      wants_json = false;
      wants_proto = false;
    } in
    if has_suffix (str "/jsonrpc") r.path
      || str_eq content_type (str "application/json-rpc")
      || str_eq content_type (str "application/json-rpc+json")
    then record info { is_json_rpc = true; wants_json = true }
    else detect_codec_preference content_type (get (str "Accept") r.header)
        (detect_protocol_type content_type r.header info)

-- A duration is a count of nanoseconds in an int64.
abbrev pub unit_of : ℕ → Option ℤ
unit_of unit =
    if unit == 72
    then some (pos 3600000000000)
    else if unit == 77
    then some (pos 60000000000)
    else if unit == 83
    then some (pos 1000000000)
    else if unit == 109
    then some (pos 1000000)
    else if unit == 117
    then some (pos 1000)
    else if unit == 110
    then some (pos 1)
    else none

abbrev pub times : Option ℤ → Option ℤ → Option ℤ
times (some value) (some unit) = some (wrap_64 (value *ℤ unit))
times _ _ = none

-- the text before the last byte, and that byte
unfoldable pub unsnoc : ℕ → Str → Str × ℕ
unsnoc c [] = ([], c)
unsnoc c (d ∷ s) = let (front, end) = unsnoc d s in (c ∷ front, end)

-- `parseGRPCTimeout`; `none` is an error. The product is that of two int64.
unfoldable pub parse_grpc_timeout : Str → Option ℤ
parse_grpc_timeout [] = none
parse_grpc_timeout (c ∷ []) = none
parse_grpc_timeout (c ∷ d ∷ s) =
    let (front, unit) = unsnoc c (d ∷ s) in times (atoi front) (unit_of unit)

abbrev positive_ms : Option ℤ → Option ℤ
positive_ms none = none
positive_ms (some ms) = if ltb_ℤ (pos 0) ms then some (wrap_64 (ms *ℤ pos 1000000)) else none

-- `parseRequestTimeout`: the timeout that the context gets, if any
unfoldable pub parse_request_timeout : Incoming → Bool → Option ℤ
parse_request_timeout r is_connect =
    if is_connect then positive_ms (atoi (get (str "Connect-Timeout-Ms") r.header)) else none

-- what is written to a response: the object of a Connect error, that of another error, a text, or the bytes
-- of an encoded message
pub data ErrorBody : Type 0 where
  connect_error : Code → Str → Option Any → Option Details → ErrorBody
  plain_error : Str → ErrorBody
  plain_text : Str → ErrorBody
  raw : Str → ErrorBody

abbrev pub Out : Type 0
Out = Writer ErrorBody

-- `details` is the entry of that name, or the whole map in an array
details_of : Option Details → Option Any × Option Details
details_of none = (none, none)
details_of (some details) = elim (lookup (str "details") details) [
  | some d ↦ (some d, none)
  | none ↦ (none, some details)
]

abbrev is_proto_type : Str → Bool
is_proto_type t = str_eq t (str "application/proto") || str_eq t (str "application/connect+proto")

unfoldable pub write_connect_error : Incoming → Error → Out → Out
unfolding details_of
write_connect_error r err w =
    let (entry, whole) = details_of err.details in
    let answered =
      if is_proto_type (get (str "Content-Type") r.header)
      then str "application/proto"
      else str "application/json" in
    write (connect_error err.code err.message entry whole)
      (write_header 200 (set_header (str "Content-Type") answered w))

-- the error that is written for a Go error
unfoldable pub rpc_error : Incoming → GoError → Error
rpc_error r (rpc e) = e
rpc_error r (with_details e) =
    to_error
      (if contains (str "grpc") (get (str "Content-Type") r.header)
        then str "grpc"
        else str "connect")
      e
rpc_error r context_deadline_exceeded =
    new_error code_deadline_exceeded (str "Request deadline exceeded")
rpc_error r context_canceled = new_error code_canceled (str "Request was canceled")
rpc_error r (other s) =
    if contains (str "validation failed") s
    then new_error code_invalid_argument s
    else new_error code_internal s

abbrev pub is_connect_request : Incoming → Bool
is_connect_request r = str_eq (get (str "Connect-Protocol-Version") r.header) (str "1")

-- `writeError`
unfoldable pub write_error : Incoming → GoError → Out → Out
write_error r err w =
    let e = rpc_error r err in
    if is_connect_request r
    then write_connect_error r e w
    else write (plain_error (error_text e)) (
        write_header (http_status_code e.code)
          (set_header (str "Content-Type") (str "application/json") w))

-- the *Error of an error, or an internal one
unfoldable pub grpc_error : GoError → Error
grpc_error (rpc e) = e
grpc_error err = new_error code_internal (text err)

-- `writeGRPCError`
unfoldable pub write_grpc_error : {B : Type 0} → GoError → Writer B → Writer B
write_grpc_error err w =
    let e = grpc_error err in
    write_header 200 (
      set_header (str "grpc-message") e.message (
        set_header (str "grpc-status") (itoa (grpc_status_code e.code))
          (set_header (str "Content-Type") (str "application/grpc+proto") w)))

-- `handleMethodNotAllowed`
unfoldable pub handle_method_not_allowed : Incoming → ProtocolInfo → Out → Out
handle_method_not_allowed r p w =
    if p.is_connect
    then write_connect_error r (new_error code_unimplemented (str "Method not allowed")) w
    else if p.is_grpc
    then write_header 200 (
        set_header (str "grpc-message") (str "Method not allowed")
          (set_header (str "grpc-status") (itoa 12) w))
    else write (plain_text (str "Method not allowed\n")) (
        write_header 405 (
          set_header (str "X-Content-Type-Options") (str "nosniff")
            (set_header (str "Content-Type") (str "text/plain; charset=utf-8") w)))

pub data StreamType : Type 0 where
  unary server_stream client_stream bidi_stream : StreamType

-- where `handleRequest` sends a request
pub data Route : Type 0 where
  json_rpc method_not_allowed grpc_unary standard_unary : Route
  streaming : StreamType → Route

unfoldable pub handle_request : StreamType → Incoming → Route
handle_request stream r =
    let p = detect_protocol r in
    if p.is_json_rpc
    then json_rpc
    else if not (str_eq r.method (str "POST"))
    then method_not_allowed
    else (elim stream [
      | unary ↦ if p.is_grpc then grpc_unary else standard_unary
      | server_stream ↦ streaming server_stream
      | client_stream ↦ streaming client_stream
      | bidi_stream ↦ streaming bidi_stream
    ])

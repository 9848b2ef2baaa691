-- ===== src/Gateway/GrpcWeb.antt =====
-- gateway/grpcweb.go: the gRPC-Web handler around the handler of the service.
pub mod Handler
use hyperway.Prelude.{
  ℕ, ◌≡◌, ◌+◌, ◌*◌, Bool, true, false, not, ◌&&◌, ◌||◌, Option, none, some, List, [], ◌∷◌, ◌++◌,
  leb, ltb, ◌==◌, length, if◌then◌else◌,
}
use hyperway.Prelude.Int.{ℤ, pos, negsuc}
use hyperway.Prelude.Str.{Str, str, str_eq, lookup, insert, contains, has_prefix, to_lower}
use hyperway.Prelude.Str.Numbers.{itoa, atoi}
use hyperway.Http.{
  Header, Writer, get, set, add_values, set_header, write_header, write, http_error,
}
use hyperway.Gateway.Frames.{
  Mode, binary, base64, detect_grpc_web_mode, Reader, ReadError, eof, unexpected_eof, failed,
  FrameResult, bad_header, bad_payload, frame_read, at_end, Request, request, bad_frame,
  unexpected_trailer, stuck, read_request_message, WriteResult, written, write_data_frame,
  write_trailer_frame,
}
use hyperway.Gateway.Trailers.{format_trailer_frame}

-- google.golang.org/grpc/codes
abbrev pub grpc_ok : ℕ
grpc_ok = 0

abbrev pub grpc_unknown : ℕ
grpc_unknown = 2

abbrev pub grpc_invalid_argument : ℕ
grpc_invalid_argument = 3

abbrev pub grpc_unimplemented : ℕ
grpc_unimplemented = 12

abbrev pub grpc_internal : ℕ
grpc_internal = 13

abbrev pub string_to_grpc_code : List (Str × ℕ)
string_to_grpc_code =
    (str "canceled", 1)
    ∷ (str "unknown", 2)
    ∷ (str "invalid_argument", 3)
    ∷ (str "deadline_exceeded", 4)
    ∷ (str "not_found", 5)
    ∷ (str "already_exists", 6)
    ∷ (str "permission_denied", 7)
    ∷ (str "resource_exhausted", 8)
    ∷ (str "failed_precondition", 9)
    ∷ (str "aborted", 10)
    ∷ (str "out_of_range", 11)
    ∷ (str "unimplemented", 12)
    ∷ (str "internal", 13)
    ∷ (str "unavailable", 14)
    ∷ (str "data_loss", 15)
    ∷ (str "unauthenticated", 16)
    ∷ []

-- the first text that is not empty
abbrev pub or_text : Str → Str → Str
or_text [] b = b
or_text (c ∷ a) b = c ∷ a

-- the code inferred from a message; no message is inferred from an empty one, which names nothing
abbrev inferred : Str → Str → ℕ
inferred [] msg =
    if contains (str "unimplemented") (to_lower msg) then grpc_unimplemented else grpc_unknown
inferred (c ∷ code) msg = grpc_unknown

unfoldable pub parse_error_code : Str → Str → Str → ℕ
parse_error_code code_str error_msg message = elim (lookup code_str string_to_grpc_code) [
  | some code ↦ code
  | none ↦ inferred code_str (or_text error_msg message)
]

-- the code of a header grpc-status, if it is one
unfoldable pub status_number : ℕ → Option ℤ → ℕ
status_number default (some (pos code)) = if leb code 16 then code else default
status_number default _ = default

-- The recorder that stands for the connection while the service answers.
pub record Recorder : Type 0 where
  pub header : Header
  pub body : Str
  pub status : ℕ

abbrev pub new_response_recorder : Recorder
new_response_recorder = record { header = []; body = []; status = 200 }

-- What a handler does with its response writer.
pub data Action : Type 0 where
  sets : Str → Str → Action
  writes : Str → Action
  writes_header : ℕ → Action

unfoldable pub record_actions : List Action → Recorder → Recorder
record_actions [] r = r
record_actions (sets k v ∷ more) r = record_actions more (record r { header = set k v r.header })
record_actions (writes data' ∷ more) r = record_actions more (record r { body = r.body ++ data' })
record_actions (writes_header status ∷ more) r = record_actions more (record r { status = status })

unfoldable pub write_actions : List Action → Writer Str → Writer Str
write_actions [] w = w
write_actions (sets k v ∷ more) w = write_actions more (set_header k v w)
write_actions (writes data' ∷ more) w = write_actions more (write data' w)
write_actions (writes_header status ∷ more) w = write_actions more (write_header status w)

-- `extractGRPCStatus`
unfoldable pub extract_grpc_status : Recorder → ℕ × Str
extract_grpc_status r = (
  status_number grpc_ok (atoi (get (str "grpc-status") r.header)),
  get (str "grpc-message") r.header,
)

unfoldable pub should_copy_as_grpc_trailer : Str → Bool
should_copy_as_grpc_trailer key =
    has_prefix (str "grpc-") (to_lower key)
    && not (str_eq key (str "grpc-status"))
    && not (str_eq key (str "grpc-message"))

unfoldable pub should_copy_as_custom_trailer : Str → Bool
should_copy_as_custom_trailer key =
    let lower = to_lower key in
    not (
      has_prefix (str "grpc-") lower
      || str_eq lower (str "content-type")
      || str_eq lower (str "content-length")
      || str_eq lower (str "date")
      || str_eq lower (str "server"))

unfoldable pub copy_grpc : Header → Header → Header
copy_grpc [] trailers = trailers
copy_grpc ((key, values) ∷ more) trailers =
    copy_grpc more
      (if should_copy_as_grpc_trailer key then insert key values trailers else trailers)

unfoldable pub copy_custom : Header → Header → Header
copy_custom [] trailers = trailers
copy_custom ((key, values) ∷ more) trailers =
    copy_custom more
      (if should_copy_as_custom_trailer key then add_values key values trailers else trailers)

unfoldable pub copy_headers_to_trailers : Header → Header → Header
copy_headers_to_trailers headers trailers = copy_custom headers (copy_grpc headers trailers)

abbrev with_message : Str → Header → Header
with_message [] trailers = trailers
with_message (c ∷ msg) trailers = set (str "grpc-message") (c ∷ msg) trailers

unfoldable pub prepare_trailers : Recorder → Header
prepare_trailers r =
    let (code, msg) = extract_grpc_status r in
    copy_headers_to_trailers r.header (with_message msg (set (str "grpc-status") (itoa code) []))

-- the trailers of an error
unfoldable pub error_trailers : ℕ → Str → Header
error_trailers code msg = set (str "grpc-message") msg (set (str "grpc-status") (itoa code) [])

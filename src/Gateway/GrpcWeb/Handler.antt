-- ===== src/Gateway/GrpcWeb/Handler.antt =====
-- gateway/grpcweb.go: the handler itself, from the request to the frames of the response. The service
-- behind it, the JSON and base64 libraries, the connection and net/url are parameters.
pub mod Framed
pub mod Forwarded
use hyperway.Prelude.{
  ℕ, ◌≡◌, Bool, true, false, ◌&&◌, ◌||◌, not, Option, none, some, List, [], ◌∷◌, ◌++◌, ltb, ◌==◌,
  length, if◌then◌else◌,
}
use hyperway.Prelude.Str.{Str, str, str_eq, insert, contains, has_prefix, to_lower}
use hyperway.Http.{Header, Writer, get, set, set_header, write_header, write, http_error}
use hyperway.Gateway.Frames.{
  Mode, binary, base64, detect_grpc_web_mode, Reader, ReadError, eof, unexpected_eof, failed,
  FrameResult, bad_header, bad_payload, Request, request, bad_frame, unexpected_trailer, stuck,
  read_request_message, WriteResult, written, too_large, write_failed, write_data_frame,
  write_trailer_frame,
}
use hyperway.Gateway.Trailers.{format_trailer_frame}
use hyperway.Gateway.GrpcWeb.{
  grpc_invalid_argument, grpc_unimplemented, grpc_internal, grpc_unknown, parse_error_code,
  status_number, Recorder, new_response_recorder, Action, record_actions, write_actions,
  prepare_trailers, error_trailers,
}
use hyperway.Prelude.Str.Numbers.{atoi}

-- what the program uses of a request: `url` is its URL as text
pub record HttpRequest : Type 0 where
  pub method : Str
  pub url : Str
  pub header : Header
  pub body : Reader

pub record Codec : Type 0 where
  pub mode : Mode
  pub is_json : Bool

abbrev pub new_grpc_web_codec : Str → Codec
new_grpc_web_codec content_type = record {
  mode = detect_grpc_web_mode content_type;
  is_json = contains (str "+json") content_type || contains (str "/json") content_type;
}

abbrev pub is_base64 : Mode → Bool
is_base64 binary = false
is_base64 base64 = true

unfoldable pub content_type_of : Codec → Str
content_type_of codec =
    (if is_base64 codec.mode then str "application/grpc-web-text" else str "application/grpc-web")
    ++ (if codec.is_json then str "+json" else str "+proto")

-- the JSON of an error: {"error": ..., "code": ..., "message": ...}
pub record ErrorResp : Type 0 where
  pub error : Str
  pub code : Str
  pub message : Str

unfoldable pub is_grpc_web : HttpRequest → Bool
is_grpc_web r =
    has_prefix (str "application/grpc-web") (get (str "Content-Type") r.header)
    || str_eq (get (str "X-Grpc-Web") r.header) (str "1")

-- values[0]: net/http keeps no key without a value
abbrev first : List Str → Str
first [] = []
first (v ∷ vs) = v

-- one key of the client's header, for the header of the request for the service
unfoldable pub convert_key : Codec → Str → List Str → Header → Header
convert_key codec key values header =
    let lower = to_lower key in
    let typed = if codec.is_json then str "application/json" else str "application/protobuf" in
    if has_prefix (str "x-grpc-web") lower
    then header
    else if str_eq lower (str "content-type")
    then set (str "X-Grpc-Web") (str "1") (set (str "Content-Type") typed header)
    else if str_eq lower (str "x-user-agent")
    then set (str "User-Agent") (first values) header
    else insert key values header

unfoldable pub convert_header : Codec → Header → Header → Header
convert_header codec [] header = header
convert_header codec ((key, values) ∷ more) header =
    convert_header codec more (convert_key codec key values header)

-- The text of a read error; `conn_error` is that of the connection.
read_error_text : Str → ReadError → Str
read_error_text conn_error eof = str "EOF"
read_error_text conn_error unexpected_eof = str "unexpected EOF"
read_error_text conn_error failed = conn_error

unfoldable pub frame_error_text : Str → FrameResult → Str
unfolding read_error_text
frame_error_text conn_error (bad_header e) =
    str "failed to read frame header: " ++ read_error_text conn_error e
frame_error_text conn_error (bad_payload e) =
    str "failed to read frame payload: " ++ read_error_text conn_error e
frame_error_text conn_error _ = []

-- The frame writer: the bytes its base64 encoder holds back, and the connection.
pub record FrameWriter : Type 0 where
  pub pending : List ℕ
  pub conn : Writer Str

-- What the handler uses of other code.
pub record Outside : Type 0 where
  -- the service: what it does with its response writer
  pub serve : HttpRequest → List Action
  -- url.Parse: the text of its error
  pub url_error : Str → Option Str
  -- json.Unmarshal into an ErrorResp
  pub error_json : Str → Option ErrorResp
  -- the text of a failed read of the connection
  pub conn_error : Str
  -- whether the connection still takes bytes
  pub takes : Writer Str → Bool
  -- base64.NewDecoder over a body
  pub decoder : Reader → Reader
  -- base64.NewEncoder: what it passes on of the bytes it holds and new ones, and what it holds then;
  -- what Close passes on
  pub encode : List ℕ → List ℕ → Str × List ℕ
  pub encode_close : List ℕ → Str

-- a header grpc-status that is there and is not OK
unfoldable pub is_error_status : Str → Bool
is_error_status s = not (str_eq s []) && not (str_eq s (str "0"))

module _ (o : Outside) where
  abbrev sent_to : Str → Writer Str → Bool × Writer Str
  sent_to [] w = (true, w)
  sent_to (b ∷ bytes) w =
      let after = write (b ∷ bytes) w in if o.takes w then (true, after) else (false, w)

  unfoldable pub held : List ℕ → Bool × Writer Str → Bool × FrameWriter
  held pending (done, w) = (done, record { pending = pending; conn = w })

  -- Write of the frame writer: an empty write to the encoder sends nothing
  unfoldable pub frame_write : Mode → List ℕ → FrameWriter → Bool × FrameWriter
  unfolding held
  frame_write binary bytes fw = held [] (sent_to bytes fw.conn)
  frame_write base64 bytes fw =
      let (out, pending) = o.encode fw.pending bytes in held pending (sent_to out fw.conn)

  -- `close`: the rest of the base64 text, or a flush, which sends the head
  unfoldable pub close : Mode → FrameWriter → Writer Str
  close base64 fw = (sent_to (o.encode_close fw.pending) fw.conn).1
  close binary fw = write_header 200 fw.conn

  -- an empty data frame and a trailer frame; both are tried
  unfoldable pub write_error_status : Mode → ℕ → Str → FrameWriter → FrameWriter
  write_error_status mode code msg fw =
      let trailers = format_trailer_frame (error_trailers code msg) in
      (write_trailer_frame (frame_write mode) trailers
        (write_data_frame (frame_write mode) [] fw).1).1

  unfoldable pub trailers_after :
      Mode → Recorder → WriteResult × FrameWriter → WriteResult × FrameWriter
  trailers_after mode r (written, fw) =
      write_trailer_frame (frame_write mode) (format_trailer_frame (prepare_trailers r)) fw
  trailers_after mode r (e, fw) = (e, fw)

  -- `writeResponse`
  unfoldable pub write_response : Mode → Recorder → FrameWriter → WriteResult × FrameWriter
  unfolding trailers_after
  write_response mode r fw = trailers_after mode r (write_data_frame (frame_write mode) r.body fw)

  unfoldable pub write_response_with_error : Mode → Recorder → FrameWriter → FrameWriter
  write_response_with_error mode r fw =
      write_error_status mode (status_number grpc_unknown (atoi (get (str "grpc-status") r.header)))
        (get (str "grpc-message") r.header) fw

  abbrev or_message : Str → Str → Str
  or_message [] message = message
  or_message (c ∷ error) message = c ∷ error

  -- the code and the message of an error body
  error_of : Option ErrorResp → Option (ℕ × Str)
  error_of none = none
  error_of (some e) =
      if str_eq e.error [] && str_eq e.code []
      then none
      else some (parse_error_code e.code e.error e.message, or_message e.error e.message)

  -- `handleJSONError`: the error in a body, if there is one
  unfoldable pub json_error : Str → Option (ℕ × Str)
  unfolding error_of
  json_error body =
      if contains (str "\"error\"") body || contains (str "\"code\"") body
      then error_of (o.error_json body)
      else none

  -- the response of a service that answered with no error in its header
  unfoldable pub flushed : WriteResult × FrameWriter → FrameWriter
  flushed (written, fw) = record fw { conn = write_header 200 fw.conn }
  flushed (e, fw) = fw

  unfoldable pub success : Mode → Recorder → FrameWriter → FrameWriter
  unfolding flushed
  success mode r fw =
      flushed (write_response mode r (record fw { conn = write_header 200 fw.conn }))

  unfoldable pub or_json_error : Mode → Recorder → Option (ℕ × Str) → FrameWriter → FrameWriter
  unfolding success
  or_json_error mode r (some (code, msg)) fw = write_error_status mode code msg fw
  or_json_error mode r none fw = success mode r fw

  unfoldable pub handle_response : Codec → Recorder → FrameWriter → FrameWriter
  unfolding or_json_error success is_error_status
  handle_response codec r fw =
      if r.status == 404
      then write_error_status codec.mode grpc_unimplemented (str "Method not found") fw
      else if is_error_status (get (str "grpc-status") r.header)
      then write_response_with_error codec.mode r fw
      else if codec.is_json && ltb 0 (length r.body)
      then or_json_error codec.mode r (json_error r.body) fw
      else success codec.mode r fw

  -- the request for the service
  unfoldable pub create_grpc_request : HttpRequest → Str → Codec → HttpRequest
  create_grpc_request r data' codec = record {
    method = str "POST";
    url = r.url;
    header = convert_header codec r.header [];
    body = record { rest = data'; broken = false };
  }

  unfoldable pub ask : HttpRequest → Str → Codec → Option Str → FrameWriter → FrameWriter
  ask r data' codec (some e) fw = write_error_status codec.mode grpc_internal e fw
  ask r data' codec none fw =
      handle_response codec
        (record_actions (o.serve (create_grpc_request r data' codec)) new_response_recorder) fw

  unfoldable pub answer : HttpRequest → Codec → Request → FrameWriter → FrameWriter
  unfolding ask
  answer r codec (request data') fw = ask r data' codec (o.url_error r.url) fw
  answer r codec (bad_frame e) fw =
      write_error_status codec.mode grpc_invalid_argument
        (str "failed to read frame: " ++ frame_error_text o.conn_error e) fw
  answer r codec unexpected_trailer fw =
      write_error_status codec.mode grpc_invalid_argument
        (str "unexpected trailer frame in request") fw
  answer r codec stuck fw = fw

  abbrev body_reader : Mode → Reader → Reader
  body_reader binary r = r
  body_reader base64 r = o.decoder r

  unfoldable pub process_request : HttpRequest → Codec → FrameWriter → FrameWriter
  unfolding answer
  process_request r codec fw =
      answer r codec (read_request_message (body_reader codec.mode r.body)) fw

  -- ServeHTTP of the gRPC-Web handler
  unfoldable pub serve_grpc_web : HttpRequest → Writer Str → Writer Str
  serve_grpc_web r w =
      let codec = new_grpc_web_codec (get (str "Content-Type") r.header) in
      let typed = set_header (str "Content-Type") (content_type_of codec) w in
      let done = process_request r codec (record { pending = []; conn = typed }) in
      if str_eq r.method (str "POST")
      then close codec.mode done
      else http_error (str "Method not allowed") 405 w

  -- ServeHTTP of the interceptor
  unfoldable pub intercept_grpc_web : HttpRequest → Writer Str → Writer Str
  intercept_grpc_web r w = if is_grpc_web r then serve_grpc_web r w else write_actions (o.serve r) w

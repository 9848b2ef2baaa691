-- ===== src/Rpc/Stream/Handler.antt =====
-- rpc/handler_streaming.go: a call of a server stream, from the body of the request to the end of the stream,
-- and the answers to the streams that are not implemented.
use hyperway.Prelude.{
  ℕ, ◌-◌, not, ◌&&◌, Option, none, some, List, [], ◌∷◌, ◌++◌, ◌==◌, leb, length, drop,
  if◌then◌else◌,
}
use hyperway.Prelude.Int.{ℤ}
use hyperway.Prelude.Str.{Str, str, str_eq}
use hyperway.Http.{get, set_header, write_header, write}
use hyperway.Gateway.Frames.{Reader, Result, ok, read_full, uint32, frame_header_size}
use hyperway.Rpc.Codes.{Code, code_internal, code_unimplemented}
use hyperway.Rpc.Errors.{
  Details, Error, error_text, new_error, GoError, rpc, other, text, Outcome, done, failed,
}
use hyperway.Rpc.Protocol.{
  Incoming, ProtocolInfo, StreamType, unary, server_stream, client_stream, bidi_stream,
  detect_protocol, plain_text, Out, parse_request_timeout, write_connect_error, write_error,
  write_grpc_error, handle_method_not_allowed,
}
use hyperway.Rpc.Compression.{Compressor, Registry, get_compressor}
use hyperway.Rpc.Context.{Context, fresh_context, set_response_header, set_response_trailer}
use hyperway.Rpc.Input.{Decoder, decode_input, validate_input}
use hyperway.Rpc.Standard.{Encoder}
use hyperway.Rpc.Stream.{Stream, encode_func, send, send_error, finalize, new_stream}

-- What a handler does with its stream: it returns an error or nil, panics with a value that prints as the text,
-- sends a message and goes on by what Send returns, or sets a header or a trailer.
pub data Script (O : Type 0) : Type 0 where
  give : Option GoError → Script O
  panic : Str → Script O
  send_then : O → (Option GoError → Script O) → Script O
  header_then : Str → Str → Script O → Script O
  trailer_then : Str → Str → Script O → Script O

-- how a handler ends
pub data Returned : Type 0 where
  returned : Option GoError → Returned
  panicked : Str → Returned

-- A method with its handler; the libraries give the JSON of an error, and Go the texts of a connection that
-- fails and of a failed type assertion.
pub record StreamMethod (I O Msg : Type 0) : Type 0 where
  pub input : Decoder I Msg
  pub output : Encoder O
  pub handler : Option ℤ → I → Script O
  pub registry : Registry
  pub error_json : Code → Str → Option Details → Str
  pub read_failure : Str
  pub assertion_text : GoError → Str

module _ {O : Type 0} (r : Incoming) (p : ProtocolInfo) (encoder : Encoder O) where
  unfoldable pub run : Script O → Stream → Returned × Stream
  run (give e) s = (returned e, s)
  run (panic value) s = (panicked value, s)
  run (send_then msg next) s =
      let (e, after) = send r p (encode_func p encoder msg) s in run (next e) after
  run (header_then k v next) s = run next (record s { context = set_response_header k v s.context })
  run (trailer_then k v next) s =
      run next (record s { context = set_response_trailer k v s.context })

-- A body that is read, or the error that is written for it.
pub data Read : Type 0 where
  body : Str → Read
  grpc_failure : Error → Read
  failure : GoError → Read

message_read : Result Str → Read
message_read (ok message) = body message
message_read _ = grpc_failure (new_error code_internal (str "failed to read gRPC message body"))

header_read : Result Str × Reader → Read
unfolding message_read
header_read (ok (flag ∷ size), r) = message_read (read_full (uint32 size) r).0
header_read _ = grpc_failure (new_error code_internal (str "failed to read gRPC frame header"))

-- `readGRPCFramedBody`
unfoldable pub read_grpc_framed_body : Reader → Read
unfolding header_read
read_grpc_framed_body r = header_read (read_full frame_header_size r)

-- The body without the frame of the Connect protocol, if it looks like one.
unfoldable pub unframed : Str → Str
unframed whole =
    if leb 5 (length whole) && uint32 (drop 1 whole) == length whole - 5
    then drop 5 whole
    else whole

-- `readNonGRPCBody`
unfoldable pub read_non_grpc_body : ProtocolInfo → Str → Reader → Read
unfolding unframed
read_non_grpc_body p read_failure r =
    if r.broken
    then failure (other (str "failed to read body: " ++ read_failure))
    else if p.is_connect
    then body (unframed r.rest)
    else body r.rest

unfoldable pub read_stream_request_body : ProtocolInfo → Str → Reader → Read
unfolding read_grpc_framed_body read_non_grpc_body
read_stream_request_body p read_failure r =
    if p.is_grpc then read_grpc_framed_body r else read_non_grpc_body p read_failure r

unfoldable pub decompressed : Outcome Str → Read
decompressed (done data') = body data'
decompressed (failed e) = failure (other (str "failed to decompress request: " ++ text e))

unfoldable pub by_compressor : Str → Option Compressor → Read
unfolding decompressed
by_compressor whole none = failure (other (str "gzip decompression not available"))
by_compressor whole (some c) = decompressed (c.decompress whole)

-- `decompressRequestBody`
unfoldable pub decompress_request_body : Registry → Incoming → Str → Read
unfolding by_compressor
decompress_request_body registry r whole =
    if str_eq (get (str "Content-Encoding") r.header) (str "gzip")
    then by_compressor whole (get_compressor (str "gzip") registry)
    else body whole

unfoldable pub read_decompressed : Registry → Incoming → Read → Read
unfolding decompress_request_body
read_decompressed registry r (body whole) = decompress_request_body registry r whole
read_decompressed registry r (grpc_failure e) = grpc_failure e
read_decompressed registry r (failure e) = failure e

-- the recovery of `handleServerStreamRequest`
unfoldable pub recovered : Incoming → Str → Out → Out
recovered r value w = write_error r (other (str "panic in streaming handler: " ++ value)) w

module _ {I O Msg : Type 0} (m : StreamMethod I O Msg) (r : Incoming) (p : ProtocolInfo) where
  unfoldable pub asserted : GoError → Out → Out
  asserted (rpc e) w = write_grpc_error (rpc e) w
  asserted e w = recovered r (m.assertion_text e) w

  -- `writeProtocolError`: on gRPC an error that is no *Error panics, which is recovered
  unfoldable pub write_protocol_error : GoError → Out → Out
  unfolding asserted
  write_protocol_error e w = if p.is_grpc then asserted e w else write_error r e w

  unfoldable pub closed : Returned × Stream → Out
  closed (returned none, s) = (finalize r p s).w
  closed (returned (some e), s) = (send_error r p m.error_json e s).w
  closed (panicked value, s) = recovered r value s.w

  unfoldable pub streamed : List (Option GoError) → Context → I → Out → Out
  unfolding closed
  streamed results ctx i w =
      let timeout = parse_request_timeout r p.is_connect in
      closed (run r p m.output (m.handler timeout i) (new_stream results ctx w))

  unfoldable pub validated : List (Option GoError) → Context → I → Option GoError → Out → Out
  unfolding write_protocol_error streamed
  validated results ctx i (some e) w = write_protocol_error e w
  validated results ctx i none w = streamed results ctx i w

  unfoldable pub decoded : List (Option GoError) → Context → Outcome I → Out → Out
  unfolding validated
  decoded results ctx (failed e) w = write_protocol_error e w
  decoded results ctx (done i) w = validated results ctx i (validate_input m.input i) w

  -- `processStreamRequest`
  unfoldable pub process_stream_request : List (Option GoError) → Context → Str → Out → Out
  unfolding decoded
  process_stream_request results ctx whole w =
      decoded results ctx (decode_input m.input (get (str "Content-Type") r.header) whole) w

  unfoldable pub with_body : List (Option GoError) → Context → Read → Out → Out
  unfolding process_stream_request
  with_body results ctx (body whole) w = process_stream_request results ctx whole w
  with_body results ctx (grpc_failure e) w = write_grpc_error (rpc e) w
  with_body results ctx (failure e) w = write_error r e w

  -- `handleServerStreamRequest`; `results` are those of the calls of Write
  unfoldable pub handle_server_stream_request : List (Option GoError) → Context → Reader → Out → Out
  unfolding with_body
  handle_server_stream_request results ctx reader w =
      if not (str_eq r.method (str "POST"))
      then handle_method_not_allowed r p w
      else with_body results ctx
          (read_decompressed m.registry r (read_stream_request_body p m.read_failure reader)) w

-- an error of a kind of stream, by the protocol; the last case is http.Error
unfoldable pub refuse : Incoming → ProtocolInfo → Error → ℕ → Out → Out
refuse r p e status w =
    if p.is_connect
    then write_connect_error r e w
    else if p.is_grpc
    then write_grpc_error (rpc e) w
    else write (plain_text (error_text e ++ 10 ∷ [])) (
        write_header status (
          set_header (str "X-Content-Type-Options") (str "nosniff")
            (set_header (str "Content-Type") (str "text/plain; charset=utf-8") w)))

unfoldable pub handle_client_stream_request : Incoming → ProtocolInfo → Out → Out
unfolding refuse
handle_client_stream_request r p w =
    refuse r p (new_error code_unimplemented (str "Client streaming not yet implemented")) 501 w

unfoldable pub handle_bidi_stream_request : Incoming → ProtocolInfo → Out → Out
unfolding refuse
handle_bidi_stream_request r p w =
    refuse r p (new_error code_unimplemented (str "Bidirectional streaming not yet implemented"))
      501 w

-- `createStreamingHTTPHandler`: the call of a method by the kind of its stream, with a fresh context
unfoldable pub serve_stream :
    {I O Msg : Type 0}
    → StreamMethod I O Msg
    → StreamType
    → List (Option GoError)
    → Incoming
    → Reader
    → Out
    → Out
unfolding handle_server_stream_request handle_client_stream_request handle_bidi_stream_request
    refuse
serve_stream m server_stream results r reader w =
    handle_server_stream_request m r (detect_protocol r) results (fresh_context r.header) reader w
serve_stream m client_stream results r reader w =
    handle_client_stream_request r (detect_protocol r) w
serve_stream m bidi_stream results r reader w = handle_bidi_stream_request r (detect_protocol r) w
serve_stream m unary results r reader w =
    refuse r (detect_protocol r) (new_error code_internal (str "Unary method in streaming handler"))
      500 w

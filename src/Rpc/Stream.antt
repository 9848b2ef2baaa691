-- ===== src/Rpc/Stream.antt =====
-- rpc/handler_streaming.go: the writer of a server stream as a state, and what its operations write. Each
-- Write of the connection has a result that is given beforehand; one that fails adds nothing to the body here.
-- The connection can be flushed: a flush sends the head if that is not done, and else changes nothing here, so that only the
-- flush of `sendGRPCTrailers`, before which the head may be missing, is written out. The lock and the pool of frame
-- buffers are not modelled.
pub mod Handler
pub mod Channel
pub mod Kept
pub mod Sound
pub mod Announced
pub mod Ends
pub mod Calls
pub mod Status
pub mod AlwaysOk
pub mod Answers
use hyperway.Prelude.{
  ℕ, ◌+◌, Bool, true, false, not, ◌&&◌, Option, none, some, List, [], ◌∷◌, ◌++◌, length,
  if◌then◌else◌,
}
use hyperway.Prelude.Str.{Str, str}
use hyperway.Prelude.Str.Numbers.{itoa}
use hyperway.Http.{Header, Writer, add_all, set_header, write_header, write}
use hyperway.Gateway.Frames.{put_uint32}
use hyperway.Rpc.Codes.{Code, code_internal, grpc_status_code}
use hyperway.Rpc.Errors.{
  Details, Error, new_error, to_error, GoError, rpc, with_details, context_deadline_exceeded,
  context_canceled, other, text, Outcome, done, failed,
}
use hyperway.Rpc.Protocol.{Incoming, ProtocolInfo, raw, Out}
use hyperway.Rpc.Context.{Context}
use hyperway.Rpc.Standard.{Encoder, determine_content_type}

-- `serverStreamWriter` with its response writer: `results` are those of the next calls of Write, and a call
-- behind the last of them works.
pub record Stream : Type 0 where
  pub w : Out
  pub results : List (Option GoError)
  pub context : Context
  pub headers_sent : Bool
  pub err : Option GoError
  pub message_count : ℕ
  pub connect_ended : Bool

unfoldable pub wrote : Str → Stream → List (Option GoError) → Option GoError × Stream
wrote data' s [] = (none, record s { w = write (raw data') s.w })
wrote data' s (none ∷ more) = (none, record s { w = write (raw data') s.w; results = more })
wrote data' s (some e ∷ more) = (some e, record s { w = write_header 200 s.w; results = more })

-- w.Write(data)
unfoldable pub write_bytes : Str → Stream → Option GoError × Stream
unfolding wrote
write_bytes data' s = wrote data' s s.results

-- what is done next, if the error is nil
unfoldable pub and_then :
    Option GoError × Stream → (Stream → Option GoError × Stream) → Option GoError × Stream
and_then (none, s) next = next s
and_then (some e, s) next = (some e, s)

-- calls of Write in turn, up to the first that fails
unfoldable pub write_all : List Str → Stream → Option GoError × Stream
unfolding and_then
write_all [] s = (none, s)
write_all (data' ∷ more) s = and_then (write_bytes data' s) (write_all more)

-- the bytes of `sendConnectMessage` and `sendGRPCMessage`
unfoldable pub message_frame : Str → Str
message_frame data' = (0 ∷ put_uint32 (length data')) ++ data'

module _ {O : Type 0} (p : ProtocolInfo) (encoder : Encoder O) where
  proto_only : O → Outcome Str
  proto_only msg =
      if encoder.is_proto_message msg
      then encoder.proto_marshal msg
      else failed (other (str "expected proto.Message, got " ++ encoder.type_name msg))

  -- `encodeFunc`
  unfoldable pub encode_func : O → Outcome Str
  unfolding proto_only
  encode_func msg =
      if p.is_grpc && not p.wants_json
      then encoder.marshal_struct msg
      else if encoder.use_proto_output && not p.wants_json
      then proto_only msg
      else if p.wants_json
      then encoder.json_marshal msg
      else encoder.marshal_struct msg

unfoldable pub counted : Option GoError × Stream → Option GoError × Stream
counted (none, s) = (none, record s { message_count = s.message_count + 1 })
counted (some e, s) = (some e, record s { err = some e })

unfoldable pub ended : Option GoError × Stream → Stream
ended (none, s) = record s { connect_ended = true }
ended (some e, s) = s

-- the trailers, which are headers once the head is sent
unfoldable pub grpc_trailers : Str → Str → Stream → Stream
grpc_trailers status message s =
    let numbered =
      set_header (str "grpc-message") message (set_header (str "grpc-status") status s.w) in
    record s {
      w = record numbered { header = add_all [] s.context.response_trailers numbered.header };
    }

-- w.Flush()
unfoldable pub flush : Stream → Stream
flush s = record s { w = write_header 200 s.w }

-- `sendGRPCTrailers`
unfoldable pub send_grpc_trailers : Error → Stream → Stream
unfolding grpc_trailers flush
send_grpc_trailers e s = flush (grpc_trailers (itoa (grpc_status_code e.code)) e.message s)

unfoldable pub connect_trailers : Option GoError × Stream → Stream
connect_trailers (none, s) = record s {
  w = record s.w { header = add_all (str "trailer-") s.context.response_trailers s.w.header };
}
connect_trailers (some e, s) = s

-- `finalizeConnect`
unfoldable pub finalize_connect : Stream → Stream
unfolding connect_trailers
finalize_connect s = connect_trailers (write_all ((2 ∷ []) ∷ put_uint32 2 ∷ str "{}" ∷ []) s)

module _ (p : ProtocolInfo) where
  -- the calls of Write for a message
  unfoldable pub message_writes : Str → List Str
  unfolding message_frame
  message_writes data' =
      if p.is_connect
      then message_frame data' ∷ []
      else if p.is_grpc
      then message_frame data' ∷ []
      else data' ∷ (10 ∷ []) ∷ []

  unfoldable pub send_encoded : Outcome Str → Stream → Option GoError × Stream
  unfolding counted message_writes
  send_encoded (failed e) s = (some e, record s { err = some e })
  send_encoded (done data') s = counted (write_all (message_writes data') s)

  -- the error that `sendError` sends
  unfoldable pub stream_error : GoError → Error
  stream_error (rpc e) = e
  stream_error (with_details e) = to_error (if p.is_grpc then str "grpc" else str "connect") e
  stream_error context_deadline_exceeded = new_error code_internal (text context_deadline_exceeded)
  stream_error context_canceled = new_error code_internal (text context_canceled)
  stream_error (other s) = new_error code_internal s

  unfoldable pub finalize_by : Stream → Stream
  unfolding finalize_connect grpc_trailers
  finalize_by s =
      if p.is_connect && not s.connect_ended
      then finalize_connect s
      else if p.is_grpc
      then grpc_trailers (str "0") [] s
      else s

module _ (r : Incoming) (p : ProtocolInfo) where
  unfoldable pub typed : Out → Out
  typed w =
      if p.is_connect
      then set_header (str "Cache-Control") (str "no-cache") (
          set_header (str "Content-Type")
            (if p.wants_json
              then str "application/connect+json"
              else str "application/connect+proto")
            w)
      else if p.is_grpc
      then set_header (str "Trailer") (str "grpc-status, grpc-message") (
          set_header (str "grpc-accept-encoding") (str "gzip")
            (set_header (str "Content-Type") (determine_content_type r) w))
      else w

  -- `sendHeaders`
  unfoldable pub send_headers : Context → Out → Out
  unfolding typed
  send_headers ctx w =
      let t = typed w in
      write_header 200 (record t { header = add_all [] ctx.response_headers t.header })

  -- the headers, if they are not sent
  unfoldable pub ensure_headers : Stream → Stream
  unfolding send_headers
  ensure_headers s =
      if s.headers_sent then s else record s { w = send_headers s.context s.w; headers_sent = true }

  unfoldable pub send_unless : Outcome Str → Stream → Option GoError → Option GoError × Stream
  unfolding send_encoded ensure_headers
  send_unless encoded s (some e) = (some e, s)
  send_unless encoded s none = send_encoded p encoded (ensure_headers s)

  -- `Send` of a message that is encoded as given
  unfoldable pub send : Outcome Str → Stream → Option GoError × Stream
  unfolding send_unless
  send encoded s = send_unless encoded s s.err

  -- `sendConnectError`, with the JSON text of the error
  unfoldable pub send_connect_error : Str → Stream → Stream
  unfolding ended ensure_headers
  send_connect_error data' s =
      ended (write_all ((2 ∷ []) ∷ put_uint32 (length data') ∷ data' ∷ []) (ensure_headers s))

  -- `sendError`; `error_json` is json.Marshal of the map with the error
  unfoldable pub send_error : (Code → Str → Option Details → Str) → GoError → Stream → Stream
  unfolding stream_error send_connect_error send_grpc_trailers
  send_error error_json err s =
      let e = stream_error p err in
      let s' = record s { err = some err } in
      if p.is_connect
      then send_connect_error (error_json e.code e.message e.details) s'
      else if p.is_grpc
      then send_grpc_trailers e s'
      else s'

  unfoldable pub finalize_unless : Stream → Option GoError → Stream
  unfolding finalize_by ensure_headers
  finalize_unless s (some e) = s
  finalize_unless s none = finalize_by p (ensure_headers s)

  -- `finalize`
  unfoldable pub finalize : Stream → Stream
  unfolding finalize_unless
  finalize s = finalize_unless s s.err

-- `newServerStreamWriter`
unfoldable pub new_stream : List (Option GoError) → Context → Out → Stream
new_stream results ctx w = record {
  w = w;
  results = results;
  context = ctx;
  headers_sent = false;
  err = none;
  message_count = 0;
  connect_ended = false;
}

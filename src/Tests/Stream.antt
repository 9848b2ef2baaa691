-- ===== src/Tests/Stream.antt =====
-- A server stream that counts, in the Connect protocol and in gRPC.
use hyperway.Prelude.{◌≡◌, ◌↔◌, refl, true, false, Option, none, some, List, [], ◌∷◌, ◌++◌}
use hyperway.Prelude.Int.{pos}
use hyperway.Prelude.Str.{Str, str, str_eq, lookup}
use hyperway.Prelude.Str.Numbers.{atoi}
use hyperway.Http.{fresh, get, canonical, status_of}
use hyperway.Gateway.Frames.{Frame, Reader, read_full, uint32}
use hyperway.Gateway.Frames.Requests.{all_bytes}
use hyperway.Gateway.GrpcWeb.Handler.Framed.{joined}
use hyperway.Rpc.Codes.{code_not_found}
use hyperway.Rpc.Errors.{GoError, rpc, other, new_error, done}
use hyperway.Rpc.Protocol.{Incoming, ProtocolInfo, is_connect_request}
use hyperway.Rpc.Context.{fresh_context}
use hyperway.Rpc.Input.{
  Decoder, decode_input, decode_struct_input, is_json_content_type, invalid, validate_input,
  should_validate,
}
use hyperway.Rpc.Standard.{Encoder}
use hyperway.Rpc.Stream.{encode_func, stream_error, new_stream}
use hyperway.Rpc.Stream.Handler.{
  Script, give, send_then, trailer_then, StreamMethod, returned, read_stream_request_body,
  read_non_grpc_body, read_grpc_framed_body, unframed, read_decompressed, decompress_request_body,
  run, handle_server_stream_request,
}
use hyperway.Rpc.Stream.Channel.{ideal, offer, Shows, frames, run-ideal}
use hyperway.Rpc.Stream.Sound.{IsSound, new_stream-IsSound, run-IsSound}
use hyperway.Rpc.Stream.Ends.{raws}
use hyperway.Rpc.Stream.Calls.{IsAccepted, empty_channel, meant, end_status}
use hyperway.Rpc.Stream.Answers.{
  messages, handle_server_stream_request-connect, handle_server_stream_request-grpc,
}
use hyperway.Rpc.Stream.Announced.{received_status}
use hyperway.Rpc.Stream.AlwaysOk.{handle_server_stream_request-status}

abbrev call : Incoming
call = record {
  method = str "POST";
  path = str "/Count/Up";
  header =
      (str "Content-Type", str "application/json" ∷ [])
      ∷ (str "Connect-Protocol-Version", str "1" ∷ [])
      ∷ [];
}

abbrev connect : ProtocolInfo
connect = record {
  is_connect = true;
  is_grpc = false;
  is_grpc_web = false;
  is_json_rpc = false;
  wants_json = true;
  wants_proto = false;
}

abbrev grpc : ProtocolInfo
grpc = record {
  is_connect = false;
  is_grpc = true;
  is_grpc_web = false;
  is_json_rpc = false;
  wants_json = false;
  wants_proto = true;
}

abbrev decoder : Decoder Str Str
decoder = record {
  use_proto_input = false;
  has_proto_input = false;
  has_new_input = true;
  has_input_codec = true;
  protojson_unmarshal = λ s. done s;
  proto_unmarshal = λ s. done s;
  json_unmarshal = λ s. done s;
  codec_unmarshal = λ s. done s;
  proto_to_struct = λ s. done s;
  enable_validation = false;
  validate_option = none;
  validate_struct = λ s. none;
  validate_oneof = λ s. none;
}

abbrev encoder : Encoder Str
encoder = record {
  use_proto_output = false;
  is_proto_message = λ s. false;
  type_name = λ s. str "*main.Count";
  proto_marshal = λ s. done s;
  protojson_marshal = λ s. done s;
  json_marshal = λ s. done s;
  marshal_struct = λ s. done s;
}

abbrev missing : GoError
missing = rpc (new_error code_not_found (str "no such count"))

-- two messages, a trailer, and an error
abbrev counting : Script Str
counting = send_then (str "1") (λ first.
    trailer_then (str "seen") (str "yes") (send_then (str "2") (λ second. give (some missing))))

abbrev method : StreamMethod Str Str Str
method = record {
  input = decoder;
  output = encoder;
  handler = λ timeout input. counting;
  registry = [];
  error_json = λ code message details. message;
  read_failure = str "reset";
  assertion_text = λ e. str "assertion";
}

abbrev sent : Reader
sent = record { rest = str "{}"; broken = false }

abbrev framed : Reader
framed = record { rest = 0 ∷ 0 ∷ 0 ∷ 0 ∷ 2 ∷ str "{}"; broken = false }

sent-IsAccepted : IsAccepted method call connect sent (str "{}")
unfolding str_eq get lookup canonical read_decompressed decompress_request_body
    read_stream_request_body read_non_grpc_body unframed decode_input decode_struct_input
    is_json_content_type invalid validate_input should_validate
sent-IsAccepted = record {
  post = refl;
  whole = str "{}";
  read = refl;
  decodes = refl;
  valid = refl;
}

framed-IsAccepted : IsAccepted method call grpc framed (str "{}")
unfolding str_eq get lookup canonical read_decompressed decompress_request_body
    read_stream_request_body read_grpc_framed_body read_full uint32 decode_input decode_struct_input
    is_json_content_type invalid validate_input should_validate
framed-IsAccepted = record {
  post = refl;
  whole = str "{}";
  read = refl;
  decodes = refl;
  valid = refl;
}

abbrev counts : List Str
counts = str "1" ∷ str "2" ∷ []

means :
    meant method call connect (str "{}")
    ≡ (returned (some missing), record { taken = counts; failure = none })
unfolding ideal offer encode_func
means = refl

means_grpc :
    meant method call grpc (str "{}")
    ≡ (returned (some missing), record { taken = counts; failure = none })
unfolding ideal offer encode_func
means_grpc = refl

handle_server_stream_request-connect_example :
    let w =
      handle_server_stream_request method call connect [] (fresh_context call.header) sent fresh in
    let last : Frame = record { flag = 2; payload = str "no such count" } in
    (status_of w ≡ 200)
    × (l : List Str) × (w.body ≡ raws l)
    × (joined l ≡ all_bytes (messages counts ++ last ∷ []))
unfolding new_error stream_error
handle_server_stream_request-connect_example =
    handle_server_stream_request-connect method call connect (fresh_context call.header) sent
      (str "{}") (some missing) counts refl sent-IsAccepted means

handle_server_stream_request-grpc_example :
    let w =
      handle_server_stream_request method call grpc [] (fresh_context call.header) framed fresh in
    (w.body ≡ frames counts)
    × (atoi (received_status w) ≡ some (pos (end_status method call grpc (some missing))))
    × ((end_status method call grpc (some missing) ≡ 0)
        ↔ (◌≡◌ {A = Option GoError} (some missing) none))
handle_server_stream_request-grpc_example =
    handle_server_stream_request-grpc method call grpc (fresh_context call.header) framed (str "{}")
      (some missing) counts refl refl framed-IsAccepted means_grpc

by_connect : is_connect_request call ≡ true
unfolding str_eq get lookup canonical
by_connect = refl

-- the second write fails
abbrev failing : List (Option GoError)
failing = none ∷ some (other (str "broken pipe")) ∷ []

handle_server_stream_request-status_example :
    status_of (
      handle_server_stream_request method call connect failing
        (fresh_context call.header)
        sent
        fresh)
    ≡ 200
handle_server_stream_request-status_example =
    handle_server_stream_request-status call by_connect method connect failing
      (fresh_context call.header) sent refl

run-ideal_example :
    let s = new_stream [] (fresh_context []) fresh in
    let after = run call connect encoder counting s in
    let after' = ideal (encode_func connect encoder) counting empty_channel in
    (after.0 ≡ after'.0) × Shows [] after.1 after'.1
unfolding new_stream
run-ideal_example =
    run-ideal call connect refl encoder [] counting (new_stream [] (fresh_context []) fresh)
      empty_channel (record { works = refl; body = refl; count = refl; failure = refl })

run-IsSound_example :
    IsSound connect
      (run call connect encoder counting (new_stream failing (fresh_context []) fresh)).1
run-IsSound_example =
    run-IsSound call connect encoder counting (new_stream failing (fresh_context []) fresh)
      (new_stream-IsSound connect failing (fresh_context []))

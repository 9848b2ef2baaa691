-- ===== src/Rpc/Standard.antt =====
-- rpc/handler.go: a unary call that is not of the gRPC protocol, from the body of the request to that of the
-- response. The pools of buffers are not modelled; what the libraries do is a parameter.
pub mod Compressed
pub mod Answered
use hyperway.Prelude.{
  ◌≡◌, Bool, true, false, not, ◌&&◌, ◌||◌, Option, none, some, List, [], ◌∷◌, ◌++◌, ltb, length,
  if◌then◌else◌,
}
use hyperway.Prelude.Int.{ℤ}
use hyperway.Prelude.Str.{Str, str, str_eq, contains}
use hyperway.Http.{Header, Writer, get, add_all, set_header, write}
use hyperway.Gateway.Frames.{Reader}
use hyperway.Rpc.Errors.{GoError, other, text, Outcome, done, failed}
use hyperway.Rpc.Protocol.{
  Incoming, ProtocolInfo, raw, Out, detect_protocol, parse_request_timeout, write_error,
}
use hyperway.Rpc.Unary.{Handler, Interceptor, call_handler}
use hyperway.Rpc.Compression.{Registry, Compressor, get_compressor, should_compress}
use hyperway.Rpc.Context.{Context}
use hyperway.Rpc.Input.{Decoder, process_input}

-- What a method's context holds to encode outputs of type `O`.
pub record Encoder (O : Type 0) : Type 0 where
  pub use_proto_output : Bool
  -- output.(proto.Message), and the name of the output's type
  pub is_proto_message : O → Bool
  pub type_name : O → Str
  pub proto_marshal : O → Outcome Str
  pub protojson_marshal : O → Outcome Str
  pub json_marshal : O → Outcome Str
  -- outputCodec.MarshalStruct
  pub marshal_struct : O → Outcome Str

-- A method with its handler, over the context and the state `S` of the program. The handler is given the
-- timeout that the request asks for.
pub record Endpoint (S I O Msg : Type 0) : Type 0 where
  pub name : Str
  pub interceptors : List (Interceptor (Context × S) I O)
  pub handler : Option ℤ → Handler (Context × S) I O
  pub input : Decoder I Msg
  pub output : Encoder O
  pub registry : Registry
  -- the text of the error of a connection that fails
  pub read_failure : Str

unfoldable pub decompressed : Str → Option Compressor → Outcome Str
decompressed body none = failed (other (str "gzip decompression not available"))
decompressed body (some c) = c.decompress body

-- `readRequestBody` and `decompressBody`
unfoldable pub read_request_body : Registry → Str → Incoming → Reader → Outcome Str
unfolding decompressed
read_request_body registry failure r body =
    if body.broken
    then failed (other (str "failed to read body: " ++ failure))
    else if str_eq (get (str "Content-Encoding") r.header) (str "gzip")
    then decompressed body.rest (get_compressor (str "gzip") registry)
    else done body.rest

-- `determineContentType`, given the protocol
unfoldable pub content_type_of : ProtocolInfo → Header → Str
content_type_of p h =
    let accept = get (str "Accept") h in
    let content_type = get (str "Content-Type") h in
    if p.is_grpc_web
    then (if p.wants_json
        then str "application/grpc-web+json"
        else str "application/grpc-web+proto")
    else if p.is_grpc
    then (if p.wants_json then str "application/grpc+json" else str "application/grpc+proto")
    else if p.is_connect
    then (if p.wants_json then str "application/json" else str "application/proto")
    else if not (str_eq accept []) && not (str_eq accept (str "*/*"))
    then accept
    else if not (str_eq content_type [])
    then content_type
    else str "application/json"

unfoldable pub determine_content_type : Incoming → Str
unfolding content_type_of
determine_content_type r = content_type_of (detect_protocol r) r.header

-- the function `isProtobufContentType` of a response's type
unfoldable pub is_protobuf_content_type : Str → Bool
is_protobuf_content_type t =
    str_eq t (str "application/protobuf")
    || str_eq t (str "application/x-protobuf")
    || str_eq t (str "application/proto")
    || str_eq t (str "application/connect+proto")
    || str_eq t (str "application/grpc+proto")
    || str_eq t (str "application/grpc-web+proto")
    || contains (str "+proto") t
    || contains (str "protobuf") t

-- the keys of a map, joined by ", "
joined_keys : Header → Str
joined_keys [] = []
joined_keys ((k, vs) ∷ []) = k
joined_keys ((k, vs) ∷ (j, ws) ∷ more) = k ++ str ", " ++ joined_keys ((j, ws) ∷ more)

unfoldable pub smaller : Str → Outcome Str → Out → Str × Out
smaller data' (failed e) w = (data', w)
smaller data' (done c) w =
    if ltb (length c) (length data')
    then (c, set_header (str "Content-Encoding") (str "gzip") w)
    else (data', w)

unfoldable pub with_compressor : Str → Option Compressor → Out → Str × Out
unfolding smaller
with_compressor data' none w = (data', w)
with_compressor data' (some c) w = smaller data' (c.compress data') w

unfoldable pub maybe_compress : Registry → Str → Bool → Out → Str × Out
unfolding with_compressor
maybe_compress registry data' can_compress w =
    if can_compress && should_compress data'
    then with_compressor data' (get_compressor (str "gzip") registry) w
    else (data', w)

-- fmt.Errorf(said + "%w", err) in place of an error
not_marshalled : Str → Outcome Str → Outcome Str
not_marshalled said (done data') = done data'
not_marshalled said (failed e) = failed (other (said ++ text e))

module _ {O : Type 0} (e : Encoder O) where
  -- the data of `encodeProtobufResponse`
  unfoldable pub encode_protobuf : O → Outcome Str
  unfolding not_marshalled
  encode_protobuf output =
      if e.is_proto_message output && e.use_proto_output
      then not_marshalled (str "failed to marshal protobuf: ") (e.proto_marshal output)
      else not_marshalled (str "failed to marshal struct to protobuf: ") (e.marshal_struct output)

  -- the data of `encodeJSONResponse`
  unfoldable pub encode_json : O → Outcome Str
  unfolding not_marshalled
  encode_json output =
      if e.is_proto_message output
      then not_marshalled (str "failed to marshal protobuf to JSON: ") (e.protojson_marshal output)
      else not_marshalled (str "failed to marshal JSON: ") (e.json_marshal output)

  unfoldable pub encode_output : Str → O → Outcome Str
  unfolding encode_protobuf encode_json
  encode_output t output =
      if is_protobuf_content_type t then encode_protobuf output else encode_json output

-- the trailers that a response announces, or sends as headers to a Connect client
unfoldable pub announced : Bool → Header → Out → Out
unfolding joined_keys
announced is_connect [] w = w
announced is_connect (t ∷ more) w =
    if is_connect
    then record w { header = add_all (str "trailer-") (t ∷ more) w.header }
    else set_header (str "Trailer") (joined_keys (t ∷ more)) w

-- the headers of `encodeResponse`
unfoldable pub response_head : Incoming → Context → Out → Out
unfolding announced
response_head r ctx w =
    let typed = set_header (str "Content-Type") (determine_content_type r) w in
    announced (detect_protocol r).is_connect ctx.response_trailers
      (record typed { header = add_all [] ctx.response_headers typed.header })

unfoldable pub sent : Str × Out → Out
sent (data', w) = write (raw data') w

unfoldable pub response_body : Registry → Bool → Outcome Str → Out → Option GoError × Out
unfolding sent
response_body registry can_compress (failed e) w = (some e, w)
response_body registry can_compress (done data') w =
    (none, sent (maybe_compress registry data' can_compress w))

-- the trailers of `encodeResponse`, also behind an error
unfoldable pub with_trailers : Incoming → Context → Out → Out
with_trailers r ctx w =
    if (detect_protocol r).is_connect
    then w
    else record w { header = add_all [] ctx.response_trailers w.header }

module _ {S I O Msg : Type 0} (m : Endpoint S I O Msg) where
  -- `encodeResponse`, with nil as `none`
  unfoldable pub encode_response : Incoming → O → Context → Out → Option GoError × Out
  unfolding response_head response_body with_trailers
  encode_response r output ctx w =
      let can_compress = contains (str "gzip") (get (str "Accept-Encoding") r.header) in
      let data' = encode_output m.output (determine_content_type r) output in
      let (e, written) = response_body m.registry can_compress data' (response_head r ctx w) in
      (e, with_trailers r ctx written)

  unfoldable pub finished : Incoming → Option GoError × Out → Out
  finished r (none, w) = w
  finished r (some e, w) = write_error r e w

  unfoldable pub answered : Incoming → Out → Outcome O × (Context × S) → Out × S
  unfolding finished
  answered r w (failed e, (ctx, s)) = (write_error r e w, s)
  answered r w (done output, (ctx, s)) = (finished r (encode_response r output ctx w), s)

  unfoldable pub called : Incoming → Out → Outcome I → Context × S → Out × S
  unfolding answered
  called r w (failed e) (ctx, s) = (write_error r e w, s)
  called r w (done i) (ctx, s) =
      let timeout = parse_request_timeout r (detect_protocol r).is_connect in
      answered r w (call_handler m.name m.interceptors (m.handler timeout) i (ctx, s))

  unfoldable pub with_body : Incoming → Out → Outcome Str → Context × S → Out × S
  unfolding called
  with_body r w (failed e) (ctx, s) = (write_error r e w, s)
  with_body r w (done body) (ctx, s) =
      called r w (process_input m.input (get (str "Content-Type") r.header) body) (ctx, s)

  -- `processUnaryRequest`
  unfoldable pub process_unary_request : Incoming → Reader → Context → Out → S → Out × S
  unfolding with_body
  process_unary_request r body ctx w s =
      with_body r w (read_request_body m.registry m.read_failure r body) (ctx, s)

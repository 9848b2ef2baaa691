-- ===== src/Tests/Standard.antt =====
-- A unary call with a JSON body, for a method that echoes, and compression.
use hyperway.Prelude.{
  ℕ, ◌≡◌, ◌≤◌, ◌+◌, refl, inr, true, false, none, some, [], ◌∷◌, length, if◌then◌else◌,
}
use hyperway.Prelude.Str.{Str, str, str_eq, lookup, insert, has_suffix, has_prefix, contains}
use hyperway.Http.{fresh, get, set, set_header, add, add_values, add_all, canonical, status_of}
use hyperway.Gateway.Frames.{Reader}
use hyperway.Rpc.Codes.{code_invalid_argument}
use hyperway.Rpc.Errors.{rpc, other, new_error, text, Outcome, done, failed}
use hyperway.Rpc.Protocol.{
  Incoming, raw, detect_protocol, rpc_error, is_connect_request, write_error,
  detect_codec_preference, grpc_default, override, prefer, detect_protocol_type,
}
use hyperway.Rpc.Protocol.Failures.{sent_header}
use hyperway.Rpc.Unary.{Handler, call_handler}
use hyperway.Rpc.Compression.{
  GzipLibrary, gzip_compressor, default_registry, register_compressor, get_compressor,
}
use hyperway.Rpc.Compression.Lossless.{IsLossless, ReadsBack, get_compressor-IsLossless}
use hyperway.Rpc.Context.{Context, fresh_context, set_response_header}
use hyperway.Rpc.Input.{
  Decoder, decode_input, decode_struct_input, is_json_content_type, invalid, validate_input,
  should_validate, struct_checked, oneof_checked, validated, checked, process_input,
}
use hyperway.Rpc.Input.Failures.{IsInvalid, process_input-IsInvalid}
use hyperway.Rpc.Standard.{
  Encoder, Endpoint, read_request_body, determine_content_type, content_type_of, encode_output,
  encode_json, is_protobuf_content_type, response_head, announced, process_unary_request,
}
use hyperway.Rpc.Standard.Compressed.{client_reads}
use hyperway.Rpc.Standard.Answered.{
  head_of, process_unary_request-done, process_unary_request-bad_input,
}

abbrev call : Incoming
call = record {
  method = str "POST";
  path = str "/Echo/Say";
  header =
      (str "Content-Type", str "application/json" ∷ [])
      ∷ (str "Accept-Encoding", str "gzip" ∷ [])
      ∷ [];
}

-- a gzip library that puts one byte before the data
abbrev reset : Str → Outcome (Outcome Str)
reset [] = failed (other (str "EOF"))
reset (c ∷ s) = done (done s)

abbrev gzip : GzipLibrary
gzip = record { write = λ s. done (done (31 ∷ s)); reset = reset }

gzip-ReadsBack : ReadsBack gzip
gzip-ReadsBack a [] wrote = cc
gzip-ReadsBack a (c ∷ b) wrote = ((λ h. cc), cc)

abbrev decoder : Decoder Str Str
decoder = record {
  use_proto_input = false;
  has_proto_input = false;
  has_new_input = true;
  has_input_codec = true;
  protojson_unmarshal = λ s. done s;
  proto_unmarshal = λ s. done s;
  json_unmarshal = λ s. done s;
  codec_unmarshal = λ s. done s;
  proto_to_struct = λ s. done s;
  enable_validation = true;
  validate_option = none;
  validate_struct = λ s. if str_eq s (str "bad") then some (other (str "too bad")) else none;
  validate_oneof = λ s. none;
}

abbrev encoder : Encoder Str
encoder = record {
  use_proto_output = false;
  is_proto_message = λ s. false;
  type_name = λ s. str "*main.Echo";
  proto_marshal = λ s. done s;
  protojson_marshal = λ s. done s;
  json_marshal = λ s. done s;
  marshal_struct = λ s. done s;
}

-- a handler that counts its calls and sets a header
abbrev echo : Handler (Context × ℕ) Str Str
echo input (ctx, n) = (done input, (set_response_header (str "X-Seen") (str "1") ctx, n + 1))

abbrev endpoint : Endpoint ℕ Str Str Str
endpoint = record {
  name = str "Say";
  interceptors = [];
  handler = λ timeout. echo;
  input = decoder;
  output = encoder;
  registry = default_registry gzip;
  read_failure = str "reset";
}

abbrev body_of : Str → Reader
body_of s = record { rest = s; broken = false }

found : get_compressor (str "gzip") (default_registry gzip) ≡ some (gzip_compressor gzip)
unfolding get_compressor default_registry register_compressor lookup insert str_eq
found = refl

lossless : IsLossless (gzip_compressor gzip)
lossless = get_compressor-IsLossless gzip gzip-ReadsBack (gzip_compressor gzip) found

process_input-IsInvalid_example :
    IsInvalid (rpc (new_error code_invalid_argument (str "validation failed: too bad")))
unfolding process_input decode_input decode_struct_input is_json_content_type invalid validate_input
    should_validate struct_checked oneof_checked validated checked text str_eq
process_input-IsInvalid_example =
    process_input-IsInvalid decoder (str "application/json") (str "bad")
      (rpc (new_error code_invalid_argument (str "validation failed: too bad"))) (inr (refl, refl))
      refl

reads :
    (s : Str) → read_request_body (default_registry gzip) (str "reset") call (body_of s) ≡ done s
unfolding read_request_body get lookup canonical str_eq
reads s = refl

process_unary_request-bad_input_example :
    let e = rpc (new_error code_invalid_argument (str "validation failed: too bad")) in
    let (w, after) =
      process_unary_request endpoint call
        (body_of (str "bad"))
        (fresh_context call.header)
        fresh
        3 in
    (w ≡ write_error call e fresh)
    × ((rpc_error call e).code ≡ code_invalid_argument)
    × (status_of w ≡ (if is_connect_request call then 200 else 400))
    × (after ≡ 3)
unfolding process_input decode_input decode_struct_input is_json_content_type invalid validate_input
    should_validate struct_checked oneof_checked validated checked text str_eq get lookup canonical
process_unary_request-bad_input_example =
    process_unary_request-bad_input endpoint call (body_of (str "bad")) (str "bad")
      (fresh_context call.header) 3
      (rpc (new_error code_invalid_argument (str "validation failed: too bad"))) (inr (refl, refl))
      (reads (str "bad")) refl

abbrev seen : Context
seen = set_response_header (str "X-Seen") (str "1") (fresh_context call.header)

decodes : process_input decoder (get (str "Content-Type") call.header) (str "hi") ≡ done (str "hi")
unfolding process_input decode_input decode_struct_input is_json_content_type invalid validate_input
    should_validate struct_checked oneof_checked validated checked text str_eq get lookup canonical
decodes = refl

gives :
    call_handler (str "Say") [] echo (str "hi") (fresh_context call.header, 3)
    ≡ (done (str "hi"), (seen, 4))
unfolding call_handler
gives = refl

json : determine_content_type call ≡ str "application/json"
unfolding determine_content_type content_type_of detect_protocol has_suffix str_eq get lookup
    canonical detect_codec_preference grpc_default override prefer contains has_prefix
    detect_protocol_type
json = refl

encodes : encode_output encoder (determine_content_type call) (str "hi") ≡ done (str "hi")
unfolding encode_output encode_json is_protobuf_content_type str_eq contains has_prefix
encodes = rw json refl

clean : get (str "Content-Encoding") (head_of call seen) ≡ []
unfolding get response_head announced set_header set add add_values add_all lookup insert canonical
    str_eq set_response_header fresh_context
clean = refl

process_unary_request-done_example :
    let (w, after) =
      process_unary_request endpoint call
        (body_of (str "hi"))
        (fresh_context call.header)
        fresh
        3 in
    (status_of w ≡ 200)
    × (get (str "Content-Type") (sent_header w) ≡ determine_content_type call)
    × (chunk : Str) × (w.body ≡ raw chunk ∷ [])
    × (client_reads (gzip_compressor gzip) (sent_header w) chunk ≡ done (str "hi"))
    × (length chunk ≤ length (str "hi"))
    × (after ≡ 4)
process_unary_request-done_example =
    process_unary_request-done endpoint call (body_of (str "hi")) (str "hi")
      (fresh_context call.header) seen 3 4 (str "hi") (str "hi") (str "hi") (gzip_compressor gzip)
      (reads (str "hi")) decodes gives encodes found lossless clean

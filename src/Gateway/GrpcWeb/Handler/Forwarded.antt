-- ===== src/Gateway/GrpcWeb/Handler/Forwarded.antt =====
-- What the service behind the gRPC-Web handler is asked, and what it is not asked.
use hyperway.Prelude.{
  ℕ, ◌≡◌, ◌≢◌, ◌≤◌, refl, Bool, true, false, Bool-cases, inl, inr, Option, none, some, List, [],
  ◌∷◌, ◌++◌, All, length,
}
use hyperway.Prelude.Str.{Str, str, str_eq, lookup, insert, has_prefix, to_lower}
use hyperway.Http.{Header, set, canonical}
use hyperway.Gateway.Frames.{binary, Frame, flag_trailer}
use hyperway.Gateway.Frames.RoundTrip.{frame_bytes}
use hyperway.Gateway.Frames.Requests.{
  IsData, all_bytes, payloads, read_request_message-all_bytes, read_request_message-trailer,
}
use hyperway.Gateway.GrpcWeb.{
  grpc_invalid_argument, string_to_grpc_code, parse_error_code, record_actions,
  new_response_recorder,
}
use hyperway.Gateway.GrpcWeb.Handler.{
  HttpRequest, Codec, Outside, FrameWriter, write_error_status, handle_response, ask, answer,
  process_request, create_grpc_request, convert_key, convert_header,
}
use hyperway.Rpc.Codes.{Code, or_default, grpc_status_code, grpc_status_code_map}

-- For a body of data frames of at most 2^31 - 1 bytes each, over binary gRPC-Web and with a URL
-- that parses again, what the handler does is its response to the service's answer to one
-- request with the payloads of those frames joined in order.
pub process_request-all_bytes :
    (o : Outside) (method url : Str) (header : Header) (is_json : Bool) (fs : List Frame)
    (fw : FrameWriter)
    → All IsData fs
    → o.url_error url ≡ none
    → let codec : Codec = record { mode = binary; is_json = is_json } in
      let r : HttpRequest = record {
        method = method;
        url = url;
        header = header;
        body = record { rest = all_bytes fs; broken = false };
      } in
      process_request o r codec fw
      ≡ handle_response o codec
          (record_actions
            (o.serve (create_grpc_request o r (payloads fs) codec))
            new_response_recorder)
          fw
unfolding process_request answer ask
process_request-all_bytes o method url header is_json fs fw h parsed =
    rw (read_request_message-all_bytes fs h) (rw parsed refl)

-- Over binary gRPC-Web, a request with a trailer frame of at most 2^31 - 1 bytes behind its data
-- frames is answered with the status InvalidArgument, whatever follows; the service is not
-- asked.
pub process_request-trailer :
    (o : Outside) (method url : Str) (header : Header) (is_json : Bool) (fs : List Frame)
    (payload rest : Str) (broken : Bool) (fw : FrameWriter)
    → All IsData fs
    → length payload ≤ 0x7FFFFFFF
    → let codec : Codec = record { mode = binary; is_json = is_json } in
      let bytes =
        all_bytes fs ++ (frame_bytes (record { flag = flag_trailer; payload = payload }) ++ rest) in
      let r : HttpRequest = record {
        method = method;
        url = url;
        header = header;
        body = record { rest = bytes; broken = broken };
      } in
      process_request o r codec fw
      ≡ write_error_status o binary grpc_invalid_argument
          (str "unexpected trailer frame in request")
          fw
unfolding process_request answer
process_request-trailer o method url header is_json fs payload rest broken fw h small =
    rw (read_request_message-trailer fs payload rest broken h small) refl

-- The two packages read a named error code the same way: the gRPC-Web handler's table and that of
-- rpc agree on every code that is not empty, whatever the messages say.
pub parse_error_code-grpc_status_code :
    (code : Code) (error_msg message : Str)
    → code ≢ []
    → parse_error_code code error_msg message ≡ grpc_status_code code
unfolding parse_error_code grpc_status_code grpc_status_code_map
parse_error_code-grpc_status_code [] error_msg message named = elim (named refl) [ ]
parse_error_code-grpc_status_code (c ∷ code) error_msg message named =
    by_found (lookup (c ∷ code) string_to_grpc_code)
  where
    by_found :
        (found : Option ℕ) → ◌≡◌ {A = ℕ} (elim found [ some n ↦ n | none ↦ 2 ]) (or_default 2 found)
    by_found none = refl
    by_found (some n) = refl

-- a key that only the handler may set, and to "1"
abbrev pub IsOwn : Str × List Str → Type 0
IsOwn (key, values) = has_prefix (str "x-grpc-web") (to_lower key) ≡ true → values ≡ str "1" ∷ []

insert-IsOwn :
    (k : Str) (vs : List Str) (h : Header) → IsOwn (k, vs) → All IsOwn h → All IsOwn (insert k vs h)
unfolding insert
insert-IsOwn k vs [] own hs = (own, _)
insert-IsOwn k vs ((j, ws) ∷ h) own (first, hs) = elim (Bool-cases (str_eq j k)) [
  | inl same ↦ rw same (own, hs)
  | inr differs ↦ rw differs (first, insert-IsOwn k vs h own hs)
]

set-IsOwn :
    (k v : Str) (h : Header) → IsOwn (canonical k, v ∷ []) → All IsOwn h → All IsOwn (set k v h)
unfolding set
set-IsOwn k v h own hs = insert-IsOwn (canonical k) (v ∷ []) h own hs

convert_key-IsOwn :
    (codec : Codec) (key : Str) (values : List Str) (h : Header)
    → All IsOwn h
    → All IsOwn (convert_key codec key values h)
unfolding convert_key canonical has_prefix to_lower
convert_key-IsOwn codec key values h hs =
    elim (Bool-cases (has_prefix (str "x-grpc-web") (to_lower key))) [
      | inl dropped ↦ rw dropped hs
      | inr kept ↦ elim (Bool-cases (str_eq (to_lower key) (str "content-type"))) [
        | inl typed ↦
            rw (kept, typed)
              (set-IsOwn (str "X-Grpc-Web") (str "1") _ (λ _. refl)
                (set-IsOwn (str "Content-Type") _ h (λ own. cc) hs))
        | inr untyped ↦ elim (Bool-cases (str_eq (to_lower key) (str "x-user-agent"))) [
          | inl agent ↦ rw (kept, untyped, agent) (set-IsOwn (str "User-Agent") _ h (λ own. cc) hs)
          | inr other ↦ rw (kept, untyped, other) (insert-IsOwn key values h (λ own. cc) hs)
        ]
      ]
    ]

convert_header-IsOwn :
    (codec : Codec) (from to : Header) → All IsOwn to → All IsOwn (convert_header codec from to)
unfolding convert_header
convert_header-IsOwn codec [] to h = h
convert_header-IsOwn codec ((key, values) ∷ more) to h =
    convert_header-IsOwn codec more (convert_key codec key values to)
      (convert_key-IsOwn codec key values to h)

-- A client cannot pass an X-Grpc-Web header on: each key of that prefix, in any case of letters, in the
-- header of the request for the service has the value "1", which only the handler sets.
pub create_grpc_request-IsOwn :
    (o : Outside) (r : HttpRequest) (data' : Str) (codec : Codec)
    → All IsOwn (create_grpc_request o r data' codec).header
unfolding create_grpc_request
create_grpc_request-IsOwn o r data' codec = convert_header-IsOwn codec r.header [] _

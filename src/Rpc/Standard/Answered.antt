-- ===== src/Rpc/Standard/Answered.antt =====
-- What a client gets for a unary call that is not of the gRPC protocol.
use hyperway.Prelude.{
  ℕ, ◌≡◌, ◌≤◌, refl, ap, ◌∙◌, Bool, false, Bool-cases, inl, inr, Option, none, some, [], ◌∷◌, ◌++◌,
  length, if◌then◌else◌, if_both,
}
use hyperway.Prelude.Str.{Str, str, str_eq, contains}
use hyperway.Http.{
  Header, canonical, fresh, get, set_header, write_header, write, commit, add_all, status_of,
}
use hyperway.Http.Laws.{Has, get-Has, set-Has, set-Has_other, add_all-Has}
use hyperway.Gateway.Frames.{Reader}
use hyperway.Rpc.Codes.{code_invalid_argument, http_status_code}
use hyperway.Rpc.Errors.{GoError, done, failed}
use hyperway.Rpc.Protocol.{
  Incoming, raw, Out, detect_protocol, parse_request_timeout, is_connect_request, rpc_error,
  write_error,
}
use hyperway.Rpc.Protocol.Failures.{sent_header, write_error-status}
use hyperway.Rpc.Unary.{call_handler}
use hyperway.Rpc.Compression.{Compressor, get_compressor}
use hyperway.Rpc.Compression.Lossless.{IsLossless}
use hyperway.Rpc.Context.{Context}
use hyperway.Rpc.Input.{process_input}
use hyperway.Rpc.Input.Failures.{IsPrepared, process_input-IsInvalid}
use hyperway.Rpc.Standard.{
  Endpoint, read_request_body, determine_content_type, maybe_compress, encode_output, announced,
  response_head, sent, response_body, with_trailers, encode_response, finished, answered, called,
  with_body, process_unary_request,
}
use hyperway.Rpc.Standard.Compressed.{client_reads, maybe_compress-IsReadable}

-- the headers of a response, before its body
abbrev pub head_of : Incoming → Context → Header
head_of r ctx = (response_head r ctx fresh).header

announced-Has :
    (b : Bool) (trailers : Header) (k v : Str) (w : Out)
    → str_eq (canonical (str "Trailer")) (canonical k) ≡ false
    → Has k v w.header
    → Has k v (announced b trailers w).header
unfolding announced set_header
announced-Has b [] k v w differs has = has
announced-Has b (t ∷ more) k v w differs has =
    if_both (λ (x : Out). Has k v x.header) b _ _
      (add_all-Has (str "trailer-") (t ∷ more) k v w.header has)
      (set-Has_other (str "Trailer") _ k v w.header differs has)

-- The content type of a response is that of `determineContentType`, whatever headers and trailers the handler adds.
content_type-Has :
    (r : Incoming) (ctx : Context)
    → Has (str "Content-Type") (determine_content_type r) (head_of r ctx)
unfolding response_head set_header canonical str_eq
content_type-Has r ctx =
    let k = str "Content-Type" in
    let typed = set_header k (determine_content_type r) fresh in
    announced-Has (detect_protocol r).is_connect ctx.response_trailers k (determine_content_type r)
      (record typed { header = add_all [] ctx.response_headers typed.header }) refl
      (add_all-Has [] ctx.response_headers k (determine_content_type r) typed.header
        (set-Has k (determine_content_type r) []))

announced-clean :
    (b : Bool) (trailers : Header) (w : Out)
    → ((announced b trailers w).head ≡ w.head) × ((announced b trailers w).body ≡ w.body)
unfolding announced set_header
announced-clean b [] w = (refl, refl)
announced-clean b (t ∷ more) w =
    if_both (λ (x : Out). (x.head ≡ w.head) × (x.body ≡ w.body)) b _ _ (refl, refl) (refl, refl)

with_trailers-clean :
    (r : Incoming) (ctx : Context) (w : Out)
    → ((with_trailers r ctx w).head ≡ w.head) × ((with_trailers r ctx w).body ≡ w.body)
unfolding with_trailers
with_trailers-clean r ctx w =
    if_both (λ (x : Out). (x.head ≡ w.head) × (x.body ≡ w.body)) (detect_protocol r).is_connect w _
      (refl, refl) (refl, refl)

sent-Has :
    (w : Out) (h : Header) → w.head ≡ some (200, h) → (status_of w ≡ 200) × (sent_header w ≡ h)
unfolding status_of
sent-Has w h e =
    let status : Option (ℕ × Header) → ℕ = λ head. elim head [ none ↦ 200 | some p ↦ p.0 ] in
    let header : Option (ℕ × Header) → Header =
      λ head. elim head [ none ↦ w.header | some p ↦ p.1 ] in
    (ap status e, ap header e)

response_head-clean :
    (r : Incoming) (ctx : Context)
    → ((response_head r ctx fresh).head ≡ none) × ((response_head r ctx fresh).body ≡ [])
unfolding response_head set_header
response_head-clean r ctx =
    let typed = set_header (str "Content-Type") (determine_content_type r) fresh in
    announced-clean (detect_protocol r).is_connect ctx.response_trailers
      (record typed { header = add_all [] ctx.response_headers typed.header })

status_invalid :
    (r : Incoming) (e : GoError)
    → (rpc_error r e).code ≡ code_invalid_argument
    → status_of (write_error r e fresh) ≡ (if is_connect_request r then 200 else 400)
unfolding http_status_code str_eq
status_invalid r e invalid = elim (Bool-cases (is_connect_request r)) [
  | inl connect ↦ rw connect (rw connect at (write_error-status r e))
  | inr plain ↦ rw plain ((rw plain at (write_error-status r e)).0 ∙ ap http_status_code invalid)
]

module _ {S I O Msg : Type 0} (m : Endpoint S I O Msg) (r : Incoming) where
  -- the response to an output that is encoded
  abbrev answer : Context → Str → Out
  answer ctx data' = with_trailers r ctx (
      sent (
        maybe_compress m.registry data'
          (contains (str "gzip") (get (str "Accept-Encoding") r.header))
          (response_head r ctx fresh)))

  encode_response-done :
      (output : O) (ctx : Context) (data' : Str)
      → encode_output m.output (determine_content_type r) output ≡ done data'
      → encode_response m r output ctx fresh ≡ (none, answer ctx data')
  unfolding encode_response response_body
  encode_response-done output ctx data' encodes =
      let can = contains (str "gzip") (get (str "Accept-Encoding") r.header) in
      ap
        (λ o.
          let x = response_body m.registry can o (response_head r ctx fresh) in
          (x.0, with_trailers r ctx x.1))
        encodes

  -- what the writer of an answer holds, by what was compressed
  answer-sent :
      (ctx : Context) (x : Str × Out)
      → x.1.head ≡ none
      → x.1.body ≡ []
      → let w = with_trailers r ctx (sent x) in
        (w.head ≡ some (200, x.1.header)) × (w.body ≡ raw x.0 ∷ [])
  unfolding sent write write_header commit
  answer-sent ctx (data', w) unsent empty =
      let (head, body) = with_trailers-clean r ctx (sent (data', w)) in
      (head ∙ ap (commit 200 w.header) unsent, body ∙ ap (λ b. b ++ raw data' ∷ []) empty)

  -- A call that is not of the gRPC protocol and succeeds: when the body is read, the input is decoded and valid, the chain
  -- of interceptors gives an output, which is encoded, the registered gzip compressor is lossless and the handler sets
  -- no Content-Encoding, then the response has the status 200 and the content type that is determined for the
  -- request, whatever headers and trailers the handler adds; its body is one chunk, which a client that decompresses
  -- by the header Content-Encoding reads as the encoded output, and which is not longer; and the state is the chain's.
  pub process_unary_request-done :
      (body : Reader) (whole : Str) (ctx ctx' : Context) (s s' : S) (i : I) (output : O)
      (data' : Str) (c : Compressor)
      → read_request_body m.registry m.read_failure r body ≡ done whole
      → process_input m.input (get (str "Content-Type") r.header) whole ≡ done i
      → call_handler m.name m.interceptors
          (m.handler (parse_request_timeout r (detect_protocol r).is_connect))
          i
          (ctx, s)
        ≡ (done output, (ctx', s'))
      → encode_output m.output (determine_content_type r) output ≡ done data'
      → get_compressor (str "gzip") m.registry ≡ some c
      → IsLossless c
      → get (str "Content-Encoding") (head_of r ctx') ≡ []
      → let (w, after) = process_unary_request m r body ctx fresh s in
        (status_of w ≡ 200)
        × (get (str "Content-Type") (sent_header w) ≡ determine_content_type r)
        × (chunk : Str) × (w.body ≡ raw chunk ∷ [])
        × (client_reads c (sent_header w) chunk ≡ done data')
        × (length chunk ≤ length data')
        × (after ≡ s')
  unfolding process_unary_request with_body called answered finished response_head
  process_unary_request-done body whole ctx ctx' s s' i output data' c reads decodes gives encodes
        found lossless clean =
      let whole_path =
        ap (λ o. with_body m r fresh o (ctx, s)) reads
        ∙ ap (λ o. called m r fresh o (ctx, s)) decodes
        ∙ ap (λ x. answered m r fresh x) gives
        ∙ ap (λ x. (finished m r x, s')) (encode_response-done output ctx' data' encodes) in
      let can = contains (str "gzip") (get (str "Accept-Encoding") r.header) in
      let start = response_head r ctx' fresh in
      let x = maybe_compress m.registry data' can start in
      let is = maybe_compress-IsReadable c lossless m.registry data' can start found clean in
      let fresh_head = response_head-clean r ctx' in
      let (head, one) = answer-sent ctx' x (is.head ∙ fresh_head.0) (is.body ∙ fresh_head.1) in
      let (status, header) = sent-Has (answer ctx' data') x.1.header head in
      let (vs, typed) = is.typed (determine_content_type r) (content_type-Has r ctx') in
      (
        ap (λ p. status_of p.0) whole_path ∙ status,
        ap (λ p. get (str "Content-Type") (sent_header p.0)) whole_path
            ∙ ap (get (str "Content-Type")) header
            ∙ get-Has (str "Content-Type") (determine_content_type r) x.1.header (vs, typed),
        x.0,
        ap (λ p. p.0.body) whole_path ∙ one,
        ap (λ p. client_reads c (sent_header p.0) x.0) whole_path
            ∙ ap (λ h. client_reads c h x.0) header
            ∙ is.reads,
        is.short,
        ap (λ p. p.1) whole_path,
      )

  -- A call whose body is read but not decoded to a valid input, of a method that is prepared: the handler is not called, the
  -- state is what it was, the error is an invalid argument, and the HTTP status is 400, or 200 in the Connect protocol.
  pub process_unary_request-bad_input :
      (body : Reader) (whole : Str) (ctx : Context) (s : S) (e : GoError)
      → IsPrepared m.input
      → read_request_body m.registry m.read_failure r body ≡ done whole
      → process_input m.input (get (str "Content-Type") r.header) whole ≡ failed e
      → let (w, after) = process_unary_request m r body ctx fresh s in
        (w ≡ write_error r e fresh)
        × ((rpc_error r e).code ≡ code_invalid_argument)
        × (status_of w ≡ (if is_connect_request r then 200 else 400))
        × (after ≡ s)
  unfolding process_unary_request with_body called
  process_unary_request-bad_input body whole ctx s e prepared reads fails =
      let path =
        ap (λ o. with_body m r fresh o (ctx, s)) reads
        ∙ ap (λ o. called m r fresh o (ctx, s)) fails in
      let invalid =
        process_input-IsInvalid m.input (get (str "Content-Type") r.header) whole e prepared fails
          r in
      (
        ap (λ p. p.0) path,
        invalid,
        ap (λ p. status_of p.0) path ∙ status_invalid r e invalid,
        ap (λ p. p.1) path,
      )

-- ===== src/Rpc/Stream/Answers.antt =====
-- What a client gets for a call of a server stream whose request is accepted, when all writes work.
use hyperway.Prelude.{
  ℕ, ◌≡◌, ◌≤◌, refl, sym, ap, ◌∙◌, ◌↔◌, true, false, Option, none, some, List, [], ◌∷◌, ◌++◌,
  append-nil, arith, length,
}
use hyperway.Prelude.Int.{pos}
use hyperway.Prelude.Str.{Str}
use hyperway.Prelude.Str.Numbers.{atoi}
use hyperway.Prelude.Str.Digits.{atoi-itoa}
use hyperway.Http.{fresh, status_of}
use hyperway.Gateway.Frames.{Frame, Reader, put_uint32}
use hyperway.Gateway.Frames.Requests.{all_bytes}
use hyperway.Gateway.GrpcWeb.Handler.Framed.{joined}
use hyperway.Rpc.Codes.Tables.{grpc_status_code_range}
use hyperway.Rpc.Errors.{GoError}
use hyperway.Rpc.Protocol.{Incoming, ProtocolInfo, raw}
use hyperway.Rpc.Context.{Context}
use hyperway.Rpc.Stream.{message_frame, stream_error}
use hyperway.Rpc.Stream.Handler.{
  StreamMethod, returned, closed, streamed, handle_server_stream_request,
}
use hyperway.Rpc.Stream.Channel.{frames}
use hyperway.Rpc.Stream.Ends.{raws, end_writes}
use hyperway.Rpc.Stream.Announced.{received_status}
use hyperway.Rpc.Stream.Calls.{
  IsAccepted, accepted-streamed, meant, left-meant, end_payload, end_status, closed-IsEnded,
  closed-grpc, closed-received, left-HasHead,
}

-- the frames of messages, each with the flag 0
abbrev pub messages : List Str → List Frame
messages [] = []
messages (data' ∷ more) = record { flag = 0; payload = data' } ∷ messages more

-- the chunks of a body with some messages and an end
abbrev chunks : List Str → Str → List Str
chunks [] payload = end_writes payload
chunks (data' ∷ more) payload = message_frame data' ∷ chunks more payload

frames-raws :
    (l : List Str) (payload : Str) → frames l ++ raws (end_writes payload) ≡ raws (chunks l payload)
frames-raws [] payload = refl
frames-raws (x ∷ l) payload = ap (λ b. raw (message_frame x) ∷ b) (frames-raws l payload)

joined-chunks :
    (l : List Str) (payload : Str)
    → joined (chunks l payload)
      ≡ all_bytes (messages l ++ record { flag = 2; payload = payload } ∷ [])
unfolding message_frame
joined-chunks [] payload =
    ap (λ b. 2 ∷ (put_uint32 (length payload) ++ b)) (append-nil payload)
    ∙ sym (append-nil (2 ∷ (put_uint32 (length payload) ++ payload)))
joined-chunks (x ∷ l) payload = ap (λ b. message_frame x ++ b) (joined-chunks l payload)

absurd_zero : {n : ℕ} → n ≡ 0 → 1 ≤ n → ⊥
absurd_zero e h = omega (arith, e, h)

module _ {I O Msg : Type 0} (m : StreamMethod I O Msg) (r : Incoming) (p : ProtocolInfo) where
  end_status_iff :
      (e : Option GoError) → (end_status m r p e ≤ 16) × ((end_status m r p e ≡ 0) ↔ (e ≡ none))
  end_status_iff none = (omega arith, ((λ h. refl), (λ h. refl)))
  end_status_iff (some err) =
      let (positive, small) = grpc_status_code_range (stream_error p err).code in
      (small, ((λ h. elim (absurd_zero h positive) [ ]), (λ h. cc)))

  -- A call of a server stream of the Connect protocol, whose request is accepted and whose writes all
  -- work, when the handler would send the given messages over a plain channel without a failure and then return
  -- nil or an error: the response has the status 200, and its bytes are a frame for each message, in their order, and
  -- one last frame with the flag 2 and the end of the stream, {} or the JSON of the error.
  pub handle_server_stream_request-connect :
      (ctx : Context) (reader : Reader) (i : I) (e : Option GoError) (taken : List Str)
      → p.is_connect ≡ true
      → IsAccepted m r p reader i
      → meant m r p i ≡ (returned e, record { taken = taken; failure = none })
      → let w = handle_server_stream_request m r p [] ctx reader fresh in
        let last : Frame = record { flag = 2; payload = end_payload m r p e } in
        (status_of w ≡ 200)
        × (l : List Str) × (w.body ≡ raws l)
        × (joined l ≡ all_bytes (messages taken ++ last ∷ []))
  unfolding streamed
  handle_server_stream_request-connect ctx reader i e taken connect ok means =
      let (s, leaves, sound, shown) = left-meant m r p ctx i e taken (rw connect refl) means in
      let whole = accepted-streamed m r p [] ctx reader i ok ∙ ap (closed m r p) leaves in
      let end = closed-IsEnded m r p e s connect sound shown.works shown.failure in
      let payload = end_payload m r p e in
      (
        ap status_of whole ∙ end.status,
        chunks taken payload,
        ap (λ w. w.body) whole
            ∙ end.body
            ∙ ap (λ b. b ++ raws (end_writes payload)) shown.body
            ∙ frames-raws taken payload,
        joined-chunks taken payload,
      )

  -- A call of a server stream of gRPC, whose request is accepted and whose writes all work, when the handler would send the
  -- given messages over a plain channel without a failure and then return nil or an error: the body has a frame for each
  -- message, in their order, and the status that the client reads, from the trailer grpc-status if the head that was sent
  -- announces it and else from that head, is, whatever headers and trailers the handler sets, 0 exactly when the handler
  -- returns nil, and else the number of the code of the error that is sent.
  pub handle_server_stream_request-grpc :
      (ctx : Context) (reader : Reader) (i : I) (e : Option GoError) (taken : List Str)
      → p.is_connect ≡ false
      → p.is_grpc ≡ true
      → IsAccepted m r p reader i
      → meant m r p i ≡ (returned e, record { taken = taken; failure = none })
      → let w = handle_server_stream_request m r p [] ctx reader fresh in
        (w.body ≡ frames taken)
        × (atoi (received_status w) ≡ some (pos (end_status m r p e)))
        × ((end_status m r p e ≡ 0) ↔ (e ≡ none))
  unfolding streamed
  handle_server_stream_request-grpc ctx reader i e taken plain grpc ok means =
      let (s, leaves, sound, shown) =
        left-meant m r p ctx i e taken (rw (plain, grpc) refl) means in
      let whole = accepted-streamed m r p [] ctx reader i ok ∙ ap (closed m r p) leaves in
      let (small, iff) = end_status_iff e in
      let (same, has) = closed-grpc m r p e s plain grpc shown.failure in
      let head = left-HasHead m r p [] ctx i (returned e) s plain grpc leaves in
      (
        ap (λ w. w.body) whole ∙ same ∙ shown.body,
        ap (λ w. atoi (received_status w)) whole
            ∙ ap atoi (closed-received m r p e s plain grpc shown.failure head)
            ∙ atoi-itoa (end_status m r p e) (omega (arith, small)),
        iff,
      )

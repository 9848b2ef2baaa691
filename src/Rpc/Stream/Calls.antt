-- ===== src/Rpc/Stream/Calls.antt =====
-- What a client gets for a call of a server stream.
use mathlib.Core.Path.{subst}
use hyperway.Prelude.{
  ℕ, ◌≡◌, refl, sym, ap, ◌∙◌, true, false, ◌||◌, Option, none, some, List, [], arith,
}
use hyperway.Prelude.Str.{Str, str, str_eq}
use hyperway.Prelude.Str.Numbers.{itoa}
use hyperway.Http.{canonical, fresh, get, set, set_header, write_header}
use hyperway.Http.Laws.{Has, get-Has, set-Has, set-Has_other, add_all-Has}
use hyperway.Gateway.Frames.{Reader}
use hyperway.Rpc.Codes.{grpc_status_code}
use hyperway.Rpc.Errors.{GoError, done}
use hyperway.Rpc.Protocol.{Incoming, ProtocolInfo, parse_request_timeout}
use hyperway.Rpc.Context.{Context}
use hyperway.Rpc.Input.{decode_input, validate_input}
use hyperway.Rpc.Stream.{
  Stream, encode_func, grpc_trailers, flush, send_grpc_trailers, stream_error, finalize_by,
  ensure_headers, send_error, finalize_unless, finalize, new_stream,
}
use hyperway.Rpc.Stream.Handler.{
  StreamMethod, Returned, returned, run, body, read_stream_request_body, read_decompressed, closed,
  streamed, validated, decoded, process_stream_request, with_body, handle_server_stream_request,
}
use hyperway.Rpc.Stream.Channel.{Channel, ideal, Shows, run-ideal}
use hyperway.Rpc.Stream.Sound.{IsSound, new_stream-IsSound, ensure_headers-body, run-IsSound}
use hyperway.Rpc.Stream.Announced.{
  HasHead, IsAnnounced, received_status, received_status-announced, flush-received,
  new_stream-HasHead, ensure_headers-IsAnnounced, run-HasHead,
}
use hyperway.Rpc.Stream.Ends.{IsEnded, finalize-IsEnded, send_error-IsEnded}

-- The request is a POST whose body is read and decompressed, decoded to the input, and valid.
pub record IsAccepted {I O Msg : Type 0} (m : StreamMethod I O Msg) (r : Incoming)
    (p : ProtocolInfo) (reader : Reader) (i : I) : Type 0 where
  pub post : str_eq r.method (str "POST") ≡ true
  pub whole : Str
  pub read :
      read_decompressed m.registry r (read_stream_request_body p m.read_failure reader) ≡ body whole
  pub decodes : decode_input m.input (get (str "Content-Type") r.header) whole ≡ done i
  pub valid : validate_input m.input i ≡ none

abbrev pub empty_channel : Channel
empty_channel = record { taken = []; failure = none }

module _ {I O Msg : Type 0} (m : StreamMethod I O Msg) (r : Incoming) (p : ProtocolInfo) where
  pub accepted-streamed :
      (results : List (Option GoError)) (ctx : Context) (reader : Reader) (i : I)
      → IsAccepted m r p reader i
      → handle_server_stream_request m r p results ctx reader fresh
        ≡ streamed m r p results ctx i fresh
  unfolding handle_server_stream_request with_body process_stream_request decoded validated
  accepted-streamed results ctx reader i ok = simp (ok.post) (
      ap (λ x. with_body m r p results ctx x fresh) ok.read
      ∙ ap (λ x. decoded m r p results ctx x fresh) ok.decodes
      ∙ ap (λ x. validated m r p results ctx i x fresh) ok.valid)

  -- the stream that a handler leaves
  abbrev pub left : List (Option GoError) → Context → I → Returned × Stream
  left results ctx i =
      run r p m.output (m.handler (parse_request_timeout r p.is_connect) i)
        (new_stream results ctx fresh)

  -- what the handler does with a plain channel
  abbrev pub meant : I → Returned × Channel
  meant i =
      ideal (encode_func p m.output) (m.handler (parse_request_timeout r p.is_connect) i)
        empty_channel

  pub left-meant :
      (ctx : Context) (i : I) (e : Option GoError) (taken : List Str)
      → (p.is_connect || p.is_grpc) ≡ true
      → meant i ≡ (returned e, record { taken = taken; failure = none })
      → (s : Stream) × (left [] ctx i ≡ (returned e, s))
        × IsSound p s
        × Shows [] s (record { taken = taken; failure = none })
  unfolding new_stream
  left-meant ctx i e taken framed means =
      let script = m.handler (parse_request_timeout r p.is_connect) i in
      let s = new_stream [] ctx fresh in
      let (same, shown) =
        run-ideal r p framed m.output [] script s empty_channel
          (record { works = refl; body = refl; count = refl; failure = refl }) in
      (
        (left [] ctx i).1,
        (λ k. ((same ∙ ap (λ x. x.0) means) k, (left [] ctx i).1)),
        run-IsSound r p m.output script s (new_stream-IsSound p [] ctx),
        subst (λ x. Shows [] (left [] ctx i).1 x.1) (means) shown,
      )

  -- the payload of the last frame of a Connect stream
  abbrev pub end_payload : Option GoError → Str
  end_payload none = str "{}"
  end_payload (some err) = let e = stream_error p err in m.error_json e.code e.message e.details

  -- the number in the trailer grpc-status
  abbrev pub end_status : Option GoError → ℕ
  end_status none = 0
  end_status (some err) = grpc_status_code (stream_error p err).code

  pub closed-IsEnded :
      (e : Option GoError) (s : Stream)
      → p.is_connect ≡ true
      → IsSound p s
      → s.results ≡ []
      → s.err ≡ none
      → IsEnded s (end_payload e) (closed m r p (returned e, s))
  unfolding closed
  closed-IsEnded none s connect ok works clear = finalize-IsEnded r p connect s ok works clear
  closed-IsEnded (some err) s connect ok works clear =
      send_error-IsEnded r p connect m.error_json err s ok works

  grpc_trailers-Has :
      (status message : Str) (s : Stream)
      → Has (str "grpc-status") status (grpc_trailers status message s).w.header
  unfolding grpc_trailers set_header canonical str_eq
  grpc_trailers-Has status message s =
      let k = str "grpc-status" in
      add_all-Has [] s.context.response_trailers k status
        (set (str "grpc-message") message (set k status s.w.header))
        (set-Has_other (str "grpc-message") message k status (set k status s.w.header) refl
          (set-Has k status s.w.header))

  finalize_by-grpc :
      (s : Stream)
      → p.is_connect ≡ false
      → p.is_grpc ≡ true
      → finalize_by p s ≡ grpc_trailers (str "0") [] s
  unfolding finalize_by
  finalize_by-grpc s plain grpc = ground arith

  send_error-grpc :
      (err : GoError) (s : Stream)
      → p.is_connect ≡ false
      → p.is_grpc ≡ true
      → send_error r p m.error_json err s
        ≡ send_grpc_trailers (stream_error p err) (record s { err = some err })
  unfolding send_error
  send_error-grpc err s plain grpc = ground arith

  -- what a gRPC stream has once its handler has returned
  pub closed-grpc :
      (e : Option GoError) (s : Stream)
      → p.is_connect ≡ false
      → p.is_grpc ≡ true
      → s.err ≡ none
      → let w = closed m r p (returned e, s) in
        (w.body ≡ s.w.body) × Has (str "grpc-status") (itoa (end_status e)) w.header
  unfolding closed finalize finalize_unless send_grpc_trailers grpc_trailers itoa set_header flush
      write_header
  closed-grpc none s plain grpc clear =
      let t = ensure_headers r p s in
      subst
        (λ err.
          let w = (finalize_unless r p s err).w in
          (w.body ≡ s.w.body) × Has (str "grpc-status") (str "0") w.header)
        (sym clear)
        (subst (λ x. (x.w.body ≡ s.w.body) × Has (str "grpc-status") (str "0") x.w.header)
          (sym (finalize_by-grpc t plain grpc))
          ((ensure_headers-body r p s).0, grpc_trailers-Has (str "0") [] t))
  closed-grpc (some err) s plain grpc clear =
      let e = stream_error p err in
      let s' = record s { err = some err } in
      let status = itoa (grpc_status_code e.code) in
      subst (λ x. (x.w.body ≡ s.w.body) × Has (str "grpc-status") status x.w.header)
        (sym (send_error-grpc err s plain grpc)) (refl, grpc_trailers-Has status e.message s')

  grpc_trailers-received :
      (status message : Str) (t : Stream)
      → IsAnnounced t.w
      → received_status (grpc_trailers status message t).w ≡ status
  unfolding grpc_trailers set_header
  grpc_trailers-received status message t announced =
      received_status-announced (grpc_trailers status message t).w announced
      ∙ get-Has (str "grpc-status") status (grpc_trailers status message t).w.header
          (grpc_trailers-Has status message t)

  send_grpc_trailers-received :
      (status message : Str) (s : Stream)
      → HasHead s
      → received_status (flush (grpc_trailers status message s)).w ≡ status
  unfolding grpc_trailers set_header
  send_grpc_trailers-received status message s ok =
      flush-received (grpc_trailers status message s)
        (record { sent = ok.sent; unsent = ok.unsent })
      ∙ get-Has (str "grpc-status") status (grpc_trailers status message s).w.header
          (grpc_trailers-Has status message s)

  -- what status the client of a gRPC stream reads once its handler has returned
  pub closed-received :
      (e : Option GoError) (s : Stream)
      → p.is_connect ≡ false
      → p.is_grpc ≡ true
      → s.err ≡ none
      → HasHead s
      → received_status (closed m r p (returned e, s)) ≡ itoa (end_status e)
  unfolding closed finalize finalize_unless send_grpc_trailers itoa
  closed-received none s plain grpc clear ok =
      let t = ensure_headers r p s in
      ap (λ err. received_status (finalize_unless r p s err).w) clear
      ∙ ap (λ x. received_status x.w) (finalize_by-grpc t plain grpc)
      ∙ grpc_trailers-received (str "0") [] t (ensure_headers-IsAnnounced r p plain grpc s ok).0
  closed-received (some err) s plain grpc clear ok =
      let e = stream_error p err in
      ap (λ x. received_status x.w) (send_error-grpc err s plain grpc)
      ∙ send_grpc_trailers-received (itoa (grpc_status_code e.code)) e.message
          (record s { err = some err }) (record { sent = ok.sent; unsent = ok.unsent })

  -- the stream that a handler leaves has a head that announces the trailers, or none
  pub left-HasHead :
      (results : List (Option GoError)) (ctx : Context) (i : I) (x : Returned) (s : Stream)
      → p.is_connect ≡ false
      → p.is_grpc ≡ true
      → left results ctx i ≡ (x, s)
      → HasHead s
  left-HasHead results ctx i x s plain grpc leaves =
      subst (λ y. HasHead y.1) (leaves)
        (run-HasHead r p plain grpc m.output (m.handler (parse_request_timeout r p.is_connect) i)
          (new_stream results ctx fresh) (new_stream-HasHead results ctx))

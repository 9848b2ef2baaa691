-- ===== src/Rpc/Stream/AlwaysOk.antt =====
-- The HTTP status of a call of a server stream.
use hyperway.Prelude.{
  ◌≡◌, refl, true, not, ◌&&◌, if_both, Bool-cases, inl, inr, Option, none, some, List, [], ◌∷◌,
  length, if◌then◌else◌,
}
use hyperway.Prelude.Str.{Str, str, str_eq}
use hyperway.Prelude.Str.Numbers.{itoa}
use hyperway.Http.{fresh, get, status_of}
use hyperway.Gateway.Frames.{Reader, put_uint32}
use hyperway.Rpc.Codes.{Code, grpc_status_code}
use hyperway.Rpc.Errors.{
  Error, Details, GoError, rpc, with_details, context_deadline_exceeded, context_canceled, other,
  Outcome, done, failed,
}
use hyperway.Rpc.Protocol.{
  Incoming, ProtocolInfo, Out, is_connect_request, rpc_error, write_error,
  handle_method_not_allowed,
}
use hyperway.Rpc.Context.{Context, set_response_header, set_response_trailer}
use hyperway.Rpc.Input.{validate_input, decode_input}
use hyperway.Rpc.Standard.{Encoder}
use hyperway.Rpc.Stream.{
  Stream, write_all, encode_func, flush, send_grpc_trailers, finalize_connect, message_writes,
  send_encoded, finalize_by, stream_error, ensure_headers, send_unless, send, send_connect_error,
  send_error, finalize_unless, finalize, new_stream,
}
use hyperway.Rpc.Stream.Handler.{
  Script, give, panic, send_then, header_then, trailer_then, StreamMethod, Returned, returned,
  panicked, run, Read, body, grpc_failure, failure, recovered, asserted, write_protocol_error,
  closed, streamed, validated, decoded, process_stream_request, with_body,
  handle_server_stream_request,
}
use hyperway.Rpc.Stream.Status.{
  write_header-IsFine, IsFine, write_grpc_error-IsFine, write_connect_error-IsFine,
  write_all-IsFine, counted-IsFine, ended-IsFine, connect_trailers-IsFine, grpc_trailers-IsFine,
  ensure_headers-IsFine,
}

-- the writes that end a Connect stream
abbrev ending : List Str
ending = (2 ∷ []) ∷ put_uint32 2 ∷ str "{}" ∷ []

send_encoded-IsFine :
    (p : ProtocolInfo) (encoded : Outcome Str) (s : Stream)
    → IsFine s.w
    → IsFine (send_encoded p encoded s).1.w
unfolding send_encoded
send_encoded-IsFine p (failed e) s fine = fine
send_encoded-IsFine p (done data') s fine =
    counted-IsFine (write_all (message_writes p data') s)
      (write_all-IsFine (message_writes p data') s fine)

module _ (r : Incoming) (p : ProtocolInfo) where
  send_unless-IsFine :
      (encoded : Outcome Str) (s : Stream) (err : Option GoError)
      → IsFine s.w
      → IsFine (send_unless r p encoded s err).1.w
  unfolding send_unless
  send_unless-IsFine encoded s (some e) fine = fine
  send_unless-IsFine encoded s none fine =
      send_encoded-IsFine p encoded (ensure_headers r p s) (ensure_headers-IsFine r p s fine)

  run-IsFine :
      {O : Type 0} (encoder : Encoder O) (script : Script O) (s : Stream)
      → IsFine s.w
      → IsFine (run r p encoder script s).1.w
  unfolding run send
  run-IsFine encoder (give e) s fine = fine
  run-IsFine encoder (panic value) s fine = fine
  run-IsFine encoder (send_then msg next) s fine =
      let sent = send r p (encode_func p encoder msg) s in
      run-IsFine encoder (next sent.0) sent.1
        (send_unless-IsFine (encode_func p encoder msg) s s.err fine)
  run-IsFine encoder (header_then k v next) s fine =
      run-IsFine encoder next (record s { context = set_response_header k v s.context }) fine
  run-IsFine encoder (trailer_then k v next) s fine =
      run-IsFine encoder next (record s { context = set_response_trailer k v s.context }) fine

  finalize_by-IsFine : (s : Stream) → IsFine s.w → IsFine (finalize_by p s).w
  unfolding finalize_by finalize_connect
  finalize_by-IsFine s fine = elim (Bool-cases (p.is_connect && not s.connect_ended)) [
    | inl connect ↦
        simp (connect)
          (connect_trailers-IsFine (write_all ending s) (write_all-IsFine ending s fine))
    | inr plain ↦ elim (Bool-cases p.is_grpc) [
      | inl grpc ↦ simp (plain, grpc) (grpc_trailers-IsFine (str "0") [] s fine)
      | inr neither ↦ simp (plain, neither) fine
    ]
  ]

  finalize_unless-IsFine :
      (s : Stream) (err : Option GoError) → IsFine s.w → IsFine (finalize_unless r p s err).w
  unfolding finalize_unless
  finalize_unless-IsFine s (some e) fine = fine
  finalize_unless-IsFine s none fine =
      finalize_by-IsFine (ensure_headers r p s) (ensure_headers-IsFine r p s fine)

  send_connect_error-IsFine :
      (payload : Str) (s : Stream) → IsFine s.w → IsFine (send_connect_error r p payload s).w
  unfolding send_connect_error
  send_connect_error-IsFine payload s fine =
      let writes = (2 ∷ []) ∷ put_uint32 (length payload) ∷ payload ∷ [] in
      let t = ensure_headers r p s in
      ended-IsFine (write_all writes t)
        (write_all-IsFine writes t (ensure_headers-IsFine r p s fine))

  send_grpc_trailers-IsFine :
      (e : Error) (s : Stream) → IsFine s.w → IsFine (send_grpc_trailers e s).w
  unfolding send_grpc_trailers flush
  send_grpc_trailers-IsFine e s fine =
      write_header-IsFine _ (grpc_trailers-IsFine (itoa (grpc_status_code e.code)) e.message s fine)

  send_error-IsFine :
      (error_json : Code → Str → Option Details → Str) (err : GoError) (s : Stream)
      → IsFine s.w
      → IsFine (send_error r p error_json err s).w
  unfolding send_error
  send_error-IsFine error_json err s fine =
      let e = stream_error p err in
      let s' = record s { err = some err } in
      let payload = error_json e.code e.message e.details in
      if_both (λ (t : Stream). IsFine t.w) p.is_connect (send_connect_error r p payload s')
        (if p.is_grpc then send_grpc_trailers e s' else s')
        (send_connect_error-IsFine payload s' fine)
        (if_both (λ (t : Stream). IsFine t.w) p.is_grpc (send_grpc_trailers e s') s'
          (send_grpc_trailers-IsFine e s' fine) fine)

module _ (r : Incoming) (connect : is_connect_request r ≡ true) where
  write_error-IsFine : (e : GoError) (w : Out) → IsFine w → IsFine (write_error r e w)
  unfolding write_error
  write_error-IsFine e w fine = rw connect (write_connect_error-IsFine r (rpc_error r e) w fine)

  module _ {I O Msg : Type 0} (m : StreamMethod I O Msg) (p : ProtocolInfo) where
    asserted-IsFine : (e : GoError) (w : Out) → IsFine w → IsFine (asserted m r p e w)
    unfolding asserted recovered
    asserted-IsFine (rpc e) w fine = write_grpc_error-IsFine (rpc e) w fine
    asserted-IsFine (with_details e) w fine = write_error-IsFine _ w fine
    asserted-IsFine context_deadline_exceeded w fine = write_error-IsFine _ w fine
    asserted-IsFine context_canceled w fine = write_error-IsFine _ w fine
    asserted-IsFine (other s) w fine = write_error-IsFine _ w fine

    write_protocol_error-IsFine :
        (e : GoError) (w : Out) → IsFine w → IsFine (write_protocol_error m r p e w)
    unfolding write_protocol_error
    write_protocol_error-IsFine e w fine = elim (Bool-cases p.is_grpc) [
      | inl grpc ↦ rw grpc (asserted-IsFine e w fine)
      | inr plain ↦ rw plain (write_error-IsFine e w fine)
    ]

    closed-IsFine : (x : Returned × Stream) → IsFine x.1.w → IsFine (closed m r p x)
    unfolding closed finalize recovered
    closed-IsFine (returned none, s) fine = finalize_unless-IsFine r p s s.err fine
    closed-IsFine (returned (some e), s) fine = send_error-IsFine r p m.error_json e s fine
    closed-IsFine (panicked value, s) fine = write_error-IsFine _ s.w fine

    validated-IsFine :
        (results : List (Option GoError)) (ctx : Context) (i : I) (e : Option GoError)
        → IsFine (validated m r p results ctx i e fresh)
    unfolding validated streamed new_stream status_of
    validated-IsFine results ctx i (some e) = write_protocol_error-IsFine e fresh refl
    validated-IsFine results ctx i none =
        closed-IsFine (run r p m.output _ (new_stream results ctx fresh))
          (run-IsFine r p m.output _ (new_stream results ctx fresh) refl)

    decoded-IsFine :
        (results : List (Option GoError)) (ctx : Context) (o : Outcome I)
        → IsFine (decoded m r p results ctx o fresh)
    unfolding decoded status_of
    decoded-IsFine results ctx (failed e) = write_protocol_error-IsFine e fresh refl
    decoded-IsFine results ctx (done i) = validated-IsFine results ctx i (validate_input m.input i)

    with_body-IsFine :
        (results : List (Option GoError)) (ctx : Context) (x : Read)
        → IsFine (with_body m r p results ctx x fresh)
    unfolding with_body process_stream_request status_of
    with_body-IsFine results ctx (body whole) =
        decoded-IsFine results ctx (decode_input m.input (get (str "Content-Type") r.header) whole)
    with_body-IsFine results ctx (grpc_failure e) = write_grpc_error-IsFine (rpc e) fresh refl
    with_body-IsFine results ctx (failure e) = write_error-IsFine e fresh refl

    -- A call of a server stream of the Connect protocol has the HTTP status 200, whatever the request, the handler, its
    -- panics, and the writes that fail: an error is never told by the status.
    pub handle_server_stream_request-status :
        (results : List (Option GoError)) (ctx : Context) (reader : Reader)
        → p.is_connect ≡ true
        → status_of (handle_server_stream_request m r p results ctx reader fresh) ≡ 200
    unfolding handle_server_stream_request handle_method_not_allowed status_of
    handle_server_stream_request-status results ctx reader by_connect =
        elim (Bool-cases (str_eq r.method (str "POST"))) [
          | inl post ↦ rw post (with_body-IsFine results ctx _)
          | inr no_post ↦ rw (no_post, by_connect) (write_connect_error-IsFine r _ fresh refl)
        ]

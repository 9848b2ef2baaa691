-- ===== src/Rpc/Stream/Sound.antt =====
-- What holds of a stream writer whatever a handler does with it, and whatever its writes give.
use hyperway.Prelude.{
  ◌≡◌, refl, ap, ◌∙◌, true, false, Bool-cases, inl, inr, Option, none, some, List, [], ◌∷◌, arith,
  length, length-append,
}
use hyperway.Prelude.Str.{Str}
use hyperway.Http.{set_header, write_header, write, commit, fresh, add_all}
use hyperway.Rpc.Errors.{GoError, Outcome, done, failed}
use hyperway.Rpc.Protocol.{Incoming, ProtocolInfo, raw, Out}
use hyperway.Rpc.Context.{Context, set_response_header, set_response_trailer}
use hyperway.Rpc.Standard.{Encoder}
use hyperway.Rpc.Stream.{
  Stream, wrote, write_bytes, write_all, message_frame, encode_func, message_writes, counted,
  send_encoded, typed, send_headers, ensure_headers, send_unless, send, new_stream,
}
use hyperway.Rpc.Stream.Handler.{Script, give, panic, send_then, header_then, trailer_then, run}
use hyperway.Rpc.Stream.Channel.{IsFramed, message_writes-framed, write_all-single}
use hyperway.Rpc.Stream.Kept.{IsSent, write_all-Kept}

-- A stream before its end: the head is sent exactly when the writer says so, with the status 200, and before that there
-- is no error and no message; in Connect and gRPC the body has one chunk for each message that is counted.
pub record IsSound (p : ProtocolInfo) (s : Stream) : Type 0 where
  pub live : s.connect_ended ≡ false
  pub sent : s.headers_sent ≡ true → IsSent s.w
  pub unsent : s.headers_sent ≡ false → (s.w.head ≡ none) × (s.err ≡ none) × (s.message_count ≡ 0)
  pub counted : IsFramed p → length s.w.body ≡ s.message_count

pub new_stream-IsSound :
    (p : ProtocolInfo) (results : List (Option GoError)) (ctx : Context)
    → IsSound p (new_stream results ctx fresh)
unfolding new_stream
new_stream-IsSound p results ctx = record {
  live = refl;
  sent = λ e. cc;
  unsent = λ e. (refl, refl, refl);
  counted = λ f. refl;
}

module _ (r : Incoming) (p : ProtocolInfo) where
  pub typed-head : (w : Out) → (typed r p w).head ≡ w.head
  unfolding typed set_header
  typed-head w = ground arith

  pub typed-body : (w : Out) → (typed r p w).body ≡ w.body
  unfolding typed set_header
  typed-body w = ground arith

  send_headers-IsSent : (ctx : Context) (w : Out) → w.head ≡ none → IsSent (send_headers r p ctx w)
  unfolding send_headers write_header commit
  send_headers-IsSent ctx w unsent =
      (add_all [] ctx.response_headers (typed r p w).header, rw (typed-head w, unsent) refl)

  pub ensure_headers-body :
      (s : Stream)
      → ((ensure_headers r p s).w.body ≡ s.w.body) × ((ensure_headers r p s).results ≡ s.results)
  unfolding ensure_headers send_headers write_header
  ensure_headers-body s = elim (Bool-cases s.headers_sent) [
    | inl sent ↦ simp (sent) (refl, refl)
    | inr unsent ↦ simp (unsent) (typed-body s.w, refl)
  ]

  -- whatever the error of the stream is
  pub ensure_headers-IsSent :
      (s : Stream) (err : Option GoError)
      → IsSound p s
      → IsSent (ensure_headers r p (record s { err = err })).w
  unfolding ensure_headers
  ensure_headers-IsSent s err ok = elim (Bool-cases s.headers_sent) [
    | inl sent ↦ simp (sent) (ok.sent sent)
    | inr unsent ↦ simp (unsent) (send_headers-IsSent s.context s.w (ok.unsent unsent).0)
  ]

  pub ensure_headers-IsSound :
      (s : Stream)
      → IsSound p s
      → IsSound p (ensure_headers r p s) × ((ensure_headers r p s).headers_sent ≡ true)
  unfolding ensure_headers send_headers write_header
  ensure_headers-IsSound s ok = elim (Bool-cases s.headers_sent) [
    | inl sent ↦ simp (sent) (ok, refl)
    | inr unsent ↦ simp (unsent) (
      record {
        live = ok.live;
        sent = λ e. send_headers-IsSent s.context s.w (ok.unsent unsent).0;
        unsent = λ e. cc;
        counted = λ f. ap length (typed-body s.w) ∙ ok.counted f;
      },
      refl,
    )
  ]

  wrote-counts :
      (data' : Str) (s : Stream) (results : List (Option GoError))
      → length s.w.body ≡ s.message_count
      → let after = (counted (wrote data' s results)).1 in length after.w.body ≡ after.message_count
  unfolding wrote counted write write_header
  wrote-counts data' s [] e = omega (arith, e, length-append s.w.body (raw data' ∷ []))
  wrote-counts data' s (none ∷ more) e = omega (arith, e, length-append s.w.body (raw data' ∷ []))
  wrote-counts data' s (some x ∷ more) e = e

  pub counted-Kept :
      (x : Option GoError × Stream)
      → ((counted x).1.connect_ended ≡ x.1.connect_ended)
        × ((counted x).1.headers_sent ≡ x.1.headers_sent)
        × ((counted x).1.w ≡ x.1.w)
  unfolding counted
  counted-Kept (none, s) = (refl, refl, refl)
  counted-Kept (some e, s) = (refl, refl, refl)

  send_encoded-IsSound :
      (encoded : Outcome Str) (s : Stream)
      → IsSound p s
      → s.headers_sent ≡ true
      → IsSound p (send_encoded p encoded s).1
  unfolding send_encoded write_bytes
  send_encoded-IsSound (failed e) s ok started = record {
    live = ok.live;
    sent = ok.sent;
    unsent = λ h. cc;
    counted = ok.counted;
  }
  send_encoded-IsSound (done data') s ok started =
      let kept = write_all-Kept (message_writes p data') s in
      let x = write_all (message_writes p data') s in
      let (live, flag, same) = counted-Kept x in
      record {
        live = live ∙ kept.live ∙ ok.live;
        sent = λ h. rw same (kept.sent (ok.sent started));
        unsent = λ h. cc;
        counted = λ f.
            rw (message_writes-framed r p f data', write_all-single r p f (message_frame data') s)
              (wrote-counts (message_frame data') s s.results (ok.counted f));
      }

  send_unless-IsSound :
      (encoded : Outcome Str) (s : Stream) (err : Option GoError)
      → IsSound p s
      → IsSound p (send_unless r p encoded s err).1
  unfolding send_unless
  send_unless-IsSound encoded s (some e) ok = ok
  send_unless-IsSound encoded s none ok =
      let (started, flag) = ensure_headers-IsSound s ok in
      send_encoded-IsSound encoded (ensure_headers r p s) started flag

  -- Whatever a handler does with its stream and whatever the writes give, the head is sent with the status 200, once
  -- the writer says so and not before, no error or message comes before the head, and the body of a Connect or
  -- gRPC stream has as many chunks as messages are counted.
  pub run-IsSound :
      {O : Type 0} (encoder : Encoder O) (script : Script O) (s : Stream)
      → IsSound p s
      → IsSound p (run r p encoder script s).1
  unfolding run send
  run-IsSound encoder (give e) s ok = ok
  run-IsSound encoder (panic value) s ok = ok
  run-IsSound encoder (send_then msg next) s ok =
      let sent = send r p (encode_func p encoder msg) s in
      run-IsSound encoder (next sent.0) sent.1
        (send_unless-IsSound (encode_func p encoder msg) s s.err ok)
  run-IsSound encoder (header_then k v next) s ok =
      run-IsSound encoder next (record s { context = set_response_header k v s.context })
        (record { live = ok.live; sent = ok.sent; unsent = ok.unsent; counted = ok.counted })
  run-IsSound encoder (trailer_then k v next) s ok =
      run-IsSound encoder next (record s { context = set_response_trailer k v s.context })
        (record { live = ok.live; sent = ok.sent; unsent = ok.unsent; counted = ok.counted })

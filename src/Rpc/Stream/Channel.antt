-- ===== src/Rpc/Stream/Channel.antt =====
-- The stream writer against a plain channel, which takes messages until one is not encoded.
use hyperway.Prelude.{
  ◌≡◌, refl, sym, ap, ◌∙◌, true, Bool-cases, inl, inr, ◌||◌, Option, none, some, List, [], ◌∷◌,
  ◌++◌, append_assoc, arith, length, length-append,
}
use hyperway.Prelude.Str.{Str}
use mathlib.Core.Path.{subst}
use hyperway.Http.{set_header, write_header, write}
use hyperway.Rpc.Errors.{GoError, Outcome, done, failed}
use hyperway.Rpc.Protocol.{Incoming, ProtocolInfo, ErrorBody, raw, Out}
use hyperway.Rpc.Context.{Context, set_response_header, set_response_trailer}
use hyperway.Rpc.Standard.{Encoder}
use hyperway.Rpc.Stream.{
  Stream, and_then, wrote, write_bytes, write_all, message_frame, encode_func, typed, send_headers,
  ensure_headers, message_writes, counted, send_encoded, send_unless, send,
}
use hyperway.Rpc.Stream.Handler.{
  Script, give, panic, send_then, header_then, trailer_then, Returned, returned, panicked, run,
}

-- The messages that were taken, and the error that every later message gets.
pub record Channel : Type 0 where
  pub taken : List Str
  pub failure : Option GoError

unfoldable pub offer_to : Outcome Str → Channel → Option GoError → Option GoError × Channel
offer_to encoded c (some e) = (some e, c)
offer_to (failed e) c none = (some e, record c { failure = some e })
offer_to (done data') c none = (none, record c { taken = c.taken ++ data' ∷ [] })

unfoldable pub offer : Outcome Str → Channel → Option GoError × Channel
unfolding offer_to
offer encoded c = offer_to encoded c c.failure

-- what a handler does with a channel; headers and trailers are not the channel's
unfoldable pub ideal : {O : Type 0} → (O → Outcome Str) → Script O → Channel → Returned × Channel
unfolding offer
ideal encode (give e) c = (returned e, c)
ideal encode (panic value) c = (panicked value, c)
ideal encode (send_then msg next) c =
    let (e, after) = offer (encode msg) c in ideal encode (next e) after
ideal encode (header_then k v next) c = ideal encode next c
ideal encode (trailer_then k v next) c = ideal encode next c

-- the body of the frames of some messages
abbrev pub frames : List Str → List ErrorBody
frames [] = []
frames (data' ∷ more) = raw (message_frame data') ∷ frames more

frames-append : (a b : List Str) → frames (a ++ b) ≡ frames a ++ frames b
frames-append [] b = refl
frames-append (x ∷ a) b = ap (λ l. raw (message_frame x) ∷ l) (frames-append a b)

-- A stream that shows a channel: all writes work, the body is that of `before` and then a frame for
-- each message, which are counted.
pub record Shows (before : List ErrorBody) (s : Stream) (c : Channel) : Type 0 where
  pub works : s.results ≡ []
  pub body : s.w.body ≡ before ++ frames c.taken
  pub count : s.message_count ≡ length c.taken
  pub failure : s.err ≡ c.failure

abbrev pub IsFramed : ProtocolInfo → Type 0
IsFramed p = (p.is_connect || p.is_grpc) ≡ true

module _ (r : Incoming) (p : ProtocolInfo) (framed : IsFramed p) where
  pub message_writes-framed : (data' : Str) → message_writes p data' ≡ message_frame data' ∷ []
  unfolding message_writes
  message_writes-framed data' = ground arith

  typed-body : (w : Out) → (typed r p w).body ≡ w.body
  unfolding typed set_header
  typed-body w = ground arith

  send_headers-body : (ctx : Context) (w : Out) → (send_headers r p ctx w).body ≡ w.body
  unfolding send_headers write_header
  send_headers-body ctx w = typed-body w

  pub ensure_headers-Shows :
      (before : List ErrorBody) (s : Stream) (c : Channel)
      → Shows before s c
      → Shows before (ensure_headers r p s) c
  unfolding ensure_headers
  ensure_headers-Shows before s c sh = elim (Bool-cases s.headers_sent) [
    | inl sent ↦ simp (sent) sh
    | inr fresh ↦ simp (fresh) (record {
      works = sh.works;
      body = send_headers-body s.context s.w ∙ sh.body;
      count = sh.count;
      failure = sh.failure;
    })
  ]

  pub write_all-single : (data' : Str) (s : Stream) → write_all (data' ∷ []) s ≡ write_bytes data' s
  unfolding write_all
  write_all-single data' s = stops (write_bytes data' s)
    where
      stops : (x : Option GoError × Stream) → and_then x (write_all []) ≡ x
      stops (none, s) = refl
      stops (some e, s) = refl

  wrote-Shows :
      (before : List ErrorBody) (data' : Str) (s : Stream) (c : Channel)
      → Shows before s c
      → (results : List (Option GoError)) → results ≡ []
      → let after = counted (wrote (message_frame data') s results) in
        (after.0 ≡ none) × Shows before after.1 (record c { taken = c.taken ++ data' ∷ [] })
  unfolding counted wrote write write_header
  wrote-Shows before data' s c sh [] e = (
    refl,
    record {
      works = sh.works;
      body =
          ap (λ l. l ++ raw (message_frame data') ∷ []) sh.body
          ∙ append_assoc before (frames c.taken) (frames (data' ∷ []))
          ∙ ap (λ l. before ++ l) (sym (frames-append c.taken (data' ∷ [])));
      count = omega (arith, sh.count, length-append c.taken (data' ∷ []));
      failure = sh.failure;
    },
  )
  wrote-Shows before data' s c sh (x ∷ xs) e = cc

  send_encoded-Shows :
      (before : List ErrorBody) (encoded : Outcome Str) (s : Stream) (c : Channel)
      → Shows before s c
      → let after = send_encoded p encoded s in
        let after' = offer_to encoded c none in (after.0 ≡ after'.0) × Shows before after.1 after'.1
  unfolding send_encoded offer_to write_bytes
  send_encoded-Shows before (failed e) s c sh =
      (refl, record { works = sh.works; body = sh.body; count = sh.count; failure = refl })
  send_encoded-Shows before (done data') s c sh =
      rw (message_writes-framed data', write_all-single (message_frame data') s)
        (wrote-Shows before data' s c sh s.results sh.works)

  send_unless-Shows :
      (before : List ErrorBody) (encoded : Outcome Str) (s : Stream) (c : Channel)
      (err : Option GoError)
      → Shows before s c
      → let after = send_unless r p encoded s err in
        let after' = offer_to encoded c err in (after.0 ≡ after'.0) × Shows before after.1 after'.1
  unfolding send_unless offer_to
  send_unless-Shows before encoded s c none sh =
      send_encoded-Shows before encoded (ensure_headers r p s) c
        (ensure_headers-Shows before s c sh)
  send_unless-Shows before encoded s c (some e) sh = (refl, sh)

  send-Shows :
      (before : List ErrorBody) (encoded : Outcome Str) (s : Stream) (c : Channel)
      → Shows before s c
      → let after = send r p encoded s in
        let after' = offer encoded c in (after.0 ≡ after'.0) × Shows before after.1 after'.1
  unfolding send offer
  send-Shows before encoded s c sh =
      subst
        (λ err.
          ((send_unless r p encoded s s.err).0 ≡ (offer_to encoded c err).0)
          × Shows before (send_unless r p encoded s s.err).1 (offer_to encoded c err).1)
        (sh.failure) (send_unless-Shows before encoded s c s.err sh)

  -- Over a connection whose writes all work, a handler that runs with the stream writer of a Connect or gRPC call
  -- does what it does with the plain channel: it returns the same, the messages that the channel took are
  -- the frames of the body in their order and are counted, and the error is the channel's.
  pub run-ideal :
      {O : Type 0} (encoder : Encoder O) (before : List ErrorBody) (script : Script O) (s : Stream)
      (c : Channel)
      → Shows before s c
      → let after = run r p encoder script s in
        let after' = ideal (encode_func p encoder) script c in
        (after.0 ≡ after'.0) × Shows before after.1 after'.1
  unfolding run ideal
  run-ideal encoder before (give e) s c sh = (refl, sh)
  run-ideal encoder before (panic value) s c sh = (refl, sh)
  run-ideal encoder before (send_then msg next) s c sh =
      let (same, shown) = send-Shows before (encode_func p encoder msg) s c sh in
      let sent = send r p (encode_func p encoder msg) s in
      let taken = offer (encode_func p encoder msg) c in
      subst
        (λ e.
          let after = run r p encoder (next sent.0) sent.1 in
          let after' = ideal (encode_func p encoder) (next e) taken.1 in
          (after.0 ≡ after'.0) × Shows before after.1 after'.1)
        (same) (run-ideal encoder before (next sent.0) sent.1 taken.1 shown)
  run-ideal encoder before (header_then k v next) s c sh =
      run-ideal encoder before next (record s { context = set_response_header k v s.context }) c
        (record { works = sh.works; body = sh.body; count = sh.count; failure = sh.failure })
  run-ideal encoder before (trailer_then k v next) s c sh =
      run-ideal encoder before next (record s { context = set_response_trailer k v s.context }) c
        (record { works = sh.works; body = sh.body; count = sh.count; failure = sh.failure })

-- ===== src/Rpc/Stream/Announced.antt =====
-- What the head of a gRPC stream announces, and what status its client reads.
use hyperway.Prelude.{
  ℕ, ◌≡◌, refl, ap, ◌∙◌, true, false, Bool-cases, inl, inr, Option, none, some, List, [],
  if◌then◌else◌, if_both,
}
use hyperway.Prelude.Str.{Str, str, contains, has_prefix}
use hyperway.Http.{Header, set_header, write_header, commit, fresh, get, add_all}
use hyperway.Http.Laws.{Has, get-Has, set-Has, add_all-Has}
use hyperway.Rpc.Errors.{GoError, Outcome, done, failed}
use hyperway.Rpc.Protocol.{Incoming, ProtocolInfo, Out}
use hyperway.Rpc.Context.{Context, set_response_header, set_response_trailer}
use hyperway.Rpc.Standard.{Encoder}
use hyperway.Rpc.Stream.{
  Stream, write_all, encode_func, message_writes, send_encoded, typed, send_headers, ensure_headers,
  send_unless, send, new_stream, flush,
}
use hyperway.Rpc.Stream.Handler.{Script, give, panic, send_then, header_then, trailer_then, run}
use hyperway.Rpc.Stream.Kept.{write_all-Kept}
use hyperway.Rpc.Stream.Sound.{typed-head, counted-Kept}

received_at : Option (ℕ × Header) → Header → Str
received_at none header = get (str "grpc-status") header
received_at (some sent) header =
    if contains (str "grpc-status") (get (str "Trailer") sent.1)
    then get (str "grpc-status") header
    else get (str "grpc-status") sent.1

-- The status that a gRPC client reads: the trailer of this name, where the head that was sent announces it, and else what
-- the head has under this name.
unfoldable pub received_status : Out → Str
unfolding received_at
received_status w = received_at w.head w.header

abbrev announcement : Str
announcement = str "grpc-status, grpc-message"

-- the head was sent, and it announces the trailers
abbrev pub IsAnnounced : Out → Type 0
IsAnnounced w =
    (h : Header) × (w.head ≡ some (200, h))
    × Has (str "Trailer") (str "grpc-status, grpc-message") h

pub received_status-announced :
    (w : Out) → IsAnnounced w → received_status w ≡ get (str "grpc-status") w.header
unfolding received_status received_at contains has_prefix
received_status-announced w (h, sent, has) =
    ap (λ x. received_at x w.header) sent
    ∙ ap
        (λ t.
          if contains (str "grpc-status") t
          then get (str "grpc-status") w.header
          else get (str "grpc-status") h)
        (get-Has (str "Trailer") announcement h has)

pub received_status-head :
    (w : Out) → w.head ≡ some (200, w.header) → received_status w ≡ get (str "grpc-status") w.header
unfolding received_status received_at
received_status-head w sent =
    ap (λ x. received_at x w.header) sent
    ∙ if_both (λ (x : Str). x ≡ get (str "grpc-status") w.header)
        (contains (str "grpc-status") (get (str "Trailer") w.header)) _ _ refl refl

-- The head is announced once the writer says that it is sent, and is not sent before.
pub record HasHead (s : Stream) : Type 0 where
  pub sent : s.headers_sent ≡ true → IsAnnounced s.w
  pub unsent : s.headers_sent ≡ false → s.w.head ≡ none

pub new_stream-HasHead :
    (results : List (Option GoError)) (ctx : Context) → HasHead (new_stream results ctx fresh)
unfolding new_stream
new_stream-HasHead results ctx = record { sent = λ e. cc; unsent = λ e. refl }

-- a flush sends a head that announces the trailers, or has them
pub flush-received :
    (s : Stream) → HasHead s → received_status (flush s).w ≡ get (str "grpc-status") s.w.header
unfolding flush write_header commit
flush-received s ok = elim (Bool-cases s.headers_sent) [
  | inl sent ↦
      let (h, e, has) = ok.sent sent in
      received_status-announced (write_header 200 s.w) (h, ap (commit 200 s.w.header) e, has)
  | inr unsent ↦
      received_status-head (write_header 200 s.w) (ap (commit 200 s.w.header) (ok.unsent unsent))
]

module _ (r : Incoming) (p : ProtocolInfo) (plain : p.is_connect ≡ false)
    (grpc : p.is_grpc ≡ true) where
  typed-Has : (w : Out) → Has (str "Trailer") announcement (typed r p w).header
  unfolding typed set_header
  typed-Has w = rw (plain, grpc) (set-Has (str "Trailer") announcement _)

  send_headers-IsAnnounced :
      (ctx : Context) (w : Out) → w.head ≡ none → IsAnnounced (send_headers r p ctx w)
  unfolding send_headers write_header commit
  send_headers-IsAnnounced ctx w unsent = (
    add_all [] ctx.response_headers (typed r p w).header,
    rw (typed-head r p w, unsent) refl,
    add_all-Has [] ctx.response_headers (str "Trailer") announcement (typed r p w).header
        (typed-Has w),
  )

  pub ensure_headers-IsAnnounced :
      (s : Stream)
      → HasHead s
      → IsAnnounced (ensure_headers r p s).w × ((ensure_headers r p s).headers_sent ≡ true)
  unfolding ensure_headers
  ensure_headers-IsAnnounced s ok = elim (Bool-cases s.headers_sent) [
    | inl sent ↦ simp (sent) (ok.sent sent, refl)
    | inr unsent ↦ simp (unsent) (send_headers-IsAnnounced s.context s.w (ok.unsent unsent), refl)
  ]

  send_encoded-HasHead :
      (encoded : Outcome Str) (s : Stream)
      → IsAnnounced s.w
      → s.headers_sent ≡ true
      → HasHead (send_encoded p encoded s).1
  unfolding send_encoded
  send_encoded-HasHead (failed e) s ok started = record { sent = λ h. ok; unsent = λ h. cc }
  send_encoded-HasHead (done data') s (head, e, has) started =
      let x = write_all (message_writes p data') s in
      let kept = write_all-Kept (message_writes p data') s in
      let (_, flag, same) = counted-Kept r p x in
      record {
        sent = λ h. rw same (head, kept.head (200, head) e, has);
        unsent = λ h. cc (flag, kept.flag, started, h);
      }

  send_unless-HasHead :
      (encoded : Outcome Str) (s : Stream) (err : Option GoError)
      → HasHead s
      → HasHead (send_unless r p encoded s err).1
  unfolding send_unless
  send_unless-HasHead encoded s (some e) ok = ok
  send_unless-HasHead encoded s none ok =
      let (announced, started) = ensure_headers-IsAnnounced s ok in
      send_encoded-HasHead encoded (ensure_headers r p s) announced started

  pub run-HasHead :
      {O : Type 0} (encoder : Encoder O) (script : Script O) (s : Stream)
      → HasHead s
      → HasHead (run r p encoder script s).1
  unfolding run send
  run-HasHead encoder (give e) s ok = ok
  run-HasHead encoder (panic value) s ok = ok
  run-HasHead encoder (send_then msg next) s ok =
      let sent = send r p (encode_func p encoder msg) s in
      run-HasHead encoder (next sent.0) sent.1
        (send_unless-HasHead (encode_func p encoder msg) s s.err ok)
  run-HasHead encoder (header_then k v next) s ok =
      run-HasHead encoder next (record s { context = set_response_header k v s.context })
        (record { sent = ok.sent; unsent = ok.unsent })
  run-HasHead encoder (trailer_then k v next) s ok =
      run-HasHead encoder next (record s { context = set_response_trailer k v s.context })
        (record { sent = ok.sent; unsent = ok.unsent })

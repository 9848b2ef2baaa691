-- ===== src/Rpc/Stream/Ends.antt =====
-- How a stream ends, when all writes work.
use hyperway.Prelude.{
  ℕ, ◌≡◌, refl, sym, ap, ◌∙◌, true, false, Option, none, some, List, [], ◌∷◌, ◌++◌, append_assoc,
  append-nil, arith, length,
}
use mathlib.Core.Path.{subst}
use hyperway.Prelude.Str.{Str, str}
use hyperway.Http.{Header, write_header, write, status_of}
use hyperway.Gateway.Frames.{put_uint32}
use hyperway.Rpc.Codes.{Code}
use hyperway.Rpc.Errors.{GoError, Details}
use hyperway.Rpc.Protocol.{Incoming, ProtocolInfo, ErrorBody, raw, Out}
use hyperway.Rpc.Stream.{
  Stream, wrote, write_bytes, and_then, write_all, ended, connect_trailers, finalize_connect,
  stream_error, finalize_by, ensure_headers, send_connect_error, send_error, finalize_unless,
  finalize,
}
use hyperway.Rpc.Stream.Kept.{IsSent, write_all-Kept}
use hyperway.Rpc.Stream.Sound.{
  IsSound, ensure_headers-IsSound, ensure_headers-IsSent, ensure_headers-body,
}

abbrev pub raws : List Str → List ErrorBody
raws [] = []
raws (data' ∷ more) = raw data' ∷ raws more

wrote-works :
    (data' : Str) (s : Stream) (results : List (Option GoError))
    → s.results ≡ []
    → results ≡ []
    → (after : Stream) × (wrote data' s results ≡ (none, after))
      × (after.w.body ≡ s.w.body ++ raw data' ∷ [])
      × (after.results ≡ [])
unfolding wrote write write_header
wrote-works data' s [] works e = (_, refl, refl, works)
wrote-works data' s (x ∷ xs) works e = cc

-- Writes that all work append their bytes.
write_all-works :
    (l : List Str) (s : Stream)
    → s.results ≡ []
    → (after : Stream) × (write_all l s ≡ (none, after)) × (after.w.body ≡ s.w.body ++ raws l)
unfolding write_all write_bytes and_then
write_all-works [] s works = (s, refl, sym (append-nil s.w.body))
write_all-works (data' ∷ more) s works =
    let (s', first, body, works') = wrote-works data' s s.results works works in
    let (after, rest, body') = write_all-works more s' works' in
    (
      after,
      ap (λ x. and_then x (write_all more)) first ∙ rest,
      body' ∙ ap (λ b. b ++ raws more) body ∙ append_assoc s.w.body (raw data' ∷ []) (raws more),
    )

pub status-IsSent : (w : Out) → IsSent w → status_of w ≡ 200
unfolding status_of
status-IsSent w (h, e) =
    let status : Option (ℕ × Header) → ℕ = λ head. elim head [ none ↦ 200 | some sent ↦ sent.0 ] in
    ap status e

-- the frame that ends a Connect stream: its flag, its size and its payload, in three writes
abbrev pub end_writes : Str → List Str
end_writes payload = (2 ∷ []) ∷ put_uint32 (length payload) ∷ payload ∷ []

-- What a Connect stream is once its end is written.
pub record IsEnded (s : Stream) (payload : Str) (w : Out) : Type 0 where
  pub body : w.body ≡ s.w.body ++ raws (end_writes payload)
  pub status : status_of w ≡ 200

module _ (r : Incoming) (p : ProtocolInfo) (connect : p.is_connect ≡ true) where
  -- the writes of an end, behind the headers
  end_written :
      (s : Stream) (payload : Str)
      → IsSent (ensure_headers r p s).w
      → s.results ≡ []
      → (after : Stream) × (write_all (end_writes payload) (ensure_headers r p s) ≡ (none, after))
        × IsEnded s payload after.w
  end_written s payload started works =
      let t = ensure_headers r p s in
      let headers = ensure_headers-body r p s in
      let (after, whole, body) = write_all-works (end_writes payload) t (headers.1 ∙ works) in
      (
        after,
        whole,
        record {
          body = body ∙ ap (λ b. b ++ raws (end_writes payload)) (headers.0);
          status = status-IsSent after.w (
              subst (λ x. IsSent x.1.w) (whole)
                ((write_all-Kept (end_writes payload) t).sent started));
        },
      )

  connect_trailers-IsEnded :
      (s : Stream) (payload : Str) (x : Option GoError × Stream) (after : Stream)
      → x ≡ (none, after)
      → IsEnded s payload after.w
      → IsEnded s payload (connect_trailers x).w
  unfolding connect_trailers status_of
  connect_trailers-IsEnded s payload x after e is =
      subst (λ y. IsEnded s payload (connect_trailers y).w) (sym e)
        (record { body = is.body; status = is.status })

  ended-IsEnded :
      (s : Stream) (payload : Str) (x : Option GoError × Stream) (after : Stream)
      → x ≡ (none, after)
      → IsEnded s payload after.w
      → IsEnded s payload (ended x).w
  unfolding ended status_of
  ended-IsEnded s payload x after e is =
      subst (λ y. IsEnded s payload (ended y).w) (sym e)
        (record { body = is.body; status = is.status })

  finalize_by-connect :
      (s : Stream) → s.connect_ended ≡ false → finalize_by p s ≡ finalize_connect s
  unfolding finalize_by
  finalize_by-connect s live = ground arith

  pub finalize-IsEnded :
      (s : Stream)
      → IsSound p s
      → s.results ≡ []
      → s.err ≡ none
      → IsEnded s (str "{}") (finalize r p s).w
  unfolding finalize finalize_unless finalize_connect
  finalize-IsEnded s ok works clear =
      let (started, flag) = ensure_headers-IsSound r p s ok in
      let (after, whole, is) =
        end_written s (str "{}") (ensure_headers-IsSent r p s s.err ok) works in
      subst (λ err. IsEnded s (str "{}") (finalize_unless r p s err).w) (sym clear)
        (subst (λ t. IsEnded s (str "{}") t.w)
          (sym (finalize_by-connect (ensure_headers r p s) started.live))
          (connect_trailers-IsEnded s (str "{}")
            (write_all (end_writes (str "{}")) (ensure_headers r p s)) after whole is))

  send_error-connect :
      (error_json : Code → Str → Option Details → Str) (err : GoError) (s : Stream)
      → let e = stream_error p err in
        send_error r p error_json err s
        ≡ send_connect_error r p
            (error_json e.code e.message e.details)
            (record s { err = some err })
  unfolding send_error
  send_error-connect error_json err s = rw (connect) refl

  pub send_error-IsEnded :
      (error_json : Code → Str → Option Details → Str) (err : GoError) (s : Stream)
      → IsSound p s
      → s.results ≡ []
      → let e = stream_error p err in
        IsEnded s (error_json e.code e.message e.details) (send_error r p error_json err s).w
  unfolding send_connect_error
  send_error-IsEnded error_json err s ok works =
      let e = stream_error p err in
      let payload = error_json e.code e.message e.details in
      let s' = record s { err = some err } in
      let (after, whole, is) =
        end_written s' payload (ensure_headers-IsSent r p s (some err) ok) works in
      subst (λ t. IsEnded s payload t.w) (sym (send_error-connect error_json err s))
        (ended-IsEnded s payload (write_all (end_writes payload) (ensure_headers r p s')) after
          whole (record { body = is.body; status = is.status }))

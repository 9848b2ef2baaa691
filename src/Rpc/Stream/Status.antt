-- ===== src/Rpc/Stream/Status.antt =====
-- What the operations of a stream writer do to the HTTP status.
use hyperway.Prelude.{ℕ, ◌≡◌, refl, Bool-cases, inl, inr, Option, none, some, List, [], ◌∷◌}
use hyperway.Prelude.Str.{Str}
use hyperway.Http.{Header, set_header, write_header, write, commit, status_of}
use hyperway.Rpc.Errors.{Error, GoError}
use hyperway.Rpc.Protocol.{
  Incoming, ProtocolInfo, ErrorBody, raw, Out, write_connect_error, write_grpc_error,
}
use hyperway.Rpc.Context.{Context}
use hyperway.Rpc.Stream.{
  Stream, wrote, write_bytes, and_then, write_all, counted, ended, grpc_trailers, connect_trailers,
  typed, send_headers, ensure_headers,
}

-- the status is 200, or will be
abbrev pub IsFine : Out → Type 0
IsFine w = status_of w ≡ 200

abbrev status_at : Option (ℕ × Header) → ℕ
status_at head = elim head [ none ↦ 200 | some sent ↦ sent.0 ]

status-commit :
    (h : Header) (head : Option (ℕ × Header))
    → status_at head ≡ 200
    → status_at (commit 200 h head) ≡ 200
unfolding commit
status-commit h none e = refl
status-commit h (some sent) e = e

pub write_header-IsFine : (w : Out) → IsFine w → IsFine (write_header 200 w)
unfolding write_header status_of
write_header-IsFine w fine = status-commit w.header w.head fine

pub write-IsFine : (b : ErrorBody) (w : Out) → IsFine w → IsFine (write b w)
unfolding write status_of
write-IsFine b w fine = write_header-IsFine w fine

pub set_header-IsFine : (k v : Str) (w : Out) → IsFine w → IsFine (set_header k v w)
unfolding set_header status_of
set_header-IsFine k v w fine = fine

pub write_grpc_error-IsFine : (e : GoError) (w : Out) → IsFine w → IsFine (write_grpc_error e w)
unfolding write_grpc_error
write_grpc_error-IsFine e w fine =
    write_header-IsFine _
      (set_header-IsFine _ _ _ (set_header-IsFine _ _ _ (set_header-IsFine _ _ w fine)))

pub write_connect_error-IsFine :
    (r : Incoming) (e : Error) (w : Out) → IsFine w → IsFine (write_connect_error r e w)
unfolding write_connect_error
write_connect_error-IsFine r e w fine =
    write-IsFine _ _ (write_header-IsFine _ (set_header-IsFine _ _ w fine))

wrote-IsFine :
    (data' : Str) (s : Stream) (results : List (Option GoError))
    → IsFine s.w
    → IsFine (wrote data' s results).1.w
unfolding wrote
wrote-IsFine data' s [] fine = write-IsFine (raw data') s.w fine
wrote-IsFine data' s (none ∷ more) fine = write-IsFine (raw data') s.w fine
wrote-IsFine data' s (some e ∷ more) fine = write_header-IsFine s.w fine

and_then-IsFine :
    (x : Option GoError × Stream) (next : Stream → Option GoError × Stream)
    → ((s : Stream) → IsFine s.w → IsFine (next s).1.w)
    → IsFine x.1.w
    → IsFine (and_then x next).1.w
unfolding and_then
and_then-IsFine (none, s) next keeps fine = keeps s fine
and_then-IsFine (some e, s) next keeps fine = fine

pub write_all-IsFine : (l : List Str) (s : Stream) → IsFine s.w → IsFine (write_all l s).1.w
unfolding write_all write_bytes
write_all-IsFine [] s fine = fine
write_all-IsFine (data' ∷ more) s fine =
    and_then-IsFine (wrote data' s s.results) (write_all more) (write_all-IsFine more)
      (wrote-IsFine data' s s.results fine)

pub counted-IsFine : (x : Option GoError × Stream) → IsFine x.1.w → IsFine (counted x).1.w
unfolding counted
counted-IsFine (none, s) fine = fine
counted-IsFine (some e, s) fine = fine

pub ended-IsFine : (x : Option GoError × Stream) → IsFine x.1.w → IsFine (ended x).w
unfolding ended
ended-IsFine (none, s) fine = fine
ended-IsFine (some e, s) fine = fine

pub connect_trailers-IsFine :
    (x : Option GoError × Stream) → IsFine x.1.w → IsFine (connect_trailers x).w
unfolding connect_trailers status_of
connect_trailers-IsFine (none, s) fine = fine
connect_trailers-IsFine (some e, s) fine = fine

pub grpc_trailers-IsFine :
    (status message : Str) (s : Stream) → IsFine s.w → IsFine (grpc_trailers status message s).w
unfolding grpc_trailers set_header status_of
grpc_trailers-IsFine status message s fine = fine

module _ (r : Incoming) (p : ProtocolInfo) where
  typed-IsFine : (w : Out) → IsFine w → IsFine (typed r p w)
  unfolding typed
  typed-IsFine w fine = elim (Bool-cases p.is_connect) [
    | inl connect ↦ rw connect (set_header-IsFine _ _ _ (set_header-IsFine _ _ w fine))
    | inr plain ↦ elim (Bool-cases p.is_grpc) [
      | inl grpc ↦
          rw (plain, grpc)
            (set_header-IsFine _ _ _ (set_header-IsFine _ _ _ (set_header-IsFine _ _ w fine)))
      | inr other_one ↦ rw (plain, other_one) fine
    ]
  ]

  send_headers-IsFine : (ctx : Context) (w : Out) → IsFine w → IsFine (send_headers r p ctx w)
  unfolding send_headers status_of
  send_headers-IsFine ctx w fine = write_header-IsFine _ (typed-IsFine w fine)

  pub ensure_headers-IsFine : (s : Stream) → IsFine s.w → IsFine (ensure_headers r p s).w
  unfolding ensure_headers
  ensure_headers-IsFine s fine = elim (Bool-cases s.headers_sent) [
    | inl sent ↦ simp (sent) fine
    | inr unsent ↦ simp (unsent) (send_headers-IsFine s.context s.w fine)
  ]

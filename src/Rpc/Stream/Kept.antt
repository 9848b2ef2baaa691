-- ===== src/Rpc/Stream/Kept.antt =====
-- What the writes of a stream leave alone.
use hyperway.Prelude.{ℕ, ◌≡◌, refl, ◌∙◌, Option, none, some, List, [], ◌∷◌}
use hyperway.Prelude.Str.{Str}
use hyperway.Http.{Header, write_header, write, commit}
use hyperway.Rpc.Errors.{GoError}
use hyperway.Rpc.Protocol.{raw, Out}
use hyperway.Rpc.Stream.{Stream, wrote, write_bytes, and_then, write_all}

-- the head was sent, with the status 200
abbrev pub IsSent : Out → Type 0
IsSent w = (h : Header) × (w.head ≡ some (200, h))

write-IsSent : (b : Str) (w : Out) → IsSent w → IsSent (write (raw b) w)
unfolding write write_header commit
write-IsSent b w (h, e) = (h, rw e refl)

write_header-IsSent : (w : Out) → IsSent w → IsSent (write_header 200 w)
unfolding write_header commit
write_header-IsSent w (h, e) = (h, rw e refl)

-- The fields that a Write leaves alone.
pub record Kept (s s' : Stream) : Type 0 where
  pub live : s'.connect_ended ≡ s.connect_ended
  pub flag : s'.headers_sent ≡ s.headers_sent
  pub err : s'.err ≡ s.err
  pub count : s'.message_count ≡ s.message_count
  pub sent : IsSent s.w → IsSent s'.w
  pub head : (x : ℕ × Header) → s.w.head ≡ some x → s'.w.head ≡ some x

wrote-Kept :
    (data' : Str) (s : Stream) (results : List (Option GoError)) → Kept s (wrote data' s results).1
unfolding wrote write write_header commit
wrote-Kept data' s [] = record {
  live = refl;
  flag = refl;
  err = refl;
  count = refl;
  sent = write-IsSent data' s.w;
  head = λ x e. rw e refl;
}
wrote-Kept data' s (none ∷ more) = record {
  live = refl;
  flag = refl;
  err = refl;
  count = refl;
  sent = write-IsSent data' s.w;
  head = λ x e. rw e refl;
}
wrote-Kept data' s (some e ∷ more) = record {
  live = refl;
  flag = refl;
  err = refl;
  count = refl;
  sent = write_header-IsSent s.w;
  head = λ x e. rw e refl;
}

trans-Kept : (a b c : Stream) → Kept a b → Kept b c → Kept a c
trans-Kept a b c ab bc = record {
  live = bc.live ∙ ab.live;
  flag = bc.flag ∙ ab.flag;
  err = bc.err ∙ ab.err;
  count = bc.count ∙ ab.count;
  sent = λ h. bc.sent (ab.sent h);
  head = λ x h. bc.head x (ab.head x h);
}

and_then-Kept :
    (s : Stream) (next : Stream → Option GoError × Stream)
    → ((s' : Stream) → Kept s' (next s').1)
    → (x : Option GoError × Stream) → Kept s x.1
    → Kept s (and_then x next).1
unfolding and_then
and_then-Kept s next keeps (none, s') kept = trans-Kept s s' (next s').1 kept (keeps s')
and_then-Kept s next keeps (some e, s') kept = kept

pub write_all-Kept : (l : List Str) (s : Stream) → Kept s (write_all l s).1
unfolding write_all write_bytes
write_all-Kept [] s = record {
  live = refl;
  flag = refl;
  err = refl;
  count = refl;
  sent = λ h. h;
  head = λ x h. h;
}
write_all-Kept (data' ∷ more) s =
    and_then-Kept s (write_all more) (write_all-Kept more) (wrote data' s s.results)
      (wrote-Kept data' s s.results)

-- ===== src/Schema/Cache/Stores.antt =====
-- What a read returns right after a write.
use hyperway.Prelude.{
  ℕ, ◌≡◌, ◌≢◌, refl, ap, ◌&&◌, Bool, Bool-cases, Option-cases, inl, inr, some, List, [], ◌∷◌, arith,
  length, if◌then◌else◌,
}
use hyperway.Prelude.Int.{pos, ltb_ℤ}
use hyperway.Prelude.Str.{Str, str_eq, lookup, insert}
use hyperway.Prelude.Str.Laws.{str_eq_iff, str_eq_refl, lookup-insert, lookup-delete}
use hyperway.Schema.Cache.{
  of_message, message, Entry, LruCache, hit, miss, deref, back, drop_back, evict_oldest, push_front,
  evict_if_full, put, put_message, get_message, move_to_front, set_value,
}
use hyperway.Schema.Cache.Entries.{deref-set_value_self, deref-move_to_front, back-some}
use hyperway.Schema.Cache.Pointers.{IsSound}

module _ {M D : Type 0} where
  -- what is read under `key` once a new entry for it was pushed, and the entry `b` evicted
  evicted_read :
      (key : Str) (md : M) (c : LruCache M D) (d b : Entry M D) (l : List (Entry M D))
      → c.lru ≡ d ∷ l
      → back (d ∷ l) ≡ some b
      → (get_message key (evict_oldest (push_front key (message (some md)) c))).0
        ≡ (if str_eq b.key key then miss else hit md)
  unfolding get_message evict_oldest push_front back drop_back deref
  evicted_read key md c d b l same last = ground (
    arith,
    same,
    last,
    lookup-delete b.key key (insert key c.next c.messages),
    lookup-insert key key c.next c.messages,
    str_eq_refl key,
  )

  pushed_read :
      (key : Str) (md : M) (c : LruCache M D)
      → (get_message key (push_front key (message (some md)) c)).0 ≡ hit md
  unfolding get_message push_front deref
  pushed_read key md c = ground (arith, lookup-insert key key c.next c.messages, str_eq_refl key)

  abbrev full : LruCache M D → Bool
  full c = ltb_ℤ (pos 0) c.max_size && ltb_ℤ c.max_size (pos (length c.lru))

  -- what is read under `key` after the eviction, where there is room or not
  evict_if_full_read :
      (key : Str) (md : M) (c : LruCache M D)
      → (get_message key (evict_if_full (push_front key (message (some md)) c))).0 ≡ (
          if full (push_front key (message (some md)) c)
          then (get_message key (evict_oldest (push_front key (message (some md)) c))).0
          else hit md)
  unfolding evict_if_full
  evict_if_full_read key md c = elim (Bool-cases (full (push_front key (message (some md)) c))) [
    | inl filled ↦ rw (filled, evict_if_full)
    | inr room ↦ rw (room, evict_if_full) (pushed_read key md c)
  ]

  new_read :
      (key : Str) (md : M) (c : LruCache M D) (l : List (Entry M D))
      → c.lru ≡ l
      → ((b : Entry M D) → back l ≡ some b → b.key ≢ key)
      → (get_message key (evict_if_full (push_front key (message (some md)) c))).0 ≡ hit md
  new_read key md c [] same other =
      rw evict_if_full_read (unfold push_front in ground (arith, ap length same))
  new_read key md c (d ∷ l) same other =
      let (b, last) = back-some d l in
      rw evict_if_full_read
        (ground (arith, evicted_read key md c d b l same last, str_eq_iff b.key key, other b last))

  old_read :
      (key : Str) (md : M) (c : LruCache M D) (id : ℕ)
      → lookup key c.messages ≡ some id
      → IsSound c
      → (get_message key
          (record c { lru = move_to_front id (set_value id (message (some md)) c.lru) })).0
        ≡ hit md
  unfolding get_message
  old_read key md c id old s =
      let p = s.at of_message key id old in
      ground (
        arith,
        deref-move_to_front id id (set_value id (message (some md)) c.lru),
        deref-set_value_self id (message (some md)) c.lru p.entry p.held,
      )

-- In a cache whose map pointers all stand for entries of their own key and kind, a message that
-- was just stored is read back, unless the entry that was used least has its key.
pub get_message-put_message :
    {M D : Type 0} (key : Str) (md : M) (c : LruCache M D)
    → IsSound c
    → ((b : Entry M D) → back c.lru ≡ some b → b.key ≢ key)
    → (get_message key (put_message key (some md) c)).0 ≡ hit md
unfolding put_message put
get_message-put_message key md c s other = elim (Option-cases (lookup key c.messages)) [
  | inl new ↦ rw (new, put) (new_read key md c c.lru refl other)
  | inr (id, old) ↦ rw (old, put) (old_read key md c id old s)
]

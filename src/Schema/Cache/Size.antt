-- ===== src/Schema/Cache/Size.antt =====
-- The cache never outgrows its maximum.
use hyperway.Prelude.{ℕ, ◌≤◌, ◌≡◌, ◌∙◌, refl, Option-cases, inl, inr, List, [], ◌∷◌, arith, length}
use hyperway.Prelude.Int.{pos, ◌≤ℤ◌}
use hyperway.Prelude.Str.{Str, lookup}
use hyperway.Schema.Cache.{
  Descriptor, message, file, kind_of, Entry, LruCache, table, evict_oldest, push_front,
  evict_if_full, put, put_message, put_file, get_message, get_file, clear, size, new_lru_cache,
  Call, get_message_call, put_message_call, get_file_call, put_file_call, clear_call, after, run,
}
use hyperway.Schema.Cache.Entries.{
  length-move_to_front, length-set_value, length-drop_back, back-some,
}

module _ {M D : Type 0} where
  -- A maximum that is not positive means no bound.
  abbrev pub Fits : LruCache M D → Type 0
  Fits c = pos 1 ≤ℤ c.max_size → pos (size c) ≤ℤ c.max_size

  evict-Fits :
      (c : LruCache M D) (e : Entry M D) (l : List (Entry M D))
      → c.lru ≡ e ∷ l
      → (pos 1 ≤ℤ c.max_size → pos (length l) ≤ℤ c.max_size)
      → Fits (evict_if_full c)
  unfolding evict_if_full evict_oldest size
  evict-Fits c e l h fits =
      let (b, last) = back-some e l in ground (arith, last, length-drop_back e l)

  push-Fits :
      (key : Str) (v : Descriptor M D) (c : LruCache M D)
      → Fits c
      → Fits (evict_if_full (push_front key v c))
  unfolding push_front size
  push-Fits key (message m) c h = evict-Fits _ _ c.lru refl h
  push-Fits key (file d) c h = evict-Fits _ _ c.lru refl h

  put-Fits : (key : Str) (v : Descriptor M D) (c : LruCache M D) → Fits c → Fits (put key v c)
  unfolding put
  put-Fits key v c h = elim (Option-cases (lookup key (table (kind_of v) c))) [
    | inl new ↦ rw (new, put) (push-Fits key v c h)
    | inr (id, old) ↦
        rw (old, put)
          (unfold size in rw (length-move_to_front, length-set_value) (unfold size in h))
  ]

  get_message-Fits : (key : Str) (c : LruCache M D) → Fits c → Fits (get_message key c).1
  unfolding get_message size
  get_message-Fits key c h = elim (Option-cases (lookup key c.messages)) [
    | inl absent ↦ rw (absent, get_message) h
    | inr (id, there) ↦ rw (there, get_message) (rw length-move_to_front h)
  ]

  get_file-Fits : (key : Str) (c : LruCache M D) → Fits c → Fits (get_file key c).1
  unfolding get_file size
  get_file-Fits key c h = elim (Option-cases (lookup key c.files)) [
    | inl absent ↦ rw (absent, get_file) h
    | inr (id, there) ↦ rw (there, get_file) (rw length-move_to_front h)
  ]

  after-Fits : (call : Call M D) (c : LruCache M D) → Fits c → Fits (after call c)
  unfolding after put_message put_file clear size
  after-Fits (get_message_call key) c h = get_message-Fits key c h
  after-Fits (put_message_call key md) c h = put-Fits key (message md) c h
  after-Fits (get_file_call key) c h = get_file-Fits key c h
  after-Fits (put_file_call key fd) c h = put-Fits key (file fd) c h
  after-Fits clear_call c h = λ some_max. omega arith

  run_from-Fits : (calls : List (Call M D)) (c : LruCache M D) → Fits c → Fits (run calls c)
  unfolding run
  run_from-Fits [] c h = h
  run_from-Fits (call ∷ calls) c h = run_from-Fits calls (after call c) (after-Fits call c h)

  max_size-put :
      (key : Str) (v : Descriptor M D) (c : LruCache M D) → (put key v c).max_size ≡ c.max_size
  unfolding put push_front evict_if_full evict_oldest
  max_size-put key (message m) c = ground arith
  max_size-put key (file d) c = ground arith

  max_size-after : (call : Call M D) (c : LruCache M D) → (after call c).max_size ≡ c.max_size
  unfolding after put_message put_file get_message get_file clear
  max_size-after (get_message_call key) c = ground arith
  max_size-after (put_message_call key md) c = max_size-put key (message md) c
  max_size-after (get_file_call key) c = ground arith
  max_size-after (put_file_call key fd) c = max_size-put key (file fd) c
  max_size-after clear_call c = refl

  max_size-run : (calls : List (Call M D)) (c : LruCache M D) → (run calls c).max_size ≡ c.max_size
  unfolding run
  max_size-run [] c = refl
  max_size-run (call ∷ calls) c = max_size-run calls (after call c) ∙ max_size-after call c

-- A cache with a positive maximum holds at most that many entries, after any calls.
pub run-size-le :
    {M D : Type 0} (calls : List (Call M D)) (n : ℕ)
    → 1 ≤ n
    → size (run calls (new_lru_cache (pos n))) ≤ n
unfolding new_lru_cache size
run-size-le {M} {D} calls n positive =
    let start : LruCache M D = new_lru_cache (pos n) in
    let kept = max_size-run calls start in
    let fits = run_from-Fits calls start (unfold size in λ some_max. omega arith) in
    omega (arith, rw kept at fits)

-- ===== src/Schema/Cache/Answers.antt =====
-- What the cache's reads answer after any calls.
use hyperway.Prelude.{
  ℕ, ◌≡◌, ◌≢◌, ◌&&◌, Bool-cases, Option-cases, inl, inr, Option, none, some, List, [], ◌∷◌, All,
  arith, length, if_both, ◌==◌,
}
use hyperway.Prelude.Int.{ℤ, pos, ltb_ℤ}
use hyperway.Prelude.Str.{Str, lookup}
use hyperway.Schema.Cache.{
  Descriptor, of_message, of_file, message, file, kind_of, Entry, LruCache, Found, fault, stale,
  deref, remove, drop_back, table, push_front, evict_oldest, back, evict_if_full, put, put_message,
  put_file, get_message, get_file, clear, new_lru_cache, move_to_front, set_value, Call,
  get_message_call, put_message_call, get_file_call, put_file_call, clear_call, after, run,
  as_message, as_file,
}
use hyperway.Schema.Cache.Pointers.{IsSound}
use hyperway.Schema.Cache.Reads.{run-IsSound}

-- a call that stores no nil message
abbrev pub StoresNoNil : {M D : Type 0} → Call M D → Type 0
StoresNoNil (put_message_call key md) = md ≢ none
StoresNoNil _ = Unit

-- an answer of the program that is no panic
abbrev pub IsAnswered : {A : Type 0} → Found A → Type 0
IsAnswered o = (o ≢ fault) × (o ≢ stale)

module _ {M D : Type 0} where
  -- the value is no nil message
  NonNil : Descriptor M D → Type 0
  NonNil v = v ≢ message none

  AllNonNil : List (Entry M D) → Type 0
  AllNonNil l = All (λ e. NonNil e.value) l

  deref-NonNil :
      (id : ℕ) (l : List (Entry M D)) (e : Entry M D)
      → AllNonNil l
      → deref id l ≡ some e
      → NonNil e.value
  unfolding deref AllNonNil NonNil
  deref-NonNil id [] e h found = cc found
  deref-NonNil id (x ∷ l) e (hx, hl) found = elim (Bool-cases (x.elem == id)) [
    | inl same ↦ ground (arith, hx)
    | inr differs ↦ deref-NonNil id l e hl (rw differs at found)
  ]

  remove-AllNonNil : (id : ℕ) (l : List (Entry M D)) → AllNonNil l → AllNonNil (remove id l)
  unfolding remove AllNonNil
  remove-AllNonNil id [] h = h
  remove-AllNonNil id (x ∷ l) (hx, hl) = elim (Bool-cases (x.elem == id)) [
    | inl same ↦ simp (same) hl
    | inr differs ↦ simp (differs) (hx, remove-AllNonNil id l hl)
  ]

  moved-AllNonNil : (id : ℕ) (l : List (Entry M D)) → AllNonNil l → AllNonNil (move_to_front id l)
  unfolding move_to_front AllNonNil
  moved-AllNonNil id l h = elim (Option-cases (deref id l)) [
    | inl absent ↦ rw (absent, move_to_front) h
    | inr (e, found) ↦
        rw (found, move_to_front) (deref-NonNil id l e h found, remove-AllNonNil id l h)
  ]

  set_value-AllNonNil :
      (id : ℕ) (v : Descriptor M D) (l : List (Entry M D))
      → NonNil v
      → AllNonNil l
      → AllNonNil (set_value id v l)
  unfolding set_value AllNonNil
  set_value-AllNonNil id v [] hv h = h
  set_value-AllNonNil id v (x ∷ l) hv (hx, hl) = elim (Bool-cases (x.elem == id)) [
    | inl same ↦ simp (same) (hv, hl)
    | inr differs ↦ simp (differs) (hx, set_value-AllNonNil id v l hv hl)
  ]

  drop_back-AllNonNil : (l : List (Entry M D)) → AllNonNil l → AllNonNil (drop_back l)
  unfolding drop_back AllNonNil
  drop_back-AllNonNil [] h = h
  drop_back-AllNonNil (x ∷ []) h = tt
  drop_back-AllNonNil (x ∷ y ∷ l) (hx, h) = (hx, drop_back-AllNonNil (y ∷ l) h)

  evict-AllNonNil : (c : LruCache M D) → AllNonNil c.lru → AllNonNil (evict_oldest c).lru
  unfolding evict_oldest
  evict-AllNonNil c h = elim (Option-cases (back c.lru)) [
    | inl empty ↦ rw (empty, evict_oldest) h
    | inr (b, last) ↦ rw (last, evict_oldest) (drop_back-AllNonNil c.lru h)
  ]

  evict_if_full-AllNonNil : (c : LruCache M D) → AllNonNil c.lru → AllNonNil (evict_if_full c).lru
  unfolding evict_if_full
  evict_if_full-AllNonNil c h =
      if_both (λ (d : LruCache M D). AllNonNil d.lru)
        (ltb_ℤ (pos 0) c.max_size && ltb_ℤ c.max_size (pos (length c.lru))) (evict_oldest c) c
        (evict-AllNonNil c h) h

  push-AllNonNil :
      (key : Str) (v : Descriptor M D) (c : LruCache M D)
      → NonNil v
      → AllNonNil c.lru
      → AllNonNil (push_front key v c).lru
  unfolding push_front AllNonNil
  push-AllNonNil key (message m) c hv h = (hv, h)
  push-AllNonNil key (file d) c hv h = (hv, h)

  put-AllNonNil :
      (key : Str) (v : Descriptor M D) (c : LruCache M D)
      → NonNil v
      → AllNonNil c.lru
      → AllNonNil (put key v c).lru
  unfolding put
  put-AllNonNil key v c hv h = elim (Option-cases (lookup key (table (kind_of v) c))) [
    | inl new ↦
        rw (new, put) (evict_if_full-AllNonNil (push_front key v c) (push-AllNonNil key v c hv h))
    | inr (id, old) ↦
        rw (old, put)
          (moved-AllNonNil id (set_value id v c.lru) (set_value-AllNonNil id v c.lru hv h))
  ]

  get_message-AllNonNil :
      (key : Str) (c : LruCache M D) → AllNonNil c.lru → AllNonNil (get_message key c).1.lru
  unfolding get_message
  get_message-AllNonNil key c h = elim (Option-cases (lookup key c.messages)) [
    | inl absent ↦ rw (absent, get_message) h
    | inr (id, there) ↦ rw (there, get_message) (moved-AllNonNil id c.lru h)
  ]

  get_file-AllNonNil :
      (key : Str) (c : LruCache M D) → AllNonNil c.lru → AllNonNil (get_file key c).1.lru
  unfolding get_file
  get_file-AllNonNil key c h = elim (Option-cases (lookup key c.files)) [
    | inl absent ↦ rw (absent, get_file) h
    | inr (id, there) ↦ rw (there, get_file) (moved-AllNonNil id c.lru h)
  ]

  after-AllNonNil :
      (call : Call M D) (c : LruCache M D)
      → StoresNoNil call
      → AllNonNil c.lru
      → AllNonNil (after call c).lru
  unfolding after put_message put_file clear AllNonNil NonNil
  after-AllNonNil (get_message_call key) c _ h = get_message-AllNonNil key c h
  after-AllNonNil (put_message_call key md) c real h =
      put-AllNonNil key (message md) c (λ e. real (cc e)) h
  after-AllNonNil (get_file_call key) c _ h = get_file-AllNonNil key c h
  after-AllNonNil (put_file_call key fd) c _ h = put-AllNonNil key (file fd) c (λ e. cc e) h
  after-AllNonNil clear_call c _ h = tt

  run-AllNonNil :
      (calls : List (Call M D)) (c : LruCache M D)
      → All StoresNoNil calls
      → AllNonNil c.lru
      → AllNonNil (run calls c).lru
  unfolding run
  run-AllNonNil [] c _ h = h
  run-AllNonNil (call ∷ calls) c (real, more) h =
      run-AllNonNil calls (after call c) more (after-AllNonNil call c real h)

  as_message-IsAnswered :
      (o : Option (Entry M D)) (e : Entry M D)
      → o ≡ some e
      → kind_of e.value ≡ of_message
      → NonNil e.value
      → IsAnswered (as_message o)
  unfolding NonNil
  as_message-IsAnswered o e h k real = (ground (arith, real), ground (arith, real))

  as_file-IsAnswered :
      (o : Option (Entry M D)) (e : Entry M D)
      → o ≡ some e
      → kind_of e.value ≡ of_file
      → IsAnswered (as_file o)
  as_file-IsAnswered o e h k = (ground arith, ground arith)

  get_message-IsAnswered :
      (key : Str) (c : LruCache M D)
      → IsSound c
      → AllNonNil c.lru
      → IsAnswered (get_message key c).0
  unfolding get_message
  get_message-IsAnswered key c s real = elim (Option-cases (lookup key c.messages)) [
    | inl absent ↦ rw (absent, get_message) ((λ e. cc e), (λ e. cc e))
    | inr (id, there) ↦
        let p = s.at of_message key id there in
        rw (there, get_message)
          (as_message-IsAnswered (deref id c.lru) p.entry p.held p.kinded
            (deref-NonNil id c.lru p.entry real p.held))
  ]

  get_file-IsAnswered : (key : Str) (c : LruCache M D) → IsSound c → IsAnswered (get_file key c).0
  unfolding get_file
  get_file-IsAnswered key c s = elim (Option-cases (lookup key c.files)) [
    | inl absent ↦ rw (absent, get_file) ((λ e. cc e), (λ e. cc e))
    | inr (id, there) ↦
        let p = s.at of_file key id there in
        rw (there, get_file) (as_file-IsAnswered (deref id c.lru) p.entry p.held p.kinded)
  ]

-- Whatever calls a new cache has seen, if none of them stored a nil message descriptor: no read panics at its type
-- assertion, and what a read finds in a map still has its element in the list and is of the map's own kind.
pub run_no_fault :
    {M D : Type 0} (calls : List (Call M D)) (n : ℤ) (key : Str)
    → All StoresNoNil calls
    → IsAnswered (get_message key (run calls (new_lru_cache n))).0
      × IsAnswered (get_file key (run calls (new_lru_cache n))).0
unfolding new_lru_cache AllNonNil
run_no_fault calls n key real =
    let sound = run-IsSound calls n in
    (
      get_message-IsAnswered key _ sound (run-AllNonNil calls (new_lru_cache n) real tt),
      get_file-IsAnswered key _ sound,
    )

-- ===== src/Schema/Cache/Reads.antt =====
-- The pointers of a cache that has seen some calls.
use hyperway.Prelude.{
  ℕ, ◌≡◌, refl, sym, ◌&&◌, Bool-cases, Option-cases, inl, inr, some, List, [], ◌∷◌, length,
}
use hyperway.Prelude.Int.{ℤ, pos, ltb_ℤ}
use hyperway.Prelude.Str.{Str, lookup}
use hyperway.Schema.Cache.{
  Descriptor, of_message, of_file, message, file, kind_of, LruCache, table, evict_if_full, put,
  put_message, put_file, get_message, get_file, clear, new_lru_cache, move_to_front, set_value,
  Call, get_message_call, put_message_call, get_file_call, put_file_call, clear_call, after, run,
}
use hyperway.Schema.Cache.Pointers.{
  PointsTo, IsSound, moved, updated, evict-IsSound, push-IsSound, with_lru,
}

module _ {M D : Type 0} where
  evict_if_full-IsSound : (c : LruCache M D) → IsSound c → IsSound (evict_if_full c)
  unfolding evict_if_full
  evict_if_full-IsSound c s =
      elim (Bool-cases (ltb_ℤ (pos 0) c.max_size && ltb_ℤ c.max_size (pos (length c.lru)))) [
        | inl full ↦ rw (full, evict_if_full) (evict-IsSound c s)
        | inr room ↦ rw (room, evict_if_full) s
      ]

  put-IsSound :
      (key : Str) (v : Descriptor M D) (c : LruCache M D) → IsSound c → IsSound (put key v c)
  unfolding put
  put-IsSound key v c s = elim (Option-cases (lookup key (table (kind_of v) c))) [
    | inl new ↦ rw (new, put) (evict_if_full-IsSound _ (push-IsSound key v c s))
    | inr (id, old) ↦
        let p = s.at (kind_of v) key id old in
        rw (old, put)
          (with_lru c (move_to_front id (set_value id v c.lru))
            (λ kind k j q. moved id _ (updated id v c.lru p.entry p.held (sym p.kinded) q)) s)
  ]

  get_message-IsSound : (key : Str) (c : LruCache M D) → IsSound c → IsSound (get_message key c).1
  unfolding get_message
  get_message-IsSound key c s = elim (Option-cases (lookup key c.messages)) [
    | inl absent ↦ rw (absent, get_message) s
    | inr (id, there) ↦
        rw (there, get_message)
          (with_lru c (move_to_front id c.lru) (λ kind k j q. moved id c.lru q) s)
  ]

  get_file-IsSound : (key : Str) (c : LruCache M D) → IsSound c → IsSound (get_file key c).1
  unfolding get_file
  get_file-IsSound key c s = elim (Option-cases (lookup key c.files)) [
    | inl absent ↦ rw (absent, get_file) s
    | inr (id, there) ↦
        rw (there, get_file)
          (with_lru c (move_to_front id c.lru) (λ kind k j q. moved id c.lru q) s)
  ]

  empty-IsSound : (c : LruCache M D) → c.messages ≡ [] → c.files ≡ [] → IsSound c
  empty-IsSound c m f = record {
    at = λ kind.
        elim kind
          as (λ kind.
            (key : Str) (id : ℕ)
            → lookup key (table kind c) ≡ some id
            → PointsTo kind key id c.next c.lru) [
              | of_message ↦ λ key id h. absurd (unfold lookup in cc (rw m at h))
              | of_file ↦ λ key id h. absurd (unfold lookup in cc (rw f at h))
            ];
  }

  pub after-IsSound : (call : Call M D) (c : LruCache M D) → IsSound c → IsSound (after call c)
  unfolding after put_message put_file clear
  after-IsSound (get_message_call key) c s = get_message-IsSound key c s
  after-IsSound (put_message_call key md) c s = put-IsSound key (message md) c s
  after-IsSound (get_file_call key) c s = get_file-IsSound key c s
  after-IsSound (put_file_call key fd) c s = put-IsSound key (file fd) c s
  after-IsSound clear_call c s = empty-IsSound _ refl refl

  run_from-IsSound :
      (calls : List (Call M D)) (c : LruCache M D) → IsSound c → IsSound (run calls c)
  unfolding run
  run_from-IsSound [] c s = s
  run_from-IsSound (call ∷ calls) c s =
      run_from-IsSound calls (after call c) (after-IsSound call c s)

  pub run-IsSound : (calls : List (Call M D)) (n : ℤ) → IsSound (run calls (new_lru_cache n))
  unfolding new_lru_cache
  run-IsSound calls n = run_from-IsSound calls (new_lru_cache n) (empty-IsSound _ refl refl)

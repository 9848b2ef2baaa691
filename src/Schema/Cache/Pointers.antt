-- ===== src/Schema/Cache/Pointers.antt =====
-- The pointers in the cache's maps: each stands for an entry of the list with its key and kind.
use hyperway.Prelude.{
  ℕ, ◌+◌, ◌<◌, ◌≡◌, ◌≢◌, ◌∙◌, refl, ap, Bool-cases, ==_iff, Option-cases, inl, inr, some, List, ◌∷◌,
  arith, ◌==◌,
}
use hyperway.Prelude.Str.{Str, str_eq, lookup, insert, delete}
use hyperway.Prelude.Str.Laws.{str_eq_iff, lookup-insert, lookup-delete}
use hyperway.Schema.Cache.{
  Descriptor, Kind, of_message, of_file, message, file, kind_of, Entry, LruCache, deref, table,
  back, drop_back, evict_oldest, push_front, move_to_front, set_value,
}
use hyperway.Schema.Cache.Entries.{
  deref-move_to_front, deref-set_value_self, deref-set_value_ne, deref-drop_back,
}

module _ {M D : Type 0} where
  -- the identity is in use, for an entry with this key and of this kind
  pub record PointsTo (kind : Kind) (key : Str) (id next : ℕ) (l : List (Entry M D)) : Type 0 where
    pub used : id < next
    pub entry : Entry M D
    pub held : deref id l ≡ some entry
    pub keyed : entry.key ≡ key
    pub kinded : kind_of entry.value ≡ kind

  pub record IsSound (c : LruCache M D) : Type 0 where
    pub at :
        (kind : Kind) (key : Str) (id : ℕ)
        → lookup key (table kind c) ≡ some id
        → PointsTo kind key id c.next c.lru

  pub moved :
      {kind : Kind} {key : Str} {id next : ℕ} (j : ℕ) (l : List (Entry M D))
      → PointsTo kind key id next l
      → PointsTo kind key id next (move_to_front j l)
  moved {id = id} j l p = record {
    used = p.used;
    entry = p.entry;
    held = deref-move_to_front j id l ∙ p.held;
    keyed = p.keyed;
    kinded = p.kinded;
  }

  same_entry :
      {j id : ℕ} (l : List (Entry M D)) {e d : Entry M D}
      → deref j l ≡ some e
      → deref id l ≡ some d
      → j ≡ id
      → e ≡ d
  same_entry l p q r = cc

  pub updated :
      {kind : Kind} {key : Str} {id next : ℕ} (j : ℕ) (v : Descriptor M D) (l : List (Entry M D))
      (e : Entry M D)
      → deref j l ≡ some e
      → kind_of v ≡ kind_of e.value
      → PointsTo kind key id next l
      → PointsTo kind key id next (set_value j v l)
  updated {id = id} j v l e he hv p = elim (Bool-cases (j == id)) [
    | inl same ↦
        let j_id = (==_iff j id).0 same in
        let q = same_entry l he p.held j_id in
        record {
          used = p.used;
          entry = record e { value = v };
          held = ground (arith, j_id, deref-set_value_self j v l e he);
          keyed = ap (λ x. x.key) q ∙ p.keyed;
          kinded = hv ∙ ap (λ x. kind_of x.value) q ∙ p.kinded;
        }
    | inr differs ↦ record {
      used = p.used;
      entry = p.entry;
      held = deref-set_value_ne j id v l (ground arith) ∙ p.held;
      keyed = p.keyed;
      kinded = p.kinded;
    }
  ]

  pushed :
      {kind : Kind} {key : Str} {id next : ℕ} (new : Entry M D) (l : List (Entry M D))
      → new.elem ≡ next
      → PointsTo kind key id next l
      → PointsTo kind key id (next + 1) (new ∷ l)
  unfolding deref
  pushed {id = id} new l e p = record {
    used = omega (arith, p.used);
    entry = p.entry;
    held = ground (arith, p.held, p.used);
    keyed = p.keyed;
    kinded = p.kinded;
  }

  dropped :
      {kind : Kind} {key : Str} {id next : ℕ} (l : List (Entry M D)) (b : Entry M D)
      → back l ≡ some b
      → b.key ≢ key
      → PointsTo kind key id next l
      → PointsTo kind key id next (drop_back l)
  dropped {id = id} l b hb ne p = record {
    used = p.used;
    entry = p.entry;
    held = deref-drop_back id l p.entry b hb p.held (λ same. ne (same ∙ p.keyed));
    keyed = p.keyed;
    kinded = p.kinded;
  }

  pub evict-IsSound : (c : LruCache M D) → IsSound c → IsSound (evict_oldest c)
  unfolding evict_oldest
  evict-IsSound c s = elim (Option-cases (back c.lru)) [
    | inl empty ↦ rw (empty, evict_oldest) s
    | inr (b, last) ↦
        rw (last, evict_oldest) (record { at = λ kind key id h. by_kind b last kind key id h })
  ]
    where
      without :
          (b : Entry M D)
          → back c.lru ≡ some b
          → (kind : Kind) (key : Str) (id : ℕ) → lookup key (delete b.key (table kind c)) ≡ some id
          → PointsTo kind key id c.next (drop_back c.lru)
      without b last kind key id h =
          let h' = rw lookup-delete at h in
          dropped c.lru b last (ground (arith, str_eq_iff b.key key))
            (s.at kind key id (ground arith))

      by_kind :
          (b : Entry M D)
          → back c.lru ≡ some b
          → (kind : Kind) (key : Str) (id : ℕ)
          → lookup key (
              table kind (record c {
                lru = drop_back c.lru;
                messages = delete b.key c.messages;
                files = delete b.key c.files;
              }))
            ≡ some id
          → PointsTo kind key id c.next (drop_back c.lru)
      by_kind b last of_message key id h = without b last of_message key id h
      by_kind b last of_file key id h = without b last of_file key id h

  own_table :
      (key : Str) (v : Descriptor M D) (c : LruCache M D)
      → IsSound c
      → (k : Str) (id : ℕ) → lookup k (insert key c.next (table (kind_of v) c)) ≡ some id
      → PointsTo
          (kind_of v)
          k
          id
          (c.next + 1)
          (record { elem = c.next; key = key; value = v } ∷ c.lru)
  unfolding deref
  own_table key v c s k id h =
      let new : Entry M D = record { elem = c.next; key = key; value = v } in
      let h' = rw lookup-insert at h in
      elim (Bool-cases (str_eq key k)) [
        | inl same ↦
            let e : c.next ≡ id = ground arith in
            record {
              used = omega arith;
              entry = new;
              held = ground arith;
              keyed = (str_eq_iff key k).0 same;
              kinded = refl;
            }
        | inr differs ↦ pushed new c.lru refl (s.at (kind_of v) k id (rw differs at h'))
      ]

  pub push-IsSound :
      (key : Str) (v : Descriptor M D) (c : LruCache M D) → IsSound c → IsSound (push_front key v c)
  unfolding push_front
  push-IsSound key (message m) c s = record {
    at = λ kind.
        elim kind
          as (λ kind.
            (k : Str) (id : ℕ)
            → lookup k (table kind (push_front key (message m) c)) ≡ some id
            → PointsTo kind k id (c.next + 1) (push_front key (message m) c).lru) [
              | of_message ↦ λ k id h. own_table key (message m) c s k id h
              | of_file ↦ λ k id h.
                  pushed (record { elem = c.next; key = key; value = message m }) c.lru refl
                    (s.at of_file k id h)
            ];
  }
  push-IsSound key (file d) c s = record {
    at = λ kind.
        elim kind
          as (λ kind.
            (k : Str) (id : ℕ)
            → lookup k (table kind (push_front key (file d) c)) ≡ some id
            → PointsTo kind k id (c.next + 1) (push_front key (file d) c).lru) [
              | of_message ↦ λ k id h.
                  pushed (record { elem = c.next; key = key; value = file d }) c.lru refl
                    (s.at of_message k id h)
              | of_file ↦ λ k id h. own_table key (file d) c s k id h
            ];
  }

  -- The same maps over other entries, each pointer of which still points.
  pub with_lru :
      (c : LruCache M D) (l : List (Entry M D))
      → ((kind : Kind) (key : Str) (id : ℕ)
          → PointsTo kind key id c.next c.lru
          → PointsTo kind key id c.next l)
      → IsSound c
      → IsSound (record c { lru = l })
  with_lru c l keep s = record {
    at = λ kind.
        elim kind
          as (λ kind.
            (key : Str) (id : ℕ)
            → lookup key (table kind (record c { lru = l })) ≡ some id
            → PointsTo kind key id c.next l) [
              | of_message ↦ λ key id h. keep of_message key id (s.at of_message key id h)
              | of_file ↦ λ key id h. keep of_file key id (s.at of_file key id h)
            ];
  }

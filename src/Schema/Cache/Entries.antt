-- ===== src/Schema/Cache/Entries.antt =====
-- The list operations of the cache: lengths, and what an identity stands for afterwards.
use hyperway.Prelude.{ℕ, ◌+◌, ◌≡◌, ◌≢◌, refl, Option, none, some, List, [], ◌∷◌, arith, length}
use hyperway.Schema.Cache.{
  Descriptor, Entry, deref, remove, move_to_front, set_value, back, drop_back,
}

module _ {M D : Type 0} where
  length-remove :
      (id : ℕ) (l : List (Entry M D)) (e : Entry M D)
      → deref id l ≡ some e
      → length (remove id l) + 1 ≡ length l
  unfolding deref remove
  length-remove id [] e h = cc
  length-remove id (d ∷ l) e h = ground (arith, length-remove id l e)

  pub length-move_to_front :
      (id : ℕ) (l : List (Entry M D)) → length (move_to_front id l) ≡ length l
  unfolding move_to_front
  length-move_to_front id l = go (deref id l) refl
    where
      go :
          (o : Option (Entry M D))
          → deref id l ≡ o
          → length (elim o [ none ↦ l | some e ↦ e ∷ remove id l ]) ≡ length l
      go none h = refl
      go (some e) h = omega (arith, length-remove id l e h)

  pub length-set_value :
      (id : ℕ) (v : Descriptor M D) (l : List (Entry M D)) → length (set_value id v l) ≡ length l
  unfolding set_value
  length-set_value id v [] = refl
  length-set_value id v (e ∷ l) = ground (arith, length-set_value id v l)

  pub length-drop_back :
      (e : Entry M D) (l : List (Entry M D)) → length (drop_back (e ∷ l)) ≡ length l
  unfolding drop_back
  length-drop_back e [] = refl
  length-drop_back e (d ∷ l) = omega (arith, length-drop_back d l)

  deref-remove_ne : (id j : ℕ) (l : List (Entry M D)) → id ≢ j → deref j (remove id l) ≡ deref j l
  unfolding deref remove
  deref-remove_ne id j [] h = refl
  deref-remove_ne id j (e ∷ l) h = ground (arith, deref-remove_ne id j l h)

  deref-elem : (id : ℕ) (l : List (Entry M D)) (e : Entry M D) → deref id l ≡ some e → e.elem ≡ id
  unfolding deref
  deref-elem id [] e h = cc
  deref-elem id (d ∷ l) e h = ground (arith, deref-elem id l e)

  -- Moving an element changes no identity's entry.
  pub deref-move_to_front :
      (id j : ℕ) (l : List (Entry M D)) → deref j (move_to_front id l) ≡ deref j l
  unfolding move_to_front
  deref-move_to_front id j l = go (deref id l) refl
    where
      go :
          (o : Option (Entry M D))
          → deref id l ≡ o
          → deref j (elim o [ none ↦ l | some e ↦ e ∷ remove id l ]) ≡ deref j l
      go none h = refl
      go (some e) h = unfold deref in ground (arith, deref-elem id l e h, deref-remove_ne id j l)

  pub deref-set_value_self :
      (id : ℕ) (v : Descriptor M D) (l : List (Entry M D)) (e : Entry M D)
      → deref id l ≡ some e
      → deref id (set_value id v l) ≡ some (record e { value = v })
  unfolding deref set_value
  deref-set_value_self id v [] e h = cc
  deref-set_value_self id v (d ∷ l) e h = ground (arith, deref-set_value_self id v l e)

  pub deref-set_value_ne :
      (id j : ℕ) (v : Descriptor M D) (l : List (Entry M D))
      → id ≢ j
      → deref j (set_value id v l) ≡ deref j l
  unfolding deref set_value
  deref-set_value_ne id j v [] h = refl
  deref-set_value_ne id j v (d ∷ l) h = ground (arith, deref-set_value_ne id j v l h)

  -- An entry with another key than the last one's stays when the last one goes.
  pub deref-drop_back :
      (id : ℕ) (l : List (Entry M D)) (e b : Entry M D)
      → back l ≡ some b
      → deref id l ≡ some e
      → b.key ≢ e.key
      → deref id (drop_back l) ≡ some e
  unfolding deref back drop_back
  deref-drop_back id [] e b hb h ne = cc
  deref-drop_back id (d ∷ []) e b hb h ne = ground arith
  deref-drop_back id (d ∷ c ∷ l) e b hb h ne = ground (arith, deref-drop_back id (c ∷ l) e b hb)

  -- A list with an element has a last one.
  pub back-some : (e : Entry M D) (l : List (Entry M D)) → (b : Entry M D) × (back (e ∷ l) ≡ some b)
  unfolding back
  back-some e [] = (e, refl)
  back-some e (d ∷ l) = back-some d l

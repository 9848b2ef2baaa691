-- ===== src/Http/Laws.antt =====
-- Laws of header maps.
use hyperway.Prelude.{
  ◌≡◌, ap, refl, inl, inr, Bool-cases, false, some, List, [], ◌∷◌, ◌++◌, arith, if◌then◌else◌,
}
use hyperway.Prelude.Str.{Str, str_eq, lookup}
use hyperway.Prelude.Str.Laws.{lookup-insert, str_eq_iff, str_eq_refl}
use hyperway.Http.{Header, canonical, get, set, add, add_values, add_all, or_nil, first_value}

pub get-set_self : (k v : Str) (h : Header) → get k (set k v h) ≡ v
unfolding get set first_value
get-set_self k v h = rw (lookup-insert, str_eq_refl)

pub get-set :
    (k j v : Str) (h : Header)
    → get j (set k v h) ≡ (if str_eq (canonical k) (canonical j) then v else get j h)
unfolding get set first_value
get-set k j v h = rw lookup-insert (ground (arith, str_eq_iff (canonical k) (canonical j)))

-- the header has the key, with that first value
abbrev pub Has : Str → Str → Header → Type 0
Has k v h = (vs : List Str) × (lookup (canonical k) h ≡ some (v ∷ vs))

pub get-Has : (k v : Str) (h : Header) → Has k v h → get k h ≡ v
unfolding get first_value
get-Has k v h (vs, e) = ap first_value e

pub set-Has : (k v : Str) (h : Header) → Has k v (set k v h)
unfolding set
set-Has k v h = ([], rw (lookup-insert, str_eq_refl) refl)

-- setting another key keeps a value
pub set-Has_other :
    (j w k v : Str) (h : Header)
    → str_eq (canonical j) (canonical k) ≡ false
    → Has k v h
    → Has k v (set j w h)
unfolding set
set-Has_other j w k v h differs (vs, e) = (vs, rw (lookup-insert, differs) e)

-- Adding a value keeps the first one of every key.
pub add-Has : (j w k v : Str) (h : Header) → Has k v h → Has k v (add j w h)
unfolding add or_nil
add-Has j w k v h (vs, e) = elim (Bool-cases (str_eq (canonical j) (canonical k))) [
  | inl same ↦ (
    vs ++ w ∷ [],
    rw (lookup-insert, same, (str_eq_iff (canonical j) (canonical k)).0 same, e) refl,
  )
  | inr differs ↦ (vs, rw (lookup-insert, differs) e)
]

add_values-Has :
    (j : Str) (ws : List Str) (k v : Str) (h : Header) → Has k v h → Has k v (add_values j ws h)
unfolding add_values
add_values-Has j [] k v h has = has
add_values-Has j (w ∷ ws) k v h has = add_values-Has j ws k v (add j w h) (add-Has j w k v h has)

pub add_all-Has :
    (prefix : Str) (more : Header) (k v : Str) (h : Header)
    → Has k v h
    → Has k v (add_all prefix more h)
unfolding add_all
add_all-Has prefix [] k v h has = has
add_all-Has prefix ((j, ws) ∷ more) k v h has =
    add_all-Has prefix more k v (add_values (prefix ++ j) ws h)
      (add_values-Has (prefix ++ j) ws k v h has)

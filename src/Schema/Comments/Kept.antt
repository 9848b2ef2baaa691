-- ===== src/Schema/Comments/Kept.antt =====
-- The locations of a file.
use hyperway.Prelude.{
  ℕ, ◌≡◌, refl, ap, true, false, Bool-cases, Option, inl, inr, none, some, List, [], ◌∷◌, ◌++◌, All,
}
use hyperway.Schema.Comments.{
  CommentInfo, Location, is_nil, has_comment, location_of, located, add_location, valid_locations,
  unless_empty, build_source_info,
}

-- what a location of the builder has: a path, and a comment
abbrev pub IsUsable : Location → Type 0
IsUsable l =
    (is_nil l.path ≡ false)
    × ((c : CommentInfo) × (has_comment (some c) ≡ true) × (l ≡ location_of l.path c))

All-append_one :
    (ls : List Location) (l : Location) → All IsUsable ls → IsUsable l → All IsUsable (ls ++ l ∷ [])
All-append_one [] l _ h = (h, tt)
All-append_one (x ∷ ls) l (hx, hs) h = (hx, All-append_one ls l hs h)

add_location-IsUsable :
    (path : List ℕ) (comment : Option CommentInfo) (ls : List Location)
    → All IsUsable ls
    → All IsUsable (add_location path comment ls)
unfolding add_location located has_comment
add_location-IsUsable path none ls h = h
add_location-IsUsable path (some c) ls h = elim (Bool-cases (has_comment (some c))) [
  | inr nothing ↦ simp (nothing) h
  | inl something ↦ elim (Bool-cases (is_nil path)) [
    | inl no_path ↦ simp (something, no_path) h
    | inr has_path ↦
        simp (something, has_path)
          (All-append_one ls (location_of path c) h (has_path, (c, something, refl)))
  ]
]

-- the locations after calls of `AddLocation`
unfoldable pub added : List (List ℕ × Option CommentInfo) → List Location → List Location
added [] ls = ls
added ((path, comment) ∷ more) ls = added more (add_location path comment ls)

added-IsUsable :
    (calls : List (List ℕ × Option CommentInfo)) (ls : List Location)
    → All IsUsable ls
    → All IsUsable (added calls ls)
unfolding added
added-IsUsable [] ls h = h
added-IsUsable ((path, comment) ∷ more) ls h =
    added-IsUsable more (add_location path comment ls) (add_location-IsUsable path comment ls h)

valid_locations-All : (ls : List Location) → All IsUsable ls → valid_locations ls ≡ ls
unfolding valid_locations
valid_locations-All [] h = refl
valid_locations-All (l ∷ ls) (h, hs) = simp (h.0) (ap (λ r. l ∷ r) (valid_locations-All ls hs))

build_usable : (ls : List Location) → All IsUsable ls → build_source_info ls ≡ unless_empty ls
unfolding build_source_info unless_empty
build_usable [] h = refl
build_usable (l ∷ ls) h = ap unless_empty (valid_locations-All (l ∷ ls) h)

-- Whatever locations are added to a new builder: each that it keeps has a path and the comments of one that is not empty, and
-- Build gives all that it keeps, or nil where there is none.
pub build_source_info-IsUsable :
    (calls : List (List ℕ × Option CommentInfo))
    → All IsUsable (added calls [])
      × (build_source_info (added calls []) ≡ unless_empty (added calls []))
build_source_info-IsUsable calls =
    let usable = added-IsUsable calls [] tt in (usable, build_usable (added calls []) usable)

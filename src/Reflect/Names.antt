-- ===== src/Reflect/Names.antt =====
-- From a Go name to a message field's and back.
use hyperway.Prelude.{
  ℕ, ◌≡◌, ◌≤◌, refl, true, false, inl, inr, ◌⊎◌, [], ◌∷◌, ◌++◌, append_assoc, map, All, arith, ◌==◌,
}
use hyperway.Prelude.Str.{Str, lower_byte, upper_byte, to_lower, split_from, split}
use hyperway.Reflect.{is_upper, underscored, to_snake, capital, joined, to_camel}

abbrev pub IsUpper : ℕ → Type 0
IsUpper c = (b'A' ≤ c) × (c ≤ b'Z')

-- a lower-case letter or a digit
abbrev pub IsPlain : ℕ → Type 0
IsPlain c = ((b'a' ≤ c) × (c ≤ b'z')) ⊎ ((b'0' ≤ c) × (c ≤ b'9'))

upper-lower : (c : ℕ) → IsUpper c → upper_byte (lower_byte c) ≡ c
upper-lower c (h, k) = ground arith

upper_underscored : (c : ℕ) → IsUpper c → is_upper c ≡ true
upper_underscored c (h, k) = ground arith

lower_no_sep : (c : ℕ) → IsUpper c → (lower_byte c == b'_') ≡ false
lower_no_sep c (h, k) = ground arith

plain_kept : (c : ℕ) → IsPlain c → (is_upper c ≡ false) × (lower_byte c ≡ c) × ((c == b'_') ≡ false)
plain_kept c (inl (h, k)) = (ground arith, ground arith, ground arith)
plain_kept c (inr (h, k)) = (ground arith, ground arith, ground arith)

-- what the parts of a name become, after the first byte of a part
to_camel_from :
    (x : ℕ) (part s : Str)
    → All (λ c. IsUpper c ⊎ IsPlain c) s
    → joined (map capital (split_from b'_' (x ∷ part) (to_lower (underscored false s))))
      ≡ upper_byte x ∷ (part ++ s)
unfolding underscored capital joined split_from to_lower
to_camel_from x part [] h = refl
to_camel_from x part (c ∷ s) (inl up, h) =
    rw
      (
        upper_underscored c up,
        lower_no_sep c up,
        to_camel_from (lower_byte c) [] s h,
        upper-lower c up,
      )
      refl
to_camel_from x part (c ∷ s) (inr plain, h) =
    let (no_upper, same, no_sep) = plain_kept c plain in
    rw (no_upper, same, no_sep, to_camel_from x (part ++ c ∷ []) s h, append_assoc part (c ∷ []) s)
      refl

-- A Go name of ASCII letters and digits that starts with a capital letter is what `snakeToCamel` makes of what `camelToSnake`
-- makes of it.
pub to_camel-to_snake :
    (c : ℕ) (s : Str)
    → IsUpper c
    → All (λ d. IsUpper d ⊎ IsPlain d) s
    → to_camel (to_snake (c ∷ s)) ≡ c ∷ s
unfolding to_camel to_snake underscored split split_from to_lower
to_camel-to_snake c s up h =
    rw (lower_no_sep c up, to_camel_from (lower_byte c) [] s h, upper-lower c up) refl

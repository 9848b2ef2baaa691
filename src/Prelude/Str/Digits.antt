-- ===== src/Prelude/Str/Digits.antt =====
-- The text of a number is read back.
use Prim.Native.Nat.{ℕ, zero, suc, ◌+◌, ◌*◌, ◌/◌, ◌%◌, ◌^◌, ◌≤◌, ◌<◌}
use hyperway.Prelude.Tests.{ltb, Bool-cases}
use mathlib.Core.Path.{◌≡◌, refl, sym, ap, ◌∙◌}
use mathlib.Core.Logic.{inl, inr}
use mathlib.Core.Bool.{true, false}
use mathlib.Core.List.{[], ◌∷◌}
use mathlib.Core.Option.{Option, none, some}
use native.Mathlib.Omega.{arith}
use hyperway.Prelude.Int.{pos}
use hyperway.Prelude.Str.{Str}
use hyperway.Prelude.Str.Numbers.{digits, all_digits, itoa, atoi, in_range}

or_0 : Option ℕ → ℕ
or_0 none = 0
or_0 (some k) = k

all_digits-digit :
    (so_far : Option ℕ) (d : ℕ) (acc : Str)
    → d < 10
    → all_digits so_far ((48 + d) ∷ acc) ≡ all_digits (some (or_0 so_far * 10 + d)) acc
unfolding all_digits or_0
all_digits-digit none d acc h = ground arith
all_digits-digit (some k) d acc h = ground arith

all_digits-digits :
    (fuel n : ℕ) (acc : Str)
    → n < fuel
    → all_digits none (digits fuel n acc) ≡ all_digits (some n) acc
unfolding digits or_0
all_digits-digits zero n acc h = ground (arith, h)
all_digits-digits (suc fuel) n acc h =
    let c = (48 + n % 10) ∷ acc in
    elim (Bool-cases (ltb n 10)) [
      | inl small ↦ rw small (
          all_digits-digit none (n % 10) acc (omega arith)
          ∙ ap (λ m. all_digits (some m) acc) (last_digit small))
      | inr large ↦ rw large (
          all_digits-digits fuel (n / 10) c (smaller large)
          ∙ all_digits-digit (some (n / 10)) (n % 10) acc (omega arith)
          ∙ ap (λ m. all_digits (some m) acc) (omega arith))
    ]
  where
    last_digit : ltb n 10 ≡ true → 0 * 10 + n % 10 ≡ n
    last_digit small = ground arith

    smaller : ltb n 10 ≡ false → n / 10 < fuel
    smaller large = ground arith

-- the first byte of the text is a digit
digits_head :
    (fuel n : ℕ) (acc : Str)
    → n < fuel
    → (c : ℕ) × ((s : Str) × (digits fuel n acc ≡ c ∷ s) × (48 ≤ c))
unfolding digits
digits_head zero n acc h = ground (arith, h)
digits_head (suc fuel) n acc h = elim (Bool-cases (ltb n 10)) [
  | inl small ↦ (48 + n % 10, (acc, rw small refl, omega arith))
  | inr large ↦ rw large (digits_head fuel (n / 10) ((48 + n % 10) ∷ acc) (smaller large))
]
  where
    smaller : ltb n 10 ≡ false → n / 10 < fuel
    smaller large = ground arith

-- a text of digits only has no sign
atoi-unsigned : (c : ℕ) (s : Str) → 48 ≤ c → atoi (c ∷ s) ≡ in_range (all_digits none (c ∷ s))
unfolding atoi
atoi-unsigned c s h = ground arith

in_range-small : (n : ℕ) → n < 2 ^ 63 → in_range (some n) ≡ some (pos n)
unfolding in_range
in_range-small n h = ground arith

pub atoi-itoa : (n : ℕ) → n < 2 ^ 63 → atoi (itoa n) ≡ some (pos n)
unfolding itoa all_digits
atoi-itoa n h =
    let (c, (s, e, digit)) = digits_head (suc n) n [] (omega arith) in
    let whole = all_digits-digits (suc n) n [] (omega arith) in
    ap atoi e
    ∙ atoi-unsigned c s digit
    ∙ ap in_range (ap (all_digits none) (sym e) ∙ whole)
    ∙ in_range-small n h

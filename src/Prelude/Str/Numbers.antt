-- ===== src/Prelude/Str/Numbers.antt =====
-- strconv.Itoa of a number and strconv.Atoi.
use Prim.Native.Nat.{ℕ, zero, suc, ◌+◌, ◌-◌, ◌*◌, ◌/◌, ◌%◌, ◌^◌}
use hyperway.Prelude.Tests.{ltb, leb, ◌==◌, if◌then◌else◌}
use mathlib.Core.Bool.{◌&&◌}
use mathlib.Core.List.{[], ◌∷◌}
use mathlib.Core.Option.{Option, none, some}
use hyperway.Prelude.Int.{ℤ, pos, negsuc}
use hyperway.Prelude.Str.{Str}

unfoldable pub digits : ℕ → ℕ → Str → Str
digits zero n acc = acc
digits (suc fuel) n acc =
    let c : ℕ = 48 + n % 10 in
    let more = digits fuel (n / 10) (c ∷ acc) in if ltb n 10 then c ∷ acc else more

-- A number has fewer digits than the number and one.
unfoldable pub itoa : ℕ → Str
unfolding digits
itoa n = digits (suc n) n []

-- all bytes are digits, and there is one
unfoldable pub all_digits : Option ℕ → Str → Option ℕ
all_digits acc [] = acc
all_digits acc (c ∷ s) =
    let n : ℕ = elim acc [ none ↦ 0 | some k ↦ k ] in
    let more = all_digits (some (n * 10 + (c - 48))) s in
    if leb 48 c && leb c 57 then more else none

unfoldable pub in_range : Option ℕ → Option ℤ
in_range none = none
in_range (some n) = if ltb n (2 ^ 63) then some (pos n) else none

negated : Option ℕ → Option ℤ
negated none = none
negated (some zero) = some (pos 0)
negated (some (suc n)) = if ltb n (2 ^ 63) then some (negsuc n) else none

unfoldable pub atoi : Str → Option ℤ
unfolding all_digits in_range negated
atoi [] = none
atoi (c ∷ s) =
    if c == 45
    then negated (all_digits none s)
    else if c == 43
    then in_range (all_digits none s)
    else in_range (all_digits none (c ∷ s))

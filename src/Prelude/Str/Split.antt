-- ===== src/Prelude/Str/Split.antt =====
-- Splitting and cutting a text at a byte.
use Prim.Native.Nat.{ℕ}
use mathlib.Core.Path.{◌≡◌}
use mathlib.Core.Logic.{◌≢◌}
use mathlib.Core.List.{[], ◌∷◌, ◌++◌, append_assoc, append-nil}
use mathlib.Core.Option.{some}
use native.Mathlib.Omega.{arith}
use hyperway.Prelude.Lists.{All}
use hyperway.Prelude.Str.{Str, split_from, cut}

-- the byte does not stand in the text
abbrev pub IsFree : ℕ → Str → Type 0
IsFree sep s = All (λ c. c ≢ sep) s

pub split_from_free :
    (sep : ℕ) (cur s : Str) → IsFree sep s → split_from sep cur s ≡ (cur ++ s) ∷ []
unfolding split_from
split_from_free sep cur [] h = rw append-nil
split_from_free sep cur (c ∷ s) (hc, hs) =
    ground (arith, split_from_free sep (cur ++ c ∷ []) s hs, append_assoc cur (c ∷ []) s)

pub split_from-sep :
    (sep : ℕ) (cur a b : Str)
    → IsFree sep a
    → split_from sep cur (a ++ sep ∷ b) ≡ (cur ++ a) ∷ split_from sep [] b
unfolding split_from
split_from-sep sep cur [] b h = ground (arith, append-nil cur)
split_from-sep sep cur (c ∷ a) b (hc, ha) =
    ground (arith, split_from-sep sep (cur ++ c ∷ []) a b ha, append_assoc cur (c ∷ []) a)

pub cut-sep : (sep : ℕ) (a b : Str) → IsFree sep a → cut sep (a ++ sep ∷ b) ≡ some (a, b)
unfolding cut
cut-sep sep [] b h = ground arith
cut-sep sep (c ∷ a) b (hc, ha) = ground (arith, cut-sep sep a b ha)

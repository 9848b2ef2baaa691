-- ===== src/Float.antt =====
-- Go's float64 as an interface: the operations that the program uses, and the laws of them that a
-- theorem needs as its hypotheses. `thousandths` is an implementation by scaled integers, exact on
-- numbers with three decimal places.
use hyperway.Prelude.{ℕ, ◌*◌, ◌/◌, ◌^◌, ◌≡◌, Bool, true, false, zero, suc, arith}
use hyperway.Prelude.Int.{ℤ, pos, negsuc, pos_part, neg_part, sub_ℕ, ◌+ℤ◌, ◌-ℤ◌, ◌*ℤ◌, ltb_ℤ}

pub record Float : Type 1 where
  pub F : Type 0
  -- float64(n)
  pub of_int : ℤ → F
  -- the literal n / 10 ^ k
  pub decimal : ℕ → ℕ → F
  pub add : F → F → F
  pub sub : F → F → F
  pub mul : F → F → F
  pub div : F → F → F
  pub pow : F → F → F
  -- a < b
  pub lt : F → F → Bool
  -- int64(x)
  pub to_int : F → ℤ

-- What the throttle relies on: `<` is irreflexive, taking one away
-- keeps a number below a bound and a number of at least one not below zero, adding a positive
-- number to one that is not below zero gives one that is not below zero, and half of a number from 0
-- on lies between it and zero. NaN, which compares with nothing, keeps them too.
pub record IsOrdered (f : Float) : Type 0 where
  pub irrefl : (x : f.F) → f.lt x x ≡ false
  pub sub_one_le : (x m : f.F) → f.lt m x ≡ false → f.lt m (f.sub x (f.of_int (pos 1))) ≡ false
  pub sub_one_nonneg :
      (x : f.F)
      → f.lt x (f.of_int (pos 1)) ≡ false
      → f.lt (f.sub x (f.of_int (pos 1))) (f.of_int (pos 0)) ≡ false
  pub add_nonneg :
      (x y : f.F)
      → f.lt x (f.of_int (pos 0)) ≡ false
      → f.lt (f.of_int (pos 0)) y ≡ true
      → f.lt (f.add x y) (f.of_int (pos 0)) ≡ false
  pub half :
      (n : ℕ)
      → (f.lt (f.of_int (pos n)) (f.div (f.of_int (pos n)) (f.of_int (pos 2))) ≡ false)
        × (f.lt (f.div (f.of_int (pos n)) (f.of_int (pos 2))) (f.of_int (pos 0)) ≡ false)
  pub of_int_nonneg : (n : ℕ) → f.lt (f.of_int (pos n)) (f.of_int (pos 0)) ≡ false

-- n / d, towards zero
abbrev quotient : ℤ → ℕ → ℤ
quotient a d = sub_ℕ (pos_part a / d) (neg_part a / d)

abbrev power : ℤ → ℕ → ℤ
power x zero = pos 1000
power x (suc n) = quotient (x *ℤ power x n) 1000

abbrev divide : ℤ → ℤ → ℤ
divide a (pos d) = quotient (a *ℤ pos 1000) d
divide a (negsuc d) = quotient (pos 0 -ℤ a *ℤ pos 1000) (suc d)

abbrev pub thousandths : Float
thousandths = record {
  F = ℤ;
  of_int = λ n. n *ℤ pos 1000;
  decimal = λ n k. pos (n * 1000 / 10 ^ k);
  add = λ a b. a +ℤ b;
  sub = λ a b. a -ℤ b;
  mul = λ a b. quotient (a *ℤ b) 1000;
  div = divide;
  pow = λ a b. power a (pos_part b / 1000);
  lt = ltb_ℤ;
  to_int = λ a. quotient a 1000;
}

pub thousandths-IsOrdered : IsOrdered thousandths
thousandths-IsOrdered = record {
  irrefl = λ x. ground arith;
  sub_one_le = λ x m h. ground arith;
  sub_one_nonneg = λ x h. ground arith;
  add_nonneg = λ x y h k. ground arith;
  half = λ n. (ground arith, ground arith);
  of_int_nonneg = λ n. ground arith;
}

-- ===== src/Reflect/Numbers/Exact.antt =====
-- Which numbers a field keeps.
use hyperway.Prelude.{ℕ, ◌^◌, ◌<◌, ◌≡◌, ◌↔◌, arith}
use hyperway.Prelude.Int.{ℤ, pos, negsuc}
use hyperway.Reflect.Numbers.{
  IntegerKind, int32_kind, int64_kind, uint32_kind, uint64_kind, signed, unsigned, stored,
  set_integer, set_numeric, is_numeric_kind, to_int64, to_uint64, clamped,
}

-- from -a up to b, without b
abbrev pub Between : ℕ → ℕ → ℤ → Type 0
Between a b (pos n) = n < b
Between a b (negsuc n) = n < a

-- the values of a kind
abbrev pub Fits : IntegerKind → ℤ → Type 0
Fits int32_kind z = Between (2 ^ 31) (2 ^ 31) z
Fits int64_kind z = Between (2 ^ 63) (2 ^ 63) z
Fits uint32_kind z = Between 0 (2 ^ 32) z
Fits uint64_kind z = Between 0 (2 ^ 64) z

module _ {F : Type 0} (int64_of : F → ℤ) (uint64_of : F → ℕ) where
  set_integer-signed :
      (kind : IntegerKind) (z : ℤ)
      → Between (2 ^ 63) (2 ^ 63) z
      → (set_integer int64_of uint64_of kind (signed z) ≡ stored z) ↔ Fits kind z
  unfolding set_integer set_numeric is_numeric_kind to_int64 to_uint64 clamped
  set_integer-signed int32_kind (pos n) h = ground arith
  set_integer-signed int32_kind (negsuc n) h = ground arith
  set_integer-signed int64_kind (pos n) h = ground arith
  set_integer-signed int64_kind (negsuc n) h = ground arith
  set_integer-signed uint32_kind (pos n) h = ground arith
  set_integer-signed uint32_kind (negsuc n) h = ground arith
  set_integer-signed uint64_kind (pos n) h = ground arith
  set_integer-signed uint64_kind (negsuc n) h = ground arith

  set_integer-unsigned :
      (kind : IntegerKind) (n : ℕ)
      → n < 2 ^ 64
      → (set_integer int64_of uint64_of kind (unsigned n) ≡ stored (pos n)) ↔ Fits kind (pos n)
  unfolding set_integer set_numeric is_numeric_kind to_int64 to_uint64 clamped
  set_integer-unsigned int32_kind n h = ground arith
  set_integer-unsigned int64_kind n h = ground arith
  set_integer-unsigned uint32_kind n h = ground arith
  set_integer-unsigned uint64_kind n h = ground arith

  -- A number of 64 bits, with a sign or without: a field that takes numbers keeps it exactly if it fits the field's kind, and
  -- every number that fits is taken.
  pub set_integer-Fits :
      (kind : IntegerKind) (z : ℤ) (n : ℕ)
      → Between (2 ^ 63) (2 ^ 63) z
      → n < 2 ^ 64
      → ((set_integer int64_of uint64_of kind (signed z) ≡ stored z) ↔ Fits kind z)
        × ((set_integer int64_of uint64_of kind (unsigned n) ≡ stored (pos n)) ↔ Fits kind (pos n))
  set_integer-Fits kind z n h k = (set_integer-signed kind z h, set_integer-unsigned kind n k)

-- ===== src/Reflect/Numbers.antt =====
-- internal/reflect/convert.go: a Go number that is put into a message's field of integers.
pub mod Exact
use hyperway.Prelude.{
  ℕ, ◌^◌, ◌-◌, ◌≡◌, Bool, true, false, ◌||◌, Option, none, some, ltb, if◌then◌else◌,
}
use hyperway.Prelude.Int.{ℤ, pos, negsuc, ltb_ℤ, wrap_ℕ}

-- a field's kind, with the kinds that are encoded in another way but treated as it
pub data IntegerKind : Type 0 where
  int32_kind int64_kind uint32_kind uint64_kind : IntegerKind

-- a value that is no pointer, by its kind; `F` are the numbers of float64
pub data GoValue (F : Type 0) : Type 0 where
  signed : ℤ → GoValue F
  unsigned : ℕ → GoValue F
  floating : F → GoValue F
  not_numeric : GoValue F

-- the value of the field, or an error
pub data Stored : Type 0 where
  stored : ℤ → Stored
  expected_numeric overflow : Stored

unfoldable pub clamped : ℤ → ℕ
clamped (pos n) = n
clamped (negsuc n) = 0

-- `int64_of` and `uint64_of` are the conversions of a float
module _ {F : Type 0} (int64_of : F → ℤ) (uint64_of : F → ℕ) where
  unfoldable pub is_numeric_kind : GoValue F → Bool
  is_numeric_kind (signed z) = true
  is_numeric_kind (unsigned n) = true
  is_numeric_kind (floating x) = true
  is_numeric_kind not_numeric = false

  unfoldable pub to_int64 : GoValue F → ℤ
  to_int64 (signed z) = z
  to_int64 (unsigned n) = wrap_ℕ n
  to_int64 (floating x) = int64_of x
  to_int64 not_numeric = pos 0

  unfoldable pub to_uint64 : GoValue F → ℕ
  unfolding clamped
  to_uint64 (signed z) = clamped z
  to_uint64 (unsigned n) = n
  to_uint64 (floating x) = uint64_of x
  to_uint64 not_numeric = 0

  unfoldable pub set_numeric : IntegerKind → GoValue F → Stored
  unfolding to_int64 to_uint64
  set_numeric int32_kind v =
      if ltb_ℤ (pos (2 ^ 31 - 1)) (to_int64 v) || ltb_ℤ (to_int64 v) (negsuc (2 ^ 31 - 1))
      then overflow
      else stored (to_int64 v)
  set_numeric int64_kind v = stored (to_int64 v)
  set_numeric uint32_kind v =
      if ltb (2 ^ 32 - 1) (to_uint64 v) then overflow else stored (pos (to_uint64 v))
  set_numeric uint64_kind v = stored (pos (to_uint64 v))

  -- the cases of `setProtoValue` for integers
  unfoldable pub set_integer : IntegerKind → GoValue F → Stored
  unfolding is_numeric_kind set_numeric
  set_integer kind v = if is_numeric_kind v then set_numeric kind v else expected_numeric

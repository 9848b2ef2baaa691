-- ===== src/Rpc/Errors.antt =====
-- rpc/errors.go and rpc/error_details.go: the error values that handlers return.
use hyperway.Prelude.{
  ℕ, ◌+◌, ◌-◌, ◌*◌, ◌/◌, ◌%◌, Bool, true, false, ◌||◌, Option, none, some, List, [], ◌∷◌, ◌++◌, map,
  ltb, ◌==◌, if◌then◌else◌,
}
use hyperway.Prelude.Int.{ℤ}
use hyperway.Prelude.Str.{Str, str, str_eq}
use hyperway.Rpc.Codes.{Code}

-- The values that a detail holds: nil, an int, a string, a []byte, or another Go value by identity.
pub data Value : Type 0 where
  null : Value
  int : ℤ → Value
  string : Str → Value
  bytes : List ℕ → Value
  opaque : ℕ → Value

pub record ErrorDetail : Type 0 where
  pub type : Str
  pub value : Value

-- The values of an error's `Details`: those above, and what `FormatForProtocol` builds.
pub data Any : Type 0 where
  plain : Value → Any
  connect_details : List (Str × Value) → Any
  raw_details : List ErrorDetail → Any

abbrev pub Details : Type 0
Details = List (Str × Any)

-- A nil map of details is `none`.
pub record Error : Type 0 where
  pub code : Code
  pub message : Str
  pub details : Option Details

unfoldable pub new_error : Code → Str → Error
new_error code message = record { code = code; message = message; details = none }

-- (*Error).Error
unfoldable pub error_text : Error → Str
error_text e = e.code ++ str ": " ++ e.message

pub record ErrorWithDetails : Type 0 where
  pub base : Error
  pub details : List ErrorDetail

unfoldable pub new_error_with_details : Code → Str → List ErrorDetail → ErrorWithDetails
unfolding new_error
new_error_with_details code message details = record {
  base = new_error code message;
  details = details;
}

unfoldable pub add_detail : ErrorDetail → ErrorWithDetails → ErrorWithDetails
add_detail d e = record e { details = e.details ++ d ∷ [] }

-- base64.RawStdEncoding.EncodeToString
abbrev base64_digit : ℕ → ℕ
base64_digit n =
    if ltb n 26
    then 65 + n
    else if ltb n 52
    then 71 + n
    else if ltb n 62
    then n - 4
    else if n == 62
    then 43
    else 47

raw_base64 : List ℕ → Str
raw_base64 [] = []
raw_base64 (a ∷ []) = base64_digit (a / 4) ∷ base64_digit (a % 4 * 16) ∷ []
raw_base64 (a ∷ b ∷ []) =
    base64_digit (a / 4) ∷ base64_digit (a % 4 * 16 + b / 16) ∷ base64_digit (b % 16 * 4) ∷ []
raw_base64 (a ∷ b ∷ c ∷ more) =
    base64_digit (a / 4)
    ∷ base64_digit (a % 4 * 16 + b / 16)
    ∷ base64_digit (b % 16 * 4 + c / 64)
    ∷ base64_digit (c % 64)
    ∷ raw_base64 more

-- one element of the Connect form: its type, and its value with bytes in base64
unfoldable pub connect_detail : ErrorDetail → Str × Value
unfolding raw_base64
connect_detail d = (
  d.type,
  elim d.value [
    | bytes b ↦ string (raw_base64 b)
    | null ↦ null
    | int n ↦ int n
    | string s ↦ string s
    | opaque n ↦ opaque n
  ],
)

-- a nil interface is `none`
first_value : List ErrorDetail → Option Any
first_value [] = none
first_value (d ∷ more) = elim d.value [
  | null ↦ none
  | int n ↦ some (plain (int n))
  | string s ↦ some (plain (string s))
  | bytes b ↦ some (plain (bytes b))
  | opaque n ↦ some (plain (opaque n))
]

is_empty {ℓ} : {A : Type ℓ} → List A → Bool
is_empty [] = true
is_empty (x ∷ xs) = false

unfoldable pub format_for_protocol : Str → ErrorWithDetails → Option Any
unfolding is_empty connect_detail first_value
format_for_protocol protocol e =
    if is_empty e.details
    then none
    else if str_eq protocol (str "connect")
    then some (connect_details (map connect_detail e.details))
    else if str_eq protocol (str "grpc") || str_eq protocol (str "grpc-web")
    then first_value e.details
    else some (raw_details e.details)

unfoldable pub to_error : Str → ErrorWithDetails → Error
to_error protocol e = elim (format_for_protocol protocol e) [
  | none ↦ record { code = e.base.code; message = e.base.message; details = none }
  | some d ↦ record {
    code = e.base.code;
    message = e.base.message;
    details = some ((str "details", d) ∷ []);
  }
]

-- Go's `error` interface: the two types of this package, the two errors of package context that
-- the code compares with, and any other error by its text.
pub data GoError : Type 0 where
  rpc : Error → GoError
  with_details : ErrorWithDetails → GoError
  context_deadline_exceeded context_canceled : GoError
  other : Str → GoError

-- err.Error()
unfoldable pub text : GoError → Str
unfolding error_text
text (rpc e) = error_text e
text (with_details e) = error_text e.base
text context_deadline_exceeded = str "context deadline exceeded"
text context_canceled = str "context canceled"
text (other s) = s

-- A Go pair of a value and an error, of which one counts.
pub data Outcome (A : Type 0) : Type 0 where
  done : A → Outcome A
  failed : GoError → Outcome A

-- ===== src/Rpc/Interceptor.antt =====
-- rpc/retry_interceptor.go: how the retry interceptor finds the policy of a method, and what it
-- reads from an error. The loop is in Rpc/RetryLoop.
pub mod Lookup
pub mod Status
use hyperway.Prelude.{
  ℕ, zero, suc, ◌+◌, ◌-◌, ◌*◌, ◌^◌, Bool, false, ◌&&◌, ◌||◌, Option, none, some, List, [], ◌∷◌, leb,
  ltb, ◌==◌, if◌then◌else◌,
}
use hyperway.Prelude.Int.{ℤ, pos, negsuc}
use hyperway.Prelude.Str.{Str, str, str_eq, lookup, split, contains, to_upper}
use hyperway.Float.{Float}
use hyperway.Rpc.Codes.{code_to_status_map, status_unknown, or_default}
use hyperway.Rpc.Errors.{Any, plain, int, string, GoError, rpc, text, Details}
use hyperway.Rpc.Retry.{RetryPolicy, MethodName, MethodConfig, ServiceConfig, default_retry_policy}

-- the first entry of `names` that applies to the method: no method name means all methods
abbrev pub applies : Str → Str → MethodName → Bool
applies service method name =
    str_eq name.service service && (str_eq name.method [] || str_eq name.method method)

unfoldable pub any_applies : Str → Str → List MethodName → Bool
any_applies service method [] = false
any_applies service method (name ∷ more) =
    applies service method name || any_applies service method more

unfoldable pub first_policy :
    {F : Type 0} → Str → Str → List (MethodConfig F) → Option (RetryPolicy F)
first_policy service method [] = none
first_policy service method (mc ∷ more) =
    if any_applies service method mc.name then mc.retry_policy else first_policy service method more

-- the parts of "/package.Service/Method"; any other number of parts has no policy
by_parts : {F : Type 0} → List (MethodConfig F) → List Str → Option (RetryPolicy F)
by_parts configs (root ∷ service ∷ method ∷ []) = first_policy service method configs
by_parts configs _ = none

unfoldable pub find_retry_policy :
    {F : Type 0} → Option (ServiceConfig F) → Str → Option (RetryPolicy F)
unfolding by_parts
find_retry_policy none method = none
find_retry_policy (some config) method = by_parts config.method_config (split 47 method)

abbrev pub status_codes : List Str
status_codes =
    str "CANCELED"
    ∷ str "UNKNOWN"
    ∷ str "INVALID_ARGUMENT"
    ∷ str "DEADLINE_EXCEEDED"
    ∷ str "NOT_FOUND"
    ∷ str "ALREADY_EXISTS"
    ∷ str "PERMISSION_DENIED"
    ∷ str "RESOURCE_EXHAUSTED"
    ∷ str "FAILED_PRECONDITION"
    ∷ str "ABORTED"
    ∷ str "OUT_OF_RANGE"
    ∷ str "UNIMPLEMENTED"
    ∷ str "INTERNAL"
    ∷ str "UNAVAILABLE"
    ∷ str "DATA_LOSS"
    ∷ str "UNAUTHENTICATED"
    ∷ []

unfoldable pub first_contained : Str → List Str → Str
first_contained s [] = str "UNKNOWN"
first_contained s (code ∷ more) = if contains code s then code else first_contained s more

unfoldable pub extract_status_code : Option GoError → Str
unfolding first_contained
extract_status_code none = []
extract_status_code (some (rpc e)) = or_default status_unknown (lookup e.code code_to_status_map)
extract_status_code (some err) = first_contained (to_upper (text err)) status_codes

unfoldable pub listed : Str → List Str → Bool
listed code [] = false
listed code (c ∷ more) = str_eq code c || listed code more

unfoldable pub is_retryable : {F : Type 0} → Option GoError → Option (RetryPolicy F) → Bool
is_retryable none policy = false
is_retryable (some err) none = false
is_retryable (some err) (some policy) =
    listed (extract_status_code (some err)) policy.retryable_status_codes

is_digit : ℕ → Bool
is_digit c = leb 48 c && leb c 57

-- the number at the front of a text, `none` if no digit stands there
digits_from : Option ℕ → Str → Option ℕ
digits_from acc [] = acc
digits_from acc (c ∷ s) =
    let n : ℕ = elim acc [ none ↦ 0 | some k ↦ k ] in
    let more = digits_from (some (n * 10 + (c - 48))) s in if is_digit c then more else acc

positive_int : Option ℕ → Option ℤ
positive_int none = none
positive_int (some n) = if ltb n (2 ^ 63) then some (pos n) else none

negative_int : Option ℕ → Option ℤ
negative_int none = none
negative_int (some zero) = some (pos 0)
negative_int (some (suc n)) = if ltb n (2 ^ 63) then some (negsuc n) else none

signed : Str → Option ℤ
unfolding positive_int negative_int digits_from is_digit
signed [] = none
signed (c ∷ s) =
    if c == 45
    then negative_int (digits_from none s)
    else if c == 43
    then positive_int (digits_from none s)
    else positive_int (digits_from none (c ∷ s))

-- blanks but no line feed, which ends the input of Sscanf
is_blank : ℕ → Bool
is_blank c = c == 32 || c == 9 || (leb 11 c && leb c 13)

-- fmt.Sscanf(s, "%d", &ms): blanks, a sign and digits; what follows them is not read
unfoldable pub scan_int : Str → Option ℤ
unfolding signed is_blank
scan_int [] = none
scan_int (c ∷ s) = let rest = scan_int s in if is_blank c then rest else signed (c ∷ s)

or_zero : Option ℤ → ℤ
or_zero none = pos 0
or_zero (some n) = n

pushback_of : Option Any → ℤ
unfolding or_zero
pushback_of (some (plain (int ms))) = ms
pushback_of (some (plain (string s))) = or_zero (scan_int s)
pushback_of _ = pos 0

pushback_in : Option Details → ℤ
unfolding pushback_of
pushback_in none = pos 0
pushback_in (some details) = pushback_of (lookup (str "grpc-retry-pushback-ms") details)

unfoldable pub extract_pushback_ms : GoError → ℤ
unfolding pushback_in
extract_pushback_ms (rpc e) = pushback_in e.details
extract_pushback_ms err = pos 0

-- DefaultRetryInterceptor's configuration: one entry, for the service whose name is empty.
unfoldable pub default_config : (f : Float) → (Str → Option ℤ) → ServiceConfig f.F
default_config f parse_duration = record {
  method_config =
      record {
        name = record { service = []; method = [] } ∷ [];
        timeout = [];
        retry_policy = some (default_retry_policy f parse_duration);
      }
      ∷ [];
  retry_throttling = some (record { max_tokens = pos 100; token_ratio = f.decimal 1 1 });
}

-- ===== src/Rpc/Retry.antt =====
-- rpc/retry.go: retry policies, their validation and their backoff. A duration is a number of
-- nanoseconds in an int64. The parser of duration texts and the random source are parameters.
pub mod Policy
use hyperway.Prelude.{
  ℕ, ◌+◌, Bool, true, false, not, ◌||◌, Option, none, some, List, [], ◌∷◌, ◌⊎◌, inl, inr,
  if◌then◌else◌,
}
use hyperway.Prelude.Int.{ℤ, pos, ◌-ℤ◌, ltb_ℤ}
use hyperway.Prelude.Str.{Str, str, lookup}
use hyperway.Float.{Float}

pub record RetryPolicy (F : Type 0) : Type 0 where
  pub max_attempts : ℤ
  pub initial_backoff : Str
  pub max_backoff : Str
  pub backoff_multiplier : F
  pub retryable_status_codes : List Str

pub record RetryThrottling (F : Type 0) : Type 0 where
  pub max_tokens : ℤ
  pub token_ratio : F

pub record MethodName : Type 0 where
  pub service : Str
  pub method : Str

pub record MethodConfig (F : Type 0) : Type 0 where
  pub name : List MethodName
  pub timeout : Str
  pub retry_policy : Option (RetryPolicy F)

pub record ServiceConfig (F : Type 0) : Type 0 where
  pub method_config : List (MethodConfig F)
  pub retry_throttling : Option (RetryThrottling F)

-- Why a configuration is refused, one constructor for each message.
pub data ConfigError : Type 0 where
  few_attempts : ℤ → ConfigError
  bad_initial_backoff : ConfigError
  bad_max_backoff : ConfigError
  negative_multiplier : ConfigError
  bad_status_code : Str → ConfigError
  max_tokens_range : ℤ → ConfigError
  token_ratio_range : ConfigError
  not_json : ConfigError
  in_method_config : ℕ → ConfigError → ConfigError
  in_throttling : ConfigError → ConfigError

abbrev pub valid_status_codes : List (Str × Bool)
valid_status_codes =
    (str "CANCELED", true)
    ∷ (str "UNKNOWN", true)
    ∷ (str "INVALID_ARGUMENT", true)
    ∷ (str "DEADLINE_EXCEEDED", true)
    ∷ (str "NOT_FOUND", true)
    ∷ (str "ALREADY_EXISTS", true)
    ∷ (str "PERMISSION_DENIED", true)
    ∷ (str "RESOURCE_EXHAUSTED", true)
    ∷ (str "FAILED_PRECONDITION", true)
    ∷ (str "ABORTED", true)
    ∷ (str "OUT_OF_RANGE", true)
    ∷ (str "UNIMPLEMENTED", true)
    ∷ (str "INTERNAL", true)
    ∷ (str "UNAVAILABLE", true)
    ∷ (str "DATA_LOSS", true)
    ∷ (str "UNAUTHENTICATED", true)
    ∷ []

-- `m[k]` of a map of booleans: false where the key is missing
abbrev is_true : Option Bool → Bool
is_true none = false
is_true (some b) = b

unfoldable pub is_status_code : Str → Bool
unfolding lookup
is_status_code code = is_true (lookup code valid_status_codes)

unfoldable pub validate_codes : List Str → Option ConfigError
validate_codes [] = none
validate_codes (code ∷ more) =
    if is_status_code code then validate_codes more else some (bad_status_code code)

is_some {ℓ} : {A : Type ℓ} → Option A → Bool
is_some none = false
is_some (some a) = true

is_blank : Str → Bool
is_blank [] = true
is_blank (c ∷ s) = false

-- `parse_duration` is time.ParseDuration, in nanoseconds, with `none` for an error.
module _ (f : Float) (parse_duration : Str → Option ℤ) where
  unfoldable pub duration_ok : Str → Bool
  unfolding is_blank is_some
  duration_ok s = is_blank s || is_some (parse_duration s)

  unfoldable pub validate_retry_policy : Option (RetryPolicy f.F) → Option ConfigError
  validate_retry_policy none = none
  validate_retry_policy (some policy) =
      if not (ltb_ℤ (pos 1) policy.max_attempts)
      then some (few_attempts policy.max_attempts)
      else if not (duration_ok policy.initial_backoff)
      then some bad_initial_backoff
      else if not (duration_ok policy.max_backoff)
      then some bad_max_backoff
      else if f.lt policy.backoff_multiplier (f.of_int (pos 0))
      then some negative_multiplier
      else validate_codes policy.retryable_status_codes

  -- `x <= 0` on float64 is read as `not (0 < x)`, which is the same on numbers.
  unfoldable pub validate_retry_throttling : Option (RetryThrottling f.F) → Option ConfigError
  validate_retry_throttling none = none
  validate_retry_throttling (some throttling) =
      if not (ltb_ℤ (pos 0) throttling.max_tokens) || ltb_ℤ (pos 1000) throttling.max_tokens
      then some (max_tokens_range throttling.max_tokens)
      else if not (f.lt (f.of_int (pos 0)) throttling.token_ratio)
      then some token_ratio_range
      else none

  -- the loop over `config.MethodConfig`, from index `i`
  unfoldable pub validate_methods : ℕ → List (MethodConfig f.F) → Option ConfigError
  validate_methods i [] = none
  validate_methods i (mc ∷ more) =
      let rest = validate_methods (i + 1) more in
      elim (validate_retry_policy mc.retry_policy) [
        | some e ↦ some (in_method_config i e)
        | none ↦ rest
      ]

  -- `unmarshal` is json.Unmarshal into a ServiceConfig, with `none` for an error.
  unfoldable pub parse_service_config :
      (Str → Option (ServiceConfig f.F)) → Str → ConfigError ⊎ ServiceConfig f.F
  parse_service_config unmarshal json = elim (unmarshal json) [
    | none ↦ inl not_json
    | some config ↦ elim (validate_methods 0 config.method_config) [
      | some e ↦ inl e
      | none ↦ elim (validate_retry_throttling config.retry_throttling) [
        | some e ↦ inl (in_throttling e)
        | none ↦ inr config
      ]
    ]
  ]

  abbrev or_else : ℤ → Option ℤ → ℤ
  or_else d none = d
  or_else d (some n) = n

  abbrev pub default_initial_backoff : ℤ
  default_initial_backoff = pos 100_000_000

  abbrev pub default_max_backoff : ℤ
  default_max_backoff = pos 30_000_000_000

  -- The delay before jitter: the growing backoff, capped at the maximum. `x <= 0` as above.
  unfoldable pub capped_backoff : RetryPolicy f.F → ℤ → f.F
  capped_backoff policy attempt =
      let initial = or_else default_initial_backoff (parse_duration policy.initial_backoff) in
      let most = or_else default_max_backoff (parse_duration policy.max_backoff) in
      let multiplier =
        if not (f.lt (f.of_int (pos 0)) policy.backoff_multiplier)
        then f.decimal 20 1
        else policy.backoff_multiplier in
      let backoff = f.mul (f.of_int initial) (f.pow multiplier (f.of_int (attempt -ℤ pos 1))) in
      if f.lt (f.of_int most) backoff then f.of_int most else backoff

  -- `random n` is rand.Int below n from the state of the random source, `none` for an error.
  unfoldable pub retry_backoff {ℓ} :
      {R : Type ℓ} → (ℤ → R → Option ℤ × R) → Option (RetryPolicy f.F) → ℤ → R → ℤ × R
  retry_backoff random none attempt r = (pos 0, r)
  retry_backoff random (some policy) attempt r =
      let backoff = capped_backoff policy attempt in
      let jitter_range = f.mul backoff (f.decimal 2 1) in
      let max_jitter = f.to_int (f.mul (f.decimal 2 0) jitter_range) in
      let drawn = random max_jitter r in
      if not (ltb_ℤ (pos 0) attempt)
      then (pos 0, r)
      else if not (ltb_ℤ (pos 0) max_jitter)
      then (f.to_int backoff, r)
      else elim drawn.0 [
        | none ↦ (f.to_int backoff, drawn.1)
        | some n ↦ (f.to_int (f.add backoff (f.sub (f.of_int n) jitter_range)), drawn.1)
      ]

  unfoldable pub default_retry_policy : RetryPolicy f.F
  default_retry_policy = record {
    max_attempts = pos 3;
    initial_backoff = str "0.1s";
    max_backoff = str "10s";
    backoff_multiplier = f.decimal 20 1;
    retryable_status_codes = str "UNAVAILABLE" ∷ str "DEADLINE_EXCEEDED" ∷ [];
  }

  unfoldable pub aggressive_retry_policy : RetryPolicy f.F
  aggressive_retry_policy = record {
    max_attempts = pos 5;
    initial_backoff = str "0.05s";
    max_backoff = str "30s";
    backoff_multiplier = f.decimal 15 1;
    retryable_status_codes =
        str "UNAVAILABLE" ∷ str "DEADLINE_EXCEEDED" ∷ str "RESOURCE_EXHAUSTED" ∷ str "ABORTED" ∷ [];
  }

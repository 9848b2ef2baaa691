-- ===== src/Rpc/Retry/Policy.antt =====
-- What the validators of retry configurations accept.
use hyperway.Prelude.{
  ℕ, ◌+◌, ◌≡◌, refl, ◌≢◌, ◌↔◌, ◌⊎◌, inl, inr, Bool, true, false, ◌&&◌, not, Bool-cases,
  Option-cases, Option, none, some, List, [], ◌∷◌, arith, All,
}
use hyperway.Prelude.Int.{ℤ, pos, ◌≤ℤ◌}
use hyperway.Prelude.Str.{Str, str_eq, lookup}
use hyperway.Prelude.Str.Laws.{str_eq_iff, str_eq_refl}
use hyperway.Float.{Float}
use hyperway.Rpc.Codes.{Code, code_to_status_map}
use hyperway.Rpc.Retry.{
  RetryPolicy, RetryThrottling, MethodConfig, ServiceConfig, is_true, is_status_code,
  validate_codes, duration_ok, validate_retry_policy, validate_retry_throttling, validate_methods,
  parse_service_config,
}

-- No key of `m` is `c`; no two keys of `m` are equal.
lacks : Code → List (Code × Str) → Bool
lacks c [] = true
lacks c ((d, s) ∷ m) = not (str_eq d c) && lacks c m

distinct_keys : List (Code × Str) → Bool
unfolding lacks
distinct_keys [] = true
distinct_keys ((c, s) ∷ m) = lacks c m && distinct_keys m

lacks-lookup :
    (c d : Code) (s : Str) (m : List (Code × Str))
    → lacks c m ≡ true
    → lookup d m ≡ some s
    → str_eq c d ≡ false
unfolding lacks lookup
lacks-lookup c d s [] h e = cc
lacks-lookup c d s ((k, t) ∷ m) h e =
    ground (arith, str_eq_iff k d, str_eq_iff k c, str_eq_iff c d, lacks-lookup c d s m)

names : List (Code × Str) → List (Str × Bool)
names [] = []
names ((c, s) ∷ m) = (s, true) ∷ names m

-- A name that the table lists has a code.
named_code :
    (s : Str) (m : List (Code × Str))
    → distinct_keys m ≡ true
    → is_true (lookup s (names m)) ≡ true
    → (c : Code) × (lookup c m ≡ some s)
unfolding distinct_keys names lookup
named_code s [] d h = cc
named_code s ((c, t) ∷ m) d h = elim (Bool-cases (str_eq t s)) [
  | inl same ↦ (c, rw str_eq_refl (ground (arith, str_eq_iff t s)))
  | inr differs ↦
      let (b, e) = named_code s m (ground arith) (rw differs at h) in
      (b, rw (lacks-lookup c b s m (ground arith) e) e)
]

code_named :
    (s : Str) (m : List (Code × Str)) (c : Code)
    → lookup c m ≡ some s
    → is_true (lookup s (names m)) ≡ true
unfolding names lookup
code_named s [] c e = cc
code_named s ((b, t) ∷ m) c e = ground (arith, str_eq_iff t s, code_named s m c)

-- The status names that retry policies may list are those that errors are translated to.
pub is_status_code_iff :
    (s : Str) → (is_status_code s ≡ true) ↔ ((c : Code) × (lookup c code_to_status_map ≡ some s))
unfolding is_status_code names distinct_keys code_to_status_map str_eq
is_status_code_iff s =
    (λ h. named_code s code_to_status_map refl h, λ p. code_named s code_to_status_map p.0 p.1)

-- a status name that some error code has
abbrev pub IsStatusName : Str → Type 0
IsStatusName s = (c : Code) × (lookup c code_to_status_map ≡ some s)

validate_codes_iff : (codes : List Str) → (validate_codes codes ≡ none) ↔ All IsStatusName codes
unfolding validate_codes
validate_codes_iff [] = (λ h. tt, λ h. refl)
validate_codes_iff (s ∷ more) = elim (Bool-cases (is_status_code s)) [
  | inl listed ↦ (
    λ h. ((is_status_code_iff s).0 listed, (validate_codes_iff more).0 (rw listed at h)),
    λ h. rw listed ((validate_codes_iff more).1 h.1),
  )
  | inr missing ↦ (λ h. cc (rw missing at h), λ h. cc (missing, (is_status_code_iff s).1 h.0))
]

module _ (f : Float) (parse_duration : Str → Option ℤ) where
  -- a duration that is left out, or that parses
  abbrev pub IsDuration : Str → Type 0
  IsDuration s = (s ≡ []) ⊎ (parse_duration s ≢ none)

  duration_ok_iff : (s : Str) → (duration_ok f parse_duration s ≡ true) ↔ IsDuration s
  unfolding duration_ok
  duration_ok_iff [] = (λ h. inl refl, λ h. refl)
  duration_ok_iff (c ∷ s) = ground arith

  pub record IsValidPolicy (p : RetryPolicy f.F) : Type 0 where
    pub attempts : pos 2 ≤ℤ p.max_attempts
    pub initial : IsDuration p.initial_backoff
    pub most : IsDuration p.max_backoff
    pub multiplier : f.lt p.backoff_multiplier (f.of_int (pos 0)) ≡ false
    pub codes : All IsStatusName p.retryable_status_codes

  pub record IsValidThrottling (t : RetryThrottling f.F) : Type 0 where
    pub some_tokens : pos 1 ≤ℤ t.max_tokens
    pub few_tokens : t.max_tokens ≤ℤ pos 1000
    pub ratio : f.lt (f.of_int (pos 0)) t.token_ratio ≡ true

  validate_sound :
      (p : RetryPolicy f.F)
      → validate_retry_policy f parse_duration (some p) ≡ none
      → IsValidPolicy p
  unfolding validate_retry_policy
  validate_sound p h = record {
    attempts = ground arith;
    initial = (duration_ok_iff p.initial_backoff).0 (ground arith);
    most = (duration_ok_iff p.max_backoff).0 (ground arith);
    multiplier = ground arith;
    codes = (validate_codes_iff p.retryable_status_codes).0 (ground arith);
  }

  validate_complete :
      (p : RetryPolicy f.F)
      → IsValidPolicy p
      → validate_retry_policy f parse_duration (some p) ≡ none
  unfolding validate_retry_policy
  validate_complete p h =
      let i = (duration_ok_iff p.initial_backoff).1 h.initial in
      let m = (duration_ok_iff p.max_backoff).1 h.most in
      let c = (validate_codes_iff p.retryable_status_codes).1 h.codes in
      let k = h.multiplier in let a = h.attempts in ground (arith, i, m, c, k, a)

  -- The validator accepts a policy exactly if it makes two attempts or more, its durations are left
  -- out or parse, its multiplier is not negative and each status that it retries is the name of an
  -- error code.
  pub validate_retry_policy_iff :
      (p : RetryPolicy f.F)
      → (validate_retry_policy f parse_duration (some p) ≡ none) ↔ IsValidPolicy p
  validate_retry_policy_iff p = (validate_sound p, validate_complete p)

  throttling_sound :
      (t : RetryThrottling f.F)
      → validate_retry_throttling f parse_duration (some t) ≡ none
      → IsValidThrottling t
  unfolding validate_retry_throttling
  throttling_sound t h = record {
    some_tokens = ground arith;
    few_tokens = ground arith;
    ratio = ground arith;
  }

  -- what the policy of a method satisfies, if there is one
  abbrev pub HasValidPolicy : MethodConfig f.F → Type 0
  HasValidPolicy mc = (p : RetryPolicy f.F) → mc.retry_policy ≡ some p → IsValidPolicy p

  policy_of_valid :
      (o : Option (RetryPolicy f.F)) (p : RetryPolicy f.F)
      → validate_retry_policy f parse_duration o ≡ none
      → o ≡ some p
      → IsValidPolicy p
  policy_of_valid o p h e = validate_sound p (rw e at h)

  methods_sound :
      (i : ℕ) (ms : List (MethodConfig f.F))
      → validate_methods f parse_duration i ms ≡ none
      → All HasValidPolicy ms
  unfolding validate_methods
  methods_sound i [] h = tt
  methods_sound i (mc ∷ more) h =
      elim (Option-cases (validate_retry_policy f parse_duration mc.retry_policy)) [
        | inl fine ↦ (
          λ p e. policy_of_valid mc.retry_policy p fine e,
          methods_sound (i + 1) more (ground arith),
        )
        | inr (x, bad) ↦ absurd (ground arith)
      ]

  -- A configuration that parses has only valid retry policies, and valid throttling if any.
  pub parse_service_config_sound :
      (unmarshal : Str → Option (ServiceConfig f.F)) (json : Str) (config : ServiceConfig f.F)
      → parse_service_config f parse_duration unmarshal json ≡ inr config
      → All HasValidPolicy config.method_config
        × ((t : RetryThrottling f.F) → config.retry_throttling ≡ some t → IsValidThrottling t)
  unfolding parse_service_config
  parse_service_config_sound unmarshal json config h = (
    methods_sound 0 config.method_config (ground arith),
    λ t e. throttling_sound t (ground arith),
  )

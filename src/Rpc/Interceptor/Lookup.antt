-- ===== src/Rpc/Interceptor/Lookup.antt =====
-- Which policy a method gets.
use hyperway.Prelude.{
  ◌≡◌, ◌≢◌, refl, ◌⊎◌, inl, inr, true, Option, none, some, List, [], ◌∷◌, ◌++◌, arith, All,
}
use hyperway.Prelude.Int.{ℤ}
use hyperway.Prelude.Str.{Str, split}
use hyperway.Prelude.Str.Laws.{str_eq_iff}
use hyperway.Prelude.Str.Split.{IsFree, split_from_free, split_from-sep}
use hyperway.Float.{Float}
use hyperway.Rpc.Retry.{MethodName, MethodConfig, ServiceConfig}
use hyperway.Rpc.Interceptor.{any_applies, first_policy, find_retry_policy, default_config}

module _ (service method : Str) where
  -- An entry is for the method: it names the service, and the method or none.
  abbrev pub IsFor : MethodName → Type 0
  IsFor name = (name.service ≡ service) × ((name.method ≡ []) ⊎ (name.method ≡ method))

  abbrev pub SomeFor : List MethodName → Type 0
  SomeFor [] = ⊥
  SomeFor (name ∷ more) = IsFor name ⊎ SomeFor more

  any_applies_some :
      (names : List MethodName) → SomeFor names → any_applies service method names ≡ true
  unfolding any_applies
  any_applies_some [] h = elim h [ ]
  any_applies_some (name ∷ more) (inl h) = ground (
    arith,
    str_eq_iff name.service service,
    str_eq_iff name.method [],
    str_eq_iff name.method method,
  )
  any_applies_some (name ∷ more) (inr h) = ground (arith, any_applies_some more h)

  some_any_applies :
      (names : List MethodName) → any_applies service method names ≡ true → SomeFor names
  unfolding any_applies
  some_any_applies [] h = cc
  some_any_applies (name ∷ more) h = ground (
    arith,
    str_eq_iff name.service service,
    str_eq_iff name.method [],
    str_eq_iff name.method method,
    some_any_applies more,
  )

  first_policy_some :
      {F : Type 0} (before after : List (MethodConfig F)) (mc : MethodConfig F)
      → All (λ c. ¬ (SomeFor c.name)) before
      → SomeFor mc.name
      → first_policy service method (before ++ mc ∷ after) ≡ mc.retry_policy
  unfolding first_policy
  first_policy_some [] after mc h found = rw (any_applies_some mc.name found)
  first_policy_some (c ∷ before) after mc (h, hs) found =
      ground (arith, some_any_applies c.name, first_policy_some before after mc hs found)

split_method :
    (service method : Str)
    → IsFree 47 service
    → IsFree 47 method
    → split 47 (47 ∷ service ++ 47 ∷ method) ≡ [] ∷ service ∷ method ∷ []
unfolding split
split_method service method hs hm = rw (
  split_from-sep 47 [] [] (service ++ 47 ∷ method) tt,
  split_from-sep 47 [] service method hs,
  split_from_free 47 [] method hm,
)

-- "/service/method", where neither name has a slash, gets the policy of the first entry of the
-- configuration that names the service together with the method or with no method.
pub find_retry_policy_first :
    {F : Type 0} (config : ServiceConfig F) (before after : List (MethodConfig F))
    (mc : MethodConfig F) (service method : Str)
    → IsFree 47 service
    → IsFree 47 method
    → config.method_config ≡ before ++ mc ∷ after
    → All (λ c. ¬ (SomeFor service method c.name)) before
    → SomeFor service method mc.name
    → find_retry_policy (some config) (47 ∷ service ++ 47 ∷ method) ≡ mc.retry_policy
unfolding find_retry_policy
find_retry_policy_first config before after mc service method hs hm e skipped found =
    rw (split_method service method hs hm, e)
      (first_policy_some service method before after mc skipped found)

-- A method name without a slash, as the service passes it to its interceptors, has no policy under
-- any configuration.
pub find_retry_policy_bare :
    {F : Type 0} (config : Option (ServiceConfig F)) (method : Str)
    → IsFree 47 method
    → find_retry_policy config method ≡ none
unfolding find_retry_policy split
find_retry_policy_bare none method h = refl
find_retry_policy_bare (some config) method h = rw (split_from_free 47 [] method h)

-- The default configuration has no policy for a method of a service that has a name, where
-- neither name has a slash.
pub default_config_no_policy :
    (f : Float) (parse_duration : Str → Option ℤ) (service method : Str)
    → IsFree 47 service
    → IsFree 47 method
    → service ≢ []
    → find_retry_policy (some (default_config f parse_duration)) (47 ∷ service ++ 47 ∷ method)
      ≡ none
unfolding find_retry_policy default_config first_policy any_applies
default_config_no_policy f parse_duration service method hs hm named =
    rw (split_method service method hs hm) (ground (arith, str_eq_iff [] service))

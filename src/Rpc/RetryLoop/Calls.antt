-- ===== src/Rpc/RetryLoop/Calls.antt =====
-- How often the retry loop calls the handler, and what it does to the throttle.
use Prim.Native.Nat.{max}
use hyperway.Prelude.{ℕ, ◌+◌, ◌≤◌, ◌≡◌, true, Bool-cases, inl, inr, Option, none, some, arith}
use hyperway.Prelude.Int.{ℤ, pos, pos_part, ◌≤ℤ◌}
use hyperway.Prelude.Str.{Str}
use hyperway.Float.{Float}
use hyperway.Rpc.Errors.{GoError}
use hyperway.Rpc.Retry.{RetryPolicy, ServiceConfig}
use hyperway.Rpc.Interceptor.{find_retry_policy}
use hyperway.Rpc.Throttle.{RetryThrottle, check_throttle}
use hyperway.Rpc.RetryLoop.{State, World, attempts, with_policy, intercept}
use hyperway.Rpc.RetryLoop.Rule.{IsKept, attempts-Inv}

-- What a request costs, from the count of calls before it to that behind it: one call without a policy, and at most the
-- policy's attempts, or one if it has none, with one.
abbrev pub Costs : {F : Type 0} → Option (RetryPolicy F) → ℕ → ℕ → Type 0
Costs none before after = after ≡ before + 1
Costs (some policy) before after = after ≤ before + max 1 (pos_part policy.max_attempts)

module _ {W A : Type 0} (f : Float) (parse_duration : Str → Option ℤ) (env : World f W A) where
  -- `count` counts the calls of the handler, and nothing else changes it
  pub record Counts (count : W → ℕ) : Type 0 where
    pub call : (s : State f W A) → count (env.handler s).1.world ≡ count s.world + 1
    pub wait : (d : ℤ) (s : State f W A) → count (env.wait d s).1.world ≡ count s.world
    pub random : (n : ℤ) (s : State f W A) → count (env.random n s).1.world ≡ count s.world

  module _ (count : W → ℕ) (counts : Counts count) where
    -- `k` more calls stay within `limit`
    Within : ℕ → ℕ → State f W A → Type 0
    Within limit k s = count s.world + k ≤ limit

    Within-IsKept : (limit : ℕ) → IsKept f parse_duration env (Within limit)
    unfolding Within
    Within-IsKept limit = record {
      call = λ k s h. omega (arith, counts.call s);
      wait = λ k d s h. omega (arith, counts.wait d s);
      random = λ k n s h. omega (arith, counts.random n s);
      add = λ k s h. h;
      consume = λ k s h. h;
      spare = λ k s h. omega arith;
    }

    attempts_calls :
        (p : RetryPolicy f.F) (left attempt : ℕ) (last : Option GoError) (s : State f W A)
        → count (attempts f parse_duration env p left attempt last s).1.world ≤ count s.world + left
    unfolding Within
    attempts_calls p left attempt last s =
        let kept = Within-IsKept (count s.world + left) in
        omega (arith, attempts-Inv f parse_duration env _ kept left p attempt last s (omega arith))

with_policy_calls :
    {W A : Type 0} (f : Float) (parse_duration : Str → Option ℤ) (env : World f W A) (count : W → ℕ)
    (counts : Counts f parse_duration env count) (policy : Option (RetryPolicy f.F))
    (s : State f W A)
    → Costs policy (count s.world) (count (with_policy f parse_duration env policy s).1.world)
unfolding with_policy
with_policy_calls f parse_duration env count counts none s = counts.call s
with_policy_calls f parse_duration env count counts (some p) s =
    elim (Bool-cases (check_throttle f s.throttle)) [
      | inl ready ↦
          let many =
            attempts_calls f parse_duration env count counts p (pos_part p.max_attempts) 1 none s in
          rw ready (omega (arith, many))
      | inr throttled ↦ rw throttled (omega (arith, counts.call s))
    ]

-- Where `count` counts the handler's calls and no wait or random number changes it, a request
-- costs exactly one call of the handler if its method has no policy, and never more than the policy's
-- attempts (one, if the policy has none) if it has one, whatever the handler, the context, the
-- waits and the random source do.
pub intercept_calls :
    {W A : Type 0} (f : Float) (parse_duration : Str → Option ℤ) (env : World f W A) (count : W → ℕ)
    (config : Option (ServiceConfig f.F)) (method : Str) (s : State f W A)
    → Counts f parse_duration env count
    → Costs
        (find_retry_policy config method)
        (count s.world)
        (count (intercept f parse_duration env config method s).1.world)
unfolding intercept
intercept_calls f parse_duration env count config method s counts =
    with_policy_calls f parse_duration env count counts (find_retry_policy config method) s

-- what every step of the world keeps
pub record KeepsThrottle (W A : Type 0) (f : Float) (env : World f W A)
    (P : Option (RetryThrottle f) → Type 0) : Type 0 where
  pub call : (s : State f W A) → P s.throttle → P (env.handler s).1.throttle
  pub wait : (d : ℤ) (s : State f W A) → P s.throttle → P (env.wait d s).1.throttle
  pub random : (n : ℤ) (s : State f W A) → P s.throttle → P (env.random n s).1.throttle

-- Where a token is left, a policy that allows no attempt means that the handler is never called,
-- and the caller gets neither a result nor an error.
pub intercept_no_attempts :
    {W A : Type 0} (f : Float) (parse_duration : Str → Option ℤ) (env : World f W A)
    (config : Option (ServiceConfig f.F)) (method : Str) (s : State f W A) (p : RetryPolicy f.F)
    → find_retry_policy config method ≡ some p
    → p.max_attempts ≤ℤ pos 0
    → check_throttle f s.throttle ≡ true
    → intercept f parse_duration env config method s ≡ ((none, none), s)
unfolding intercept attempts
intercept_no_attempts f parse_duration env config method s p found few tokens = ground arith

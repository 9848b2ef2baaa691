-- ===== src/Rpc/RetryLoop.antt =====
-- The retry loop of rpc/retry_interceptor.go, `Intercept`. What it shares with the rest of the
-- program is a state: the throttle, and the world `W`. Other requests run between its steps, so the
-- handler and each wait return a state with any throttle.
pub mod Calls
pub mod Rule
use hyperway.Prelude.{ℕ, zero, suc, ◌+◌, Bool, true, false, not, Option, none, some, if◌then◌else◌}
use hyperway.Prelude.Int.{ℤ, pos, pos_part, ◌*ℤ◌, ltb_ℤ, wrap_64}
use hyperway.Prelude.Str.{Str}
use hyperway.Float.{Float}
use hyperway.Rpc.Errors.{GoError}
use hyperway.Rpc.Retry.{RetryPolicy, ServiceConfig, retry_backoff}
use hyperway.Rpc.Interceptor.{find_retry_policy, is_retryable, extract_pushback_ms}
use hyperway.Rpc.Throttle.{RetryThrottle, check_throttle, consume_token, add_tokens}

-- A Go pair of a result and an error, each possibly nil.
abbrev pub Reply : Type 0 → Type 0
Reply A = Option A × Option GoError

module _ (f : Float) (W A : Type 0) where
  pub record State : Type 0 where
    pub throttle : Option (RetryThrottle f)
    pub world : W

  -- What the loop calls: the handler; `done`, the context's error once it has ended; `wait`, the
  -- select between the context's end and a timer; the random source.
  pub record World : Type 0 where
    pub handler : State → Reply A × State
    pub done : State → Option GoError
    pub wait : ℤ → State → Option GoError × State
    pub random : ℤ → State → Option ℤ × State

module _ {W A : Type 0} (f : Float) (parse_duration : Str → Option ℤ) (env : World f W A) where
  -- `next` is the loop's next round: it is given the error of this one.
  abbrev Next : Type 0
  Next = GoError → State f W A → Reply A × State f W A

  -- the waits' `select`: the context's error ends the loop
  unfoldable pub after_wait :
      (State f W A → Reply A × State f W A) → Option GoError × State f W A → Reply A × State f W A
  after_wait go (some e, s) = ((none, some e), s)
  after_wait go (none, s) = go s

  -- consumeToken: with no token left the loop ends with the last error
  unfoldable pub after_token :
      Next → GoError → Bool × Option (RetryThrottle f) → State f W A → Reply A × State f W A
  after_token next err (true, t) s = next err (record s { throttle = t })
  after_token next err (false, t) s = ((none, some err), record s { throttle = t })

  -- the two ways to wait before the next attempt: as long as the server asks, or for the backoff
  unfoldable pub pause : RetryPolicy f.F → Next → ℕ → GoError → State f W A → Reply A × State f W A
  unfolding after_wait after_token
  pause policy next attempt err s =
      let pushback = extract_pushback_ms err in
      let delay = retry_backoff f parse_duration env.random (some policy) (pos attempt) s in
      if ltb_ℤ pushback (pos 0)
      then ((none, some err), s)
      else if ltb_ℤ (pos 0) pushback
      then after_wait (next err) (env.wait (wrap_64 (pushback *ℤ pos 1_000_000)) s)
      else after_wait (λ s'. after_token next err (consume_token f s'.throttle) s')
          (env.wait delay.0 delay.1)

  -- what follows the handler's return
  unfoldable pub judge : RetryPolicy f.F → Next → ℕ → Reply A × State f W A → Reply A × State f W A
  judge policy next attempt ((resp, none), s) =
      ((resp, none), record s { throttle = add_tokens f s.throttle })
  judge policy next attempt ((resp, some err), s) =
      if not (is_retryable (some err) (some policy))
      then ((none, some err), s)
      else if not (ltb_ℤ (pos attempt) policy.max_attempts)
      then ((none, some err), s)
      else pause policy next attempt err s

  unfoldable pub attempt_once : RetryPolicy f.F → Next → ℕ → State f W A → Reply A × State f W A
  attempt_once policy next attempt s = elim (env.done s) [
    | some e ↦ ((none, some e), s)
    | none ↦ judge policy next attempt (env.handler s)
  ]

  -- `left` is how many rounds the loop's condition still allows; `last` is `lastErr`
  unfoldable pub attempts :
      RetryPolicy f.F → ℕ → ℕ → Option GoError → State f W A → Reply A × State f W A
  attempts policy zero attempt last s = ((none, last), s)
  attempts policy (suc left) attempt last s =
      attempt_once policy (λ err. attempts policy left (attempt + 1) (some err)) attempt s

  -- one call where there is no policy, or no token to start with
  unfoldable pub with_policy : Option (RetryPolicy f.F) → State f W A → Reply A × State f W A
  with_policy none s = env.handler s
  with_policy (some policy) s =
      if not (check_throttle f s.throttle)
      then env.handler s
      else attempts policy (pos_part policy.max_attempts) 1 none s

  unfoldable pub intercept : Option (ServiceConfig f.F) → Str → State f W A → Reply A × State f W A
  unfolding with_policy
  intercept config method s = with_policy (find_retry_policy config method) s

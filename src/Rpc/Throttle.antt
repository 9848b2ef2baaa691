-- ===== src/Rpc/Throttle.antt =====
-- The token bucket of rpc/retry_interceptor.go. Each operation holds the bucket's mutex, so it is one
-- step of the program. A nil throttle is `none`.
pub mod Bounds
use hyperway.Prelude.{Bool, true, false, not, Option, none, some, if◌then◌else◌}
use hyperway.Prelude.Int.{pos}
use hyperway.Float.{Float}
use hyperway.Rpc.Retry.{RetryThrottling, ServiceConfig}

module _ (f : Float) where
  pub record RetryThrottle : Type 0 where
    pub max_tokens : f.F
    pub tokens : f.F
    pub token_ratio : f.F

  unfoldable pub new_throttle : RetryThrottling f.F → RetryThrottle
  new_throttle t = record {
    max_tokens = f.of_int t.max_tokens;
    tokens = f.div (f.of_int t.max_tokens) (f.of_int (pos 2));
    token_ratio = t.token_ratio;
  }

  -- NewRetryInterceptor: the throttle it starts with
  unfoldable pub initial_throttle : Option (ServiceConfig f.F) → Option RetryThrottle
  initial_throttle none = none
  initial_throttle (some config) = elim config.retry_throttling [
    | none ↦ none
    | some t ↦ some (new_throttle t)
  ]

  -- `tokens >= 1` is read as `not (tokens < 1)`, which is the same on numbers.
  unfoldable pub check_throttle : Option RetryThrottle → Bool
  check_throttle none = true
  check_throttle (some t) = not (f.lt t.tokens (f.of_int (pos 1)))

  unfoldable pub consume_token : Option RetryThrottle → Bool × Option RetryThrottle
  consume_token none = (true, none)
  consume_token (some t) =
      if not (f.lt t.tokens (f.of_int (pos 1)))
      then (true, some (record t { tokens = f.sub t.tokens (f.of_int (pos 1)) }))
      else (false, some t)

  unfoldable pub add_tokens : Option RetryThrottle → Option RetryThrottle
  add_tokens none = none
  add_tokens (some t) =
      let sum = f.add t.tokens t.token_ratio in
      some (record t { tokens = if f.lt t.max_tokens sum then t.max_tokens else sum })

-- ===== src/Rpc/Interceptors.antt =====
-- rpc/interceptors.go: the interceptors that the package gives, over the time that a call takes; the timeout, whose handler
-- runs on beside its caller, is not modelled.
pub mod Chained
use hyperway.Prelude.{
  ℕ, ◌+◌, ◌%◌, ◌^◌, Bool, true, false, Option, none, some, List, [], ◌∷◌, ◌++◌, if◌then◌else◌,
}
use mathlib.Core.List.{reverse}
use hyperway.Prelude.Int.{ℤ, pos, ltb_ℤ}
use hyperway.Prelude.Str.{Str, str}
use hyperway.Rpc.Errors.{GoError, other, text, Outcome, done, failed}
use hyperway.Rpc.Unary.{Handler, Interceptor, wrap}

-- the lines of a log, the last first, before the rest of the state
logged : {S O : Type 0} → Str → Str → Outcome O × (List Str × S) → Outcome O × (List Str × S)
logged method took (done o, (log, s)) = (
  done o,
  ((str "Request completed: " ++ method ++ str " (duration: " ++ took ++ str ")") ∷ log, s),
)
logged method took (failed e, (log, s)) = (
  failed e,
  (
    (str "Request failed: "
          ++ method
          ++ str " (duration: "
          ++ took
          ++ str ", error: "
          ++ text e
          ++ str ")")
        ∷ log,
    s,
  ),
)

module _ {S I O : Type 0} (took : I → Str) where
  -- `LoggingInterceptor`, with or without a logger; `took` is the text of how long the call takes
  unfoldable pub logging_interceptor : Bool → Interceptor (List Str × S) I O
  unfolding logged
  logging_interceptor has_logger method req handler (log, s) =
      if has_logger
      then logged method (took req) (handler req ((str "Starting request: " ++ method) ∷ log, s))
      else handler req (log, s)

-- how a handler that may panic ends
pub data Ended (O : Type 0) : Type 0 where
  returned : Outcome O → Ended O
  panicked : Str → Ended O

recovered : {S O : Type 0} → Ended O × S → Outcome O × S
recovered (returned o, s) = (o, s)
recovered (panicked value, s) = (failed (other (str "panic recovered: " ++ value)), s)

module _ {S I O : Type 0} where
  -- `RecoveryInterceptor`
  unfoldable pub recovery_interceptor : Str → I → (I → S → Ended O × S) → S → Outcome O × S
  unfolding recovered
  recovery_interceptor method req handler s = recovered (handler req s)

-- `MetricsInterceptor`: the counts and the nanoseconds, as numbers modulo 2^64
pub record Metrics : Type 0 where
  pub request_count : ℕ
  pub success_count : ℕ
  pub failure_count : ℕ
  pub total_duration : ℕ

abbrev pub plus : ℕ → ℕ → ℕ
plus a b = (a + b) % 2 ^ 64

unfoldable pub counted : {S O : Type 0} → ℕ → Outcome O × (Metrics × S) → Outcome O × (Metrics × S)
counted took (done o, (m, s)) = (
  done o,
  (
    record m {
      total_duration = plus m.total_duration took;
      success_count = plus m.success_count 1;
    },
    s,
  ),
)
counted took (failed e, (m, s)) = (
  failed e,
  (
    record m {
      total_duration = plus m.total_duration took;
      failure_count = plus m.failure_count 1;
    },
    s,
  ),
)

module _ {S I O : Type 0} where
  unfoldable pub metrics_interceptor : (I → ℕ) → Interceptor (Metrics × S) I O
  unfolding counted
  metrics_interceptor took method req handler (m, s) =
      counted (took req) (handler req (record m { request_count = plus m.request_count 1 }, s))

  -- `ChainInterceptors`
  unfoldable pub chain_interceptors : List (Interceptor S I O) → Interceptor S I O
  chain_interceptors interceptors method req handler s =
      wrap method handler (reverse interceptors) req s

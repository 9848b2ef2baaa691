-- ===== src/Tests/Interceptors.antt =====
-- Interceptors that note that they were called, and metrics around a handler that fails.
use hyperway.Prelude.{ℕ, ◌≡◌, ◌+◌, List, [], ◌∷◌}
use hyperway.Prelude.Str.{str}
use hyperway.Rpc.Errors.{other, done, failed}
use hyperway.Rpc.Unary.{Handler, Interceptor, call_handler}
use hyperway.Rpc.Interceptors.{Metrics, chain_interceptors}
use hyperway.Rpc.Interceptors.Chained.{call_handler-chain_interceptors}

abbrev note : ℕ → Interceptor (List ℕ) ℕ ℕ
note n method req handler s = handler req (n ∷ s)

abbrev plus_one : Handler (List ℕ) ℕ ℕ
plus_one req s = (done (req + 1), s)

call_handler-chain_interceptors_example :
    call_handler
      (str "Say")
      (note 1 ∷ chain_interceptors (note 2 ∷ note 3 ∷ []) ∷ note 4 ∷ [])
      plus_one
    ≡ call_handler (str "Say") (note 1 ∷ note 2 ∷ note 3 ∷ note 4 ∷ []) plus_one
call_handler-chain_interceptors_example =
    call_handler-chain_interceptors (str "Say") plus_one (note 1 ∷ []) (note 2 ∷ note 3 ∷ [])
      (note 4 ∷ [])

abbrev refuse : Handler (Metrics × ℕ) ℕ ℕ
refuse req s = (failed (other (str "no")), s)

abbrev before : Metrics
before = record { request_count = 3; success_count = 2; failure_count = 1; total_duration = 70 }

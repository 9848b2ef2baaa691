-- ===== src/Rpc/Interceptors/Chained.antt =====
-- Chains within chains, and the counts of calls.
use hyperway.Prelude.{ℕ, ◌+◌, ◌%◌, ◌^◌, ◌≡◌, refl, sym, ap, ◌∙◌, List, [], ◌∷◌, ◌++◌}
use hyperway.Prelude.Str.{Str}
use hyperway.Rpc.Unary.{Handler, Interceptor, wrap, call_handler}
use hyperway.Rpc.Unary.Chain.{call_handler-cons}
use hyperway.Rpc.Interceptors.{Metrics, chain_interceptors}

module _ {S I O : Type 0} (method : Str) (base : Handler S I O) where
  -- what stands before a chain is around what stands in it
  call_handler-append :
      (a b : List (Interceptor S I O))
      → call_handler method (a ++ b) base ≡ call_handler method a (call_handler method b base)
  unfolding call_handler wrap
  call_handler-append [] b = refl
  call_handler-append (x ∷ a) b =
      call_handler-cons method x (a ++ b) base
      ∙ ap {B = Handler S I O} (λ next req s. x method req next s) (call_handler-append a b)
      ∙ sym (call_handler-cons method x a (call_handler method b base))

  -- A chain of interceptors among others does what its members do in their order: giving them by `ChainInterceptors` is
  -- the same as listing them one by one.
  pub call_handler-chain_interceptors :
      (before inner after : List (Interceptor S I O))
      → call_handler method (before ++ chain_interceptors inner ∷ after) base
        ≡ call_handler method (before ++ (inner ++ after)) base
  unfolding call_handler chain_interceptors
  call_handler-chain_interceptors [] inner after =
      call_handler-cons method (chain_interceptors inner) after base
      ∙ sym (call_handler-append inner after)
  call_handler-chain_interceptors (x ∷ before) inner after =
      call_handler-cons method x (before ++ chain_interceptors inner ∷ after) base
      ∙ ap {B = Handler S I O} (λ next req s. x method req next s)
          (call_handler-chain_interceptors before inner after)
      ∙ sym (call_handler-cons method x (before ++ (inner ++ after)) base)

-- Some requests are still under way, and every other one is counted as a success or as a failure.
abbrev pub IsBalanced : ℕ → Metrics → Type 0
IsBalanced under_way m =
    m.request_count % 2 ^ 64 ≡ (m.success_count + m.failure_count + under_way) % 2 ^ 64

-- ===== src/Rpc/Unary/Chain.antt =====
-- The order of the interceptors.
use hyperway.Prelude.{◌≡◌, refl, ap, ◌∙◌, List, [], ◌∷◌, ◌++◌}
use mathlib.Core.List.{reverse, reverse_aux}
use hyperway.Prelude.Str.{Str}
use hyperway.Rpc.Unary.{Handler, Interceptor, wrap, call_handler}

module _ {S I O : Type 0} (method : Str) where
  wrap-append :
      (a b : List (Interceptor S I O)) (handler : Handler S I O)
      → wrap method handler (a ++ b) ≡ wrap method (wrap method handler a) b
  unfolding wrap
  wrap-append [] b handler = refl
  wrap-append (x ∷ a) b handler = wrap-append a b (λ req s. x method req handler s)

reverse_aux-end {ℓ} :
    {A : Type ℓ} (xs a : List A) (b : A) → reverse_aux xs (a ++ b ∷ []) ≡ reverse_aux xs a ++ b ∷ []
reverse_aux-end [] a b = refl
reverse_aux-end (x ∷ xs) a b = reverse_aux-end xs (x ∷ a) b

pub call_handler-cons :
    {S I O : Type 0} (method : Str) (first : Interceptor S I O) (more : List (Interceptor S I O))
    (base : Handler S I O)
    → call_handler method (first ∷ more) base
      ≡ (λ req s. first method req (call_handler method more base) s)
unfolding call_handler wrap
call_handler-cons method first more base =
    ap (wrap method base) (reverse_aux-end more [] first)
    ∙ wrap-append method (reverse more) (first ∷ []) base

-- The first interceptor of the list is outermost: it is given the input as it came, and as the next
-- handler the chain of those behind it.
pub call_handler-first :
    {S I O : Type 0} (method : Str) (first : Interceptor S I O) (more : List (Interceptor S I O))
    (base : Handler S I O) (req : I) (s : S)
    → call_handler method (first ∷ more) base req s
      ≡ first method req (call_handler method more base) s
call_handler-first method first more base req s =
    ap (λ h. h req s) (call_handler-cons method first more base)

-- ===== src/Rpc/Protocol/Timeouts.antt =====
-- The timeouts that clients send.
use hyperway.Prelude.{ℕ, ◌*◌, ◌^◌, ◌<◌, ◌≡◌, refl, ap, ◌∙◌, some, [], ◌∷◌, ◌++◌, arith}
use hyperway.Prelude.Int.{ℤ, pos, ◌*ℤ◌, wrap_64, wrap_64-pos}
use hyperway.Prelude.Str.{Str}
use hyperway.Prelude.Str.Numbers.{itoa, atoi}
use hyperway.Prelude.Str.Digits.{atoi-itoa}
use hyperway.Rpc.Protocol.{parse_grpc_timeout, unsnoc, times, unit_of}

unsnoc-end : (c : ℕ) (s : Str) (end : ℕ) → unsnoc c (s ++ end ∷ []) ≡ (c ∷ s, end)
unfolding unsnoc
unsnoc-end c [] end = refl
unsnoc-end c (d ∷ s) end = rw (unsnoc-end d s end) refl

-- a text of digits and a unit
by_front :
    (c : ℕ) (s : Str) (unit : ℕ) (value : ℤ)
    → atoi (c ∷ s) ≡ some value
    → times (atoi (unsnoc c (s ++ unit ∷ [])).0) (unit_of (unsnoc c (s ++ unit ∷ [])).1)
      ≡ times (some value) (unit_of unit)
by_front c s unit value h =
    ap (λ p. times (atoi p.0) (unit_of p.1)) (unsnoc-end c s unit)
    ∙ ap (λ v. times v (unit_of unit)) h

timeout-split :
    (front : Str) (unit : ℕ) (value : ℤ)
    → atoi front ≡ some value
    → parse_grpc_timeout (front ++ unit ∷ []) ≡ times (some value) (unit_of unit)
unfolding parse_grpc_timeout atoi
timeout-split [] unit value h = cc
timeout-split (c ∷ []) unit value h = by_front c [] unit value h
timeout-split (c ∷ d ∷ s) unit value h = by_front c (d ∷ s) unit value h

mul-pos : (a b : ℕ) → pos a *ℤ pos b ≡ pos (a * b)
mul-pos a b = ground arith

-- The text of a number and a unit of gRPC (H, M, S, m, u, n) is that many nanoseconds, when the product
-- fits an int64.
pub parse_grpc_timeout-itoa :
    (n unit size : ℕ)
    → unit_of unit ≡ some (pos size)
    → n < 2 ^ 63
    → n * size < 2 ^ 63
    → parse_grpc_timeout (itoa n ++ unit ∷ []) ≡ some (pos (n * size))
parse_grpc_timeout-itoa n unit size known small fits =
    timeout-split (itoa n) unit (pos n) (atoi-itoa n small)
    ∙ ap (times (some (pos n))) known
    ∙ ap some (ap wrap_64 (mul-pos n size) ∙ wrap_64-pos (n * size) fits)

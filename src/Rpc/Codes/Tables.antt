-- ===== src/Rpc/Codes/Tables.antt =====
-- The tables of error codes: their ranges, and what they keep apart.
use hyperway.Prelude.{ℕ, ◌≤◌, ◌<◌, ◌≡◌, inl, inr, Option-cases, some, List, [], ◌∷◌, arith, All}
use hyperway.Prelude.Str.{lookup}
use hyperway.Prelude.Str.Laws.{str_eq_iff, lookup-All}
use hyperway.Rpc.Codes.{
  Code, or_default, http_status_code_map, http_status_code, grpc_status_code_map, grpc_status_code,
}

or_default-All {ℓ} :
    (P : ℕ → Type ℓ) (c : Code) (m : List (Code × ℕ)) (d : ℕ)
    → All (λ p. P p.1) m
    → P d
    → P (or_default d (lookup c m))
or_default-All P c m d all base = elim (Option-cases (lookup c m)) [
  | inl e ↦ rw e base
  | inr (v, e) ↦ rw e (lookup-All P c m v all e)
]

-- The gRPC status number of any code, named or not, is that of an error: 1 to 16, never 0 (OK).
pub grpc_status_code_range : (c : Code) → (1 ≤ grpc_status_code c) × (grpc_status_code c ≤ 16)
unfolding grpc_status_code_map
grpc_status_code_range c =
    unfold grpc_status_code in
    or_default-All (λ n. (1 ≤ n) × (n ≤ 16)) c grpc_status_code_map 2 (omega arith) (omega arith)

-- The HTTP status of any code is one of a failed request: 400 to 599.
pub http_status_code_range : (c : Code) → (400 ≤ http_status_code c) × (http_status_code c ≤ 599)
unfolding http_status_code_map
http_status_code_range c =
    unfold http_status_code in
    or_default-All (λ n. (400 ≤ n) × (n ≤ 599)) c http_status_code_map 500 (omega arith)
      (omega arith)

-- the numbers of a table rise from entry to entry, from above `lo`
abbrev Rises : ℕ → List (Code × ℕ) → Type 0
Rises lo [] = Unit
Rises lo ((c, n) ∷ m) = (lo < n) × Rises n m

Rises-lookup :
    (m : List (Code × ℕ)) (lo : ℕ) (c : Code) (n : ℕ) → Rises lo m → lookup c m ≡ some n → lo < n
unfolding lookup
Rises-lookup [] lo c n h e = cc
Rises-lookup ((d, k) ∷ m) lo c n (h, hs) e = ground (arith, Rises-lookup m k c n hs)

lookup-injective :
    (m : List (Code × ℕ)) (lo : ℕ) (a b : Code) (n : ℕ)
    → Rises lo m
    → lookup a m ≡ some n
    → lookup b m ≡ some n
    → a ≡ b
unfolding lookup
lookup-injective [] lo a b n h e f = cc
lookup-injective ((d, k) ∷ m) lo a b n (h, hs) e f = ground (
  arith,
  str_eq_iff d a,
  str_eq_iff d b,
  Rises-lookup m k a n hs,
  Rises-lookup m k b n hs,
  lookup-injective m k a b n hs,
)

-- No two named codes share a gRPC status number.
pub grpc_status_code_map-injective :
    (a b : Code) (n : ℕ)
    → lookup a grpc_status_code_map ≡ some n
    → lookup b grpc_status_code_map ≡ some n
    → a ≡ b
grpc_status_code_map-injective a b n =
    lookup-injective grpc_status_code_map 0 a b n (unfold grpc_status_code_map in omega arith)

-- ===== src/Rpc/Interceptor/Status.antt =====
-- Which status an error counts as.
use hyperway.Prelude.{inl, inr, Option-cases, some, refl}
use hyperway.Prelude.Str.{str_eq, lookup}
use hyperway.Rpc.Codes.{code_to_status_map, code_unknown}
use hyperway.Rpc.Errors.{rpc, Error}
use hyperway.Rpc.Retry.Policy.{IsStatusName}
use hyperway.Rpc.Interceptor.{extract_status_code}

-- An error of this package, whatever its code, counts as a status name that a policy may list.
pub extract_status_code-IsStatusName :
    (e : Error) → IsStatusName (extract_status_code (some (rpc e)))
unfolding extract_status_code
extract_status_code-IsStatusName e = elim (Option-cases (lookup e.code code_to_status_map)) [
  | inl missing ↦ rw missing (code_unknown, unfold code_to_status_map lookup str_eq in refl)
  | inr (name, found) ↦ rw found (e.code, found)
]

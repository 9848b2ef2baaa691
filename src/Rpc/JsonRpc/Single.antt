-- ===== src/Rpc/JsonRpc/Single.antt =====
-- What a JSON-RPC client can rely on for one request.
use hyperway.Prelude.{
  ℕ, ◌≡◌, refl, true, not, ◌&&◌, Bool-cases, inl, inr, ◌⊎◌, Option, none, some, List, [], ◌∷◌, ◌++◌,
  ltb, length, arith,
}
use hyperway.Prelude.Str.{Str, str, str_eq, contains, has_prefix, split, split_from}
use hyperway.Prelude.Str.Split.{IsFree, split_from_free}
use hyperway.Http.{Writer, fresh, write_header, write, set_header, status_of, commit}
use hyperway.Rpc.Errors.{GoError, Outcome, done, failed}
use hyperway.Rpc.JsonRpc.{
  JsonRpcRequest, JsonRpcResponse, RequestId, Service, process_request, prepared, with_params,
  validated, called, encoded, resolve_method, last, handle_request, handle_single, handle_batch,
  handle_parsed, with_batch, write_batch, write_response, write_error, is_version_2,
  is_notification, has_error, is_batch_request, decode_params, JsonBody,
}

contains-middle : (c : ℕ) (a b : Str) → contains (c ∷ []) (a ++ c ∷ b) ≡ true
unfolding contains has_prefix
contains-middle c [] b = ground arith
contains-middle c (x ∷ a) b = ground (arith, contains-middle c a b)

last-split :
    (default pre name cur : Str)
    → IsFree 46 name
    → last default (split_from 46 cur (pre ++ 46 ∷ name)) ≡ name
unfolding split_from
last-split default [] name cur free = ground (arith, split_from_free 46 [] name free)
last-split default (c ∷ pre) name cur free =
    ground
      (arith, last-split cur pre name [] free, last-split default pre name (cur ++ c ∷ []) free)

-- A fully qualified method name, package.Service.Method, means what stands behind its last dot,
-- whatever stands before it.
pub resolve_method-qualified :
    (qualifier name : Str) → IsFree 46 name → resolve_method (qualifier ++ 46 ∷ name) ≡ name
unfolding resolve_method split
resolve_method-qualified qualifier name free =
    rw (contains-middle 46 qualifier name) (last-split [] qualifier name [] free)

module _ (s : Service) where
  encoded-id : (id : RequestId) (result : Option Str) → (encoded s id result).id ≡ id
  unfolding encoded
  encoded-id id none = refl
  encoded-id id (some result) = refl

  called-id : (id : RequestId) (output : Outcome s.O) → (called s id output).id ≡ id
  unfolding called
  called-id id (failed e) = refl
  called-id id (done output) = encoded-id id (s.marshal output)

  validated-id :
      (id : RequestId) (method : Str) (input : s.I) (e : Option GoError)
      → (validated s id method input e).id ≡ id
  unfolding validated
  validated-id id method input (some e) = refl
  validated-id id method input none = called-id id (s.call method input)

  with_params-id :
      (id : RequestId) (method : Str) (input : Outcome s.I)
      → (with_params s id method input).id ≡ id
  unfolding with_params
  with_params-id id method (failed e) = refl
  with_params-id id method (done input) = validated-id id method input (s.validate method input)

  prepared-id :
      (req : JsonRpcRequest) (method : Str) (e : Option Str) → (prepared s req method e).id ≡ req.id
  unfolding prepared
  prepared-id req method (some e) = refl
  prepared-id req method none = with_params-id req.id method (decode_params s method req.params)

-- The response to a request carries its id, on every branch: an unknown method, a context that cannot be
-- prepared, bad parameters, a failed validation or call, a result that cannot be encoded, or a result.
pub process_request-id : (s : Service) (req : JsonRpcRequest) → (process_request s req).id ≡ req.id
unfolding process_request
process_request-id s req = elim (Bool-cases (s.has_method (resolve_method req.method))) [
  | inl known ↦
      rw known (
        prepared-id s req (resolve_method req.method) (s.prepare_error (resolve_method req.method)))
  | inr unknown ↦ rw unknown refl
]

abbrev pub IsSuccess : Writer JsonBody → Type 0
IsSuccess w = (status_of w ≡ 200) ⊎ (status_of w ≡ 204)

module _ (s : Service) where
  written : (resp : JsonRpcResponse) → IsSuccess (write_response s resp fresh)
  unfolding write_response write_header write set_header status_of commit
  written resp = inl refl

  batch-written : (rs : List JsonRpcResponse) → IsSuccess (write_batch s rs fresh)
  unfolding write_batch write_header write set_header status_of commit
  batch-written [] = inr refl
  batch-written (r ∷ rs) = inl refl

  parsed-written : (req : Option JsonRpcRequest) → IsSuccess (handle_parsed s req fresh)
  unfolding handle_parsed write_error status_of write_header
  parsed-written none = written _
  parsed-written (some req) = elim (Bool-cases (not (is_version_2 s req))) [
    | inl wrong ↦ rw wrong (written _)
    | inr right ↦
        elim (Bool-cases (is_notification req && not (has_error s (process_request s req)))) [
          | inl quiet ↦ rw (right, quiet) (inr refl)
          | inr answered ↦ rw (right, answered) (written _)
        ]
  ]

  batches-written :
      (answered : List JsonRpcRequest → List JsonRpcResponse)
      (requests : Option (List JsonRpcRequest))
      → IsSuccess (with_batch s answered requests fresh)
  unfolding with_batch write_error
  batches-written answered none = written _
  batches-written answered (some requests) =
      elim (Bool-cases (ltb s.batch_limit (length requests))) [
        | inl over ↦ rw over (written _)
        | inr fits ↦ rw fits (batch-written (answered requests))
      ]

-- Every request is answered with the HTTP status 200 or 204, errors included: an error of JSON-RPC stands
-- in the body only.
pub handle_request-status :
    (s : Service) (answered : List JsonRpcRequest → List JsonRpcResponse) (method : Str)
    (body : Option Str)
    → IsSuccess (handle_request s answered method body fresh)
unfolding handle_request handle_single handle_batch write_error
handle_request-status s answered method none =
    elim (Bool-cases (not (str_eq method (str "POST")))) [
      | inl wrong ↦ rw wrong (written s _)
      | inr post ↦ rw post (written s _)
    ]
handle_request-status s answered method (some b) =
    elim (Bool-cases (not (str_eq method (str "POST")))) [
      | inl wrong ↦ rw wrong (written s _)
      | inr post ↦ elim (Bool-cases (is_batch_request b)) [
        | inl batch ↦ rw (post, batch) (batches-written s answered (s.parse_batch b))
        | inr single ↦ rw (post, single) (parsed-written s (s.parse b))
      ]
    ]

-- ===== src/Rpc/Protocol/Failures.antt =====
-- How an error reaches the client, in each protocol.
use hyperway.Prelude.{
  ◌≤◌, ◌≡◌, refl, ap, ◌∙◌, Bool-cases, inl, inr, none, some, [], arith, if◌then◌else◌,
}
use hyperway.Prelude.Int.{pos}
use hyperway.Prelude.Str.{str, str_eq}
use hyperway.Prelude.Str.Numbers.{itoa, atoi}
use hyperway.Prelude.Str.Digits.{atoi-itoa}
use hyperway.Http.{
  Header, Writer, canonical, fresh, get, set, set_header, write_header, write, status_of, commit,
}
use hyperway.Http.Laws.{get-set_self, get-set}
use hyperway.Rpc.Codes.{Code, code_internal, http_status_code, grpc_status_code}
use hyperway.Rpc.Codes.Tables.{http_status_code_range, grpc_status_code_range}
use hyperway.Rpc.Errors.{
  GoError, rpc, with_details, context_deadline_exceeded, context_canceled, other, new_error,
}
use hyperway.Rpc.Protocol.{
  Incoming, ErrorBody, rpc_error, is_connect_request, write_error, write_connect_error, grpc_error,
  write_grpc_error,
}

-- the header that was sent with the status
abbrev pub sent_header : {B : Type 0} → Writer B → Header
sent_header w = elim w.head [ none ↦ w.header | some p ↦ p.1 ]

-- the code of an error where it is an *Error; any other one is internal, one with details included
abbrev pub sent_code : GoError → Code
sent_code (rpc e) = e.code
sent_code _ = code_internal

grpc_error-code : (err : GoError) → (grpc_error err).code ≡ sent_code err
unfolding grpc_error new_error
grpc_error-code (rpc e) = refl
grpc_error-code (with_details e) = refl
grpc_error-code context_deadline_exceeded = refl
grpc_error-code context_canceled = refl
grpc_error-code (other s) = refl

-- A gRPC error, on a response to which nothing was written, is sent with the HTTP status 200, and a client that parses the
-- header grpc-status gets the number of its code where it is an *Error, and else, whatever code its details have, that of
-- internal: a number from 1 to 16, so that an error never looks like OK. The header grpc-message has the message.
pub write_grpc_error-sent :
    (err : GoError)
    → let w = write_grpc_error err (fresh {B = ErrorBody}) in
      let status = grpc_status_code (sent_code err) in
      (status_of w ≡ 200)
      × (atoi (get (str "grpc-status") (sent_header w)) ≡ some (pos status))
      × (1 ≤ status)
      × (status ≤ 16)
      × (get (str "grpc-message") (sent_header w) ≡ (grpc_error err).message)
unfolding write_grpc_error set_header write_header status_of commit canonical str_eq
write_grpc_error-sent err =
    let e = grpc_error err in
    let (positive, small) = grpc_status_code_range (sent_code err) in
    let (_, e_small) = grpc_status_code_range e.code in
    let typed = set (str "Content-Type") (str "application/grpc+proto") [] in
    let numbered = set (str "grpc-status") (itoa (grpc_status_code e.code)) typed in
    (
      refl,
      ap atoi (
            get-set (str "grpc-message") (str "grpc-status") e.message numbered
            ∙ get-set_self (str "grpc-status") (itoa (grpc_status_code e.code)) typed)
          ∙ atoi-itoa (grpc_status_code e.code) (omega (arith, e_small))
          ∙ ap (λ c. some (pos (grpc_status_code c))) (grpc_error-code err),
      positive,
      small,
      get-set_self (str "grpc-message") e.message numbered,
    )

-- An error of a request that is not of the Connect protocol is sent with an HTTP status of a failure,
-- 400 to 599, that of its code; one of the Connect protocol with 200.
pub write_error-status :
    (r : Incoming) (err : GoError)
    → let status = status_of (write_error r err fresh) in
      if is_connect_request r
      then status ≡ 200
      else ((status ≡ http_status_code (rpc_error r err).code) × (400 ≤ status) × (status ≤ 599))
unfolding write_error write_connect_error write_header write set_header status_of commit
write_error-status r err = elim (Bool-cases (is_connect_request r)) [
  | inl connect ↦ rw connect refl
  | inr plain ↦
      let (low, high) = http_status_code_range (rpc_error r err).code in rw plain (refl, low, high)
]

-- ===== src/Tests/Protocol.antt =====
-- Protocols, errors, timeouts and a unary call, for a method that echoes.
use hyperway.Prelude.{ℕ, ◌*◌, ◌≤◌, ◌≡◌, refl, false, none, some, [], ◌∷◌, ◌++◌, arith}
use hyperway.Prelude.Int.{pos}
use hyperway.Prelude.Str.{Str, str}
use hyperway.Prelude.Str.Numbers.{itoa, atoi}
use hyperway.Http.{fresh, get, status_of}
use hyperway.Rpc.Codes.{code_not_found, grpc_status_code}
use hyperway.Rpc.Errors.{GoError, rpc, new_error, done}
use hyperway.Rpc.Protocol.{
  Incoming, ErrorBody, detect_protocol, parse_grpc_timeout, grpc_error, write_grpc_error,
}
use hyperway.Rpc.Protocol.Exclusive.{IsExclusive, detect_protocol-IsExclusive}
use hyperway.Rpc.Protocol.Failures.{sent_code, sent_header, write_grpc_error-sent}
use hyperway.Rpc.Protocol.Timeouts.{parse_grpc_timeout-itoa}
use hyperway.Rpc.Unary.{Method, Handler, Interceptor}

abbrev call : Incoming
call = record {
  method = str "POST";
  path = str "/Echo/Say";
  header = (str "Content-Type", str "application/grpc" ∷ []) ∷ [];
}

abbrev missing : GoError
missing = rpc (new_error code_not_found (str "no such user"))

detect_protocol-IsExclusive_example : IsExclusive (detect_protocol call)
detect_protocol-IsExclusive_example = detect_protocol-IsExclusive call

write_grpc_error-sent_example :
    let w = write_grpc_error missing (fresh {B = ErrorBody}) in
    let status = grpc_status_code (sent_code missing) in
    (status_of w ≡ 200)
    × (atoi (get (str "grpc-status") (sent_header w)) ≡ some (pos status))
    × (1 ≤ status)
    × (status ≤ 16)
    × (get (str "grpc-message") (sent_header w) ≡ (grpc_error missing).message)
write_grpc_error-sent_example = write_grpc_error-sent missing

parse_grpc_timeout-itoa_example :
    parse_grpc_timeout (itoa 10 ++ 83 ∷ []) ≡ some (pos (10 * 1000000000))
parse_grpc_timeout-itoa_example =
    parse_grpc_timeout-itoa 10 83 1000000000 refl (omega arith) (omega arith)

-- an interceptor that counts the calls
abbrev counting : Interceptor ℕ Str Str
counting name req next n = next req (n * 2)

abbrev base : Handler ℕ Str Str
base req n = (done req, n)

abbrev method : Method ℕ
method = record {
  I = Str;
  O = Str;
  name = str "Say";
  interceptors = counting ∷ counting ∷ [];
  handler = λ timeout. base;
  validate = λ i. none;
  decode_json = λ s. done s;
  Msg = Str;
  unmarshal_proto = λ s. done s;
  to_input = λ s. done s;
  encode_json = λ s. done s;
  encode_proto = λ s. done s;
  compress = λ s. none;
  decompress = some (λ s. done s);
  should_compress = λ s. false;
}

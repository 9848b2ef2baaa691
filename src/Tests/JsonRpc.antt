-- ===== src/Tests/JsonRpc.antt =====
-- JSON-RPC: a service with one method, and a batch of three requests.
use hyperway.Prelude.{ℕ, ◌*◌, ◌≤◌, ◌≡◌, refl, true, false, none, some, List, [], ◌∷◌, length, arith}
use hyperway.Prelude.Int.{pos}
use hyperway.Prelude.Str.{Str, str, str_eq}
use hyperway.Rpc.Errors.{done}
use mathlib.Core.List.{Perm}
use hyperway.Rpc.JsonRpc.{Service, JsonRpcRequest, numbered, absent, process_request, is_version_2}
use hyperway.Rpc.JsonRpc.Single.{process_request-id}
use hyperway.Rpc.JsonRpc.Batch.{
  Run, Steps, stop, then', start, IsDone, owed, max_concurrency, refuse, spawn, acquire, finish,
}
use hyperway.Rpc.JsonRpc.Batch.Order.{batch-Perm}
use hyperway.Rpc.JsonRpc.Batch.Ends.{batch-limit, batch-ends, count}

abbrev service : Service
service = record {
  I = Str;
  O = Str;
  has_method = λ m. str_eq m (str "Echo");
  prepare_error = λ m. none;
  parse = λ body. none;
  parse_batch = λ body. none;
  zero_input = λ m. [];
  unmarshal = λ m params. done params;
  validate = λ m i. none;
  call = λ m i. done i;
  marshal = λ o. some o;
  batch_limit = 100;
}

abbrev echo : ℕ → JsonRpcRequest
echo n = record {
  jsonrpc = str "2.0";
  method = str "pkg.Echo";
  params = str "1";
  id = numbered (pos n);
}

abbrev old : JsonRpcRequest
old = record { jsonrpc = str "1.0"; method = str "Echo"; params = []; id = absent }

abbrev batch : List JsonRpcRequest
batch = echo 1 ∷ old ∷ echo 2 ∷ []

version_2 : (n : ℕ) → is_version_2 service (echo n) ≡ true
unfolding is_version_2 str_eq
version_2 n = refl

version_1 : is_version_2 service old ≡ false
unfolding is_version_2 str_eq
version_1 = refl

-- the second goroutine ends before the first
abbrev whole_run : (m : Run) × Steps service (start batch) m × IsDone m
whole_run = (
  _,
  then'
      (then'
        (then'
          (then'
            (then'
              (then' (then' stop (spawn (echo 1) (old ∷ echo 2 ∷ []) refl (version_2 1) refl))
                (refuse old (echo 2 ∷ []) refl version_1))
              (spawn (echo 2) [] refl (version_2 2) refl))
            (acquire [] (echo 1 ∷ []) (echo 2) refl (omega arith)))
          (acquire [] [] (echo 1) refl (omega arith)))
        (finish (echo 1 ∷ []) [] (echo 2) refl))
      (finish [] [] (echo 1) refl),
  (refl, refl, refl),
)

batch-Perm_example : Perm whole_run.0.responses (owed service batch)
batch-Perm_example = batch-Perm service batch whole_run.0 whole_run.1 whole_run.2

batch-limit_example : length whole_run.0.holding ≤ max_concurrency
batch-limit_example = batch-limit service batch whole_run.0 whole_run.1

batch-ends_example :
    (count whole_run.1 ≤ 3 * length batch) × ((n : Run) × Steps service whole_run.0 n × IsDone n)
batch-ends_example = batch-ends service batch whole_run.0 whole_run.1

process_request-id_example : (process_request service (echo 7)).id ≡ numbered (pos 7)
process_request-id_example = process_request-id service (echo 7)

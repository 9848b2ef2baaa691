-- ===== src/Rpc/JsonRpc/Batch.antt =====
-- How a batch runs (rpc/handler_jsonrpc.go): the loop over the requests, the goroutine of each one that
-- is to be answered, the semaphore, and the list of responses under its lock, as steps that interleave.
pub mod Order
pub mod Ends
use hyperway.Prelude.{
  ℕ, suc, ◌+◌, ◌≤◌, ◌<◌, ◌≡◌, ◌⊎◌, inl, inr, refl, sym, ap, ◌∙◌, Bool, true, false, not, List, [],
  ◌∷◌, ◌++◌, map, append_assoc, append-nil, arith, length, if◌then◌else◌,
}
use hyperway.Rpc.JsonRpc.{
  JsonRpcRequest, JsonRpcResponse, Service, process_request, is_notification, is_version_2,
  wrong_version,
}

abbrev pub max_concurrency : ℕ
max_concurrency = 10

-- `todo`: what the loop has still to look at; `waiting`: goroutines before the semaphore; `holding`:
-- those behind it; `responses`: the list so far.
pub record Run : Type 0 where
  pub todo : List JsonRpcRequest
  pub waiting : List JsonRpcRequest
  pub holding : List JsonRpcRequest
  pub responses : List JsonRpcResponse

module _ (s : Service) where
  -- One step of the loop or of a goroutine.
  pub data Step (m : Run) : Run → Type 0 where
    refuse :
        (req : JsonRpcRequest) (more : List JsonRpcRequest)
        → m.todo ≡ req ∷ more
        → is_version_2 s req ≡ false
        → Step m (record m { todo = more; responses = m.responses ++ wrong_version s req ∷ [] })
    skip :
        (req : JsonRpcRequest) (more : List JsonRpcRequest)
        → m.todo ≡ req ∷ more
        → is_version_2 s req ≡ true
        → is_notification req ≡ true
        → Step m (record m { todo = more })
    spawn :
        (req : JsonRpcRequest) (more : List JsonRpcRequest)
        → m.todo ≡ req ∷ more
        → is_version_2 s req ≡ true
        → is_notification req ≡ false
        → Step m (record m { todo = more; waiting = req ∷ m.waiting })
    acquire :
        (before after : List JsonRpcRequest) (req : JsonRpcRequest)
        → m.waiting ≡ before ++ req ∷ after
        → length m.holding < max_concurrency
        → Step m (record m { waiting = before ++ after; holding = req ∷ m.holding })
    finish :
        (before after : List JsonRpcRequest) (req : JsonRpcRequest)
        → m.holding ≡ before ++ req ∷ after
        → Step m (record m {
          holding = before ++ after;
          responses = m.responses ++ process_request s req ∷ [];
        })

  -- Any number of steps.
  pub data Steps (m : Run) : Run → Type 0 where
    stop : Steps m m
    then' : {n o : Run} → Steps m n → Step n o → Steps m o

abbrev pub start : List JsonRpcRequest → Run
start requests = record { todo = requests; waiting = []; holding = []; responses = [] }

-- wg.Wait() returns
abbrev pub IsDone : Run → Type 0
IsDone m = (m.todo ≡ []) × (m.waiting ≡ []) × (m.holding ≡ [])

-- The responses that a batch owes, in the order of its requests: one for each request of a wrong
-- version and for each one that is no notification.
unfoldable pub owed : Service → List JsonRpcRequest → List JsonRpcResponse
owed s [] = []
owed s (req ∷ more) =
    let rest = owed s more in
    if not (is_version_2 s req)
    then wrong_version s req ∷ rest
    else if is_notification req
    then rest
    else process_request s req ∷ rest

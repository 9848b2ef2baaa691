-- ===== src/Rpc/JsonRpc/Batch/Order.antt =====
-- Whatever the order of the steps, a batch gives the responses that it owes.
use hyperway.Prelude.{sym, List, [], ◌∷◌, ◌++◌, map, append_assoc, append-nil}
use mathlib.Core.Path.{subst}
use mathlib.Core.List.{Perm, perm_middle}
use mathlib.Core.List.Perm
use hyperway.Rpc.JsonRpc.{JsonRpcRequest, JsonRpcResponse, Service, process_request, wrong_version}
use hyperway.Rpc.JsonRpc.Batch.{
  Run, Step, refuse, skip, spawn, acquire, finish, Steps, stop, then', start, IsDone, owed,
}

module _ (s : Service) where
  -- a response at the end of a list, and one in the middle of a nested one
  out_end :
      (given rest : List JsonRpcResponse) (x : JsonRpcResponse)
      → Perm ((given ++ x ∷ []) ++ rest) (x ∷ (given ++ rest))
  out_end given rest x =
      subst (λ l. Perm l (x ∷ (given ++ rest))) (sym (append_assoc given (x ∷ []) rest))
        (perm_middle given rest)

  out_nested :
      (a b c : List JsonRpcResponse) (x : JsonRpcResponse)
      → Perm (a ++ (b ++ x ∷ c)) (x ∷ (a ++ (b ++ c)))
  out_nested a b c x = Perm.trans (Perm.append_left a (perm_middle b c)) (perm_middle a (b ++ c))

  -- what a run has given and still owes
  abbrev account : Run → List JsonRpcResponse
  account m =
      m.responses
      ++ (map (process_request s) m.holding ++ (map (process_request s) m.waiting ++ owed s m.todo))

  map-middle :
      (before after : List JsonRpcRequest) (req : JsonRpcRequest)
      → Perm
          (map (process_request s) (before ++ req ∷ after))
          (process_request s req ∷ map (process_request s) (before ++ after))
  map-middle [] after req = Perm.refl _
  map-middle (b ∷ before) after req =
      Perm.trans (Perm.cons (process_request s b) (map-middle before after req)) (Perm.swap _ _ _)

  step-account : (m n : Run) → Step s m n → Perm (account n) (account m)
  unfolding owed
  step-account m _ (refuse req more todo wrong) =
      rw (todo, wrong)
        (Perm.trans (out_end m.responses _ (wrong_version s req)) (
          Perm.symm (
            Perm.trans
              (Perm.append_left m.responses (out_nested _ _ (owed s more) (wrong_version s req)))
              (perm_middle m.responses _))))
  step-account m _ (skip req more todo right quiet) = rw (todo, right, quiet) (Perm.refl _)
  step-account m _ (spawn req more todo right asked) =
      rw (todo, right, asked)
        (Perm.append_left m.responses (
          Perm.append_left (map (process_request s) m.holding)
            (Perm.symm (perm_middle (map (process_request s) m.waiting) (owed s more)))))
  step-account m _ (acquire before after req waiting free) = rw waiting (
      Perm.append_left m.responses (
        Perm.symm (
          Perm.trans
            (Perm.append_left (map (process_request s) m.holding)
              (Perm.append_right (owed s m.todo) (map-middle before after req)))
            (perm_middle (map (process_request s) m.holding) _))))
  step-account m _ (finish before after req holding) = rw holding (
      Perm.trans (out_end m.responses _ (process_request s req)) (
        Perm.symm (
          Perm.trans
            (Perm.append_left m.responses (Perm.append_right _ (map-middle before after req)))
            (perm_middle m.responses _))))

  steps-account : (m n : Run) → Steps s m n → Perm (account n) (account m)
  steps-account m _ stop = Perm.refl _
  steps-account m _ (then' {n} {o = k} before last) =
      Perm.trans (step-account n k last) (steps-account m n before)

-- When a batch is done, the list of responses is a permutation of those that it owes, in
-- whatever order its goroutines ran: one for each request of a wrong version and for each one
-- that is no notification; none is lost, and none is given twice.
pub batch-Perm :
    (s : Service) (requests : List JsonRpcRequest) (m : Run)
    → Steps s (start requests) m
    → IsDone m
    → Perm m.responses (owed s requests)
unfolding owed
batch-Perm s requests m run (no_todo, no_waiting, no_holding) =
    let kept = steps-account s (start requests) m run in
    subst (λ l. Perm l (owed s requests)) (append-nil m.responses)
      (rw (no_todo, no_waiting, no_holding) at kept)

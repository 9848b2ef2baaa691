-- ===== src/Rpc/JsonRpc/Batch/Ends.antt =====
-- A batch keeps its limit, is never stuck, and ends.
use hyperway.Prelude.{
  ℕ, zero, suc, ◌+◌, ◌*◌, ◌≤◌, ◌≡◌, refl, ap, Bool-cases, inl, inr, ◌⊎◌, List, [], ◌∷◌, arith,
  length, length-append,
}
use hyperway.Rpc.JsonRpc.{JsonRpcRequest, Service, is_notification, is_version_2}
use hyperway.Rpc.JsonRpc.Batch.{
  Run, Step, refuse, skip, spawn, acquire, finish, Steps, stop, then', start, IsDone,
  max_concurrency,
}

module _ (s : Service) where
  step-limit :
      (m n : Run)
      → Step s m n
      → length m.holding ≤ max_concurrency
      → length n.holding ≤ max_concurrency
  step-limit m _ (refuse req more todo wrong) h = h
  step-limit m _ (skip req more todo right quiet) h = h
  step-limit m _ (spawn req more todo right asked) h = h
  step-limit m _ (acquire before after req waiting free) h = omega (arith, free)
  step-limit m _ (finish before after req holding) h =
      omega
        (arith, ap length holding, length-append before (req ∷ after), length-append before after)

-- At most ten requests of a batch are processed at the same time, in every run.
pub batch-limit :
    (s : Service) (requests : List JsonRpcRequest) (m : Run)
    → Steps s (start requests) m
    → length m.holding ≤ max_concurrency
batch-limit s requests m stop = omega arith
batch-limit s requests _ (then' {n} {o = k} before last) =
    step-limit s n k last (batch-limit s requests n before)

-- what a run has still to do, in steps
abbrev work : Run → ℕ
work m = length m.todo * 3 + length m.waiting * 2 + length m.holding

module _ (s : Service) where
  step-work : (m n : Run) → Step s m n → suc (work n) ≤ work m
  step-work m _ (refuse req more todo wrong) = omega (arith, ap length todo)
  step-work m _ (skip req more todo right quiet) = omega (arith, ap length todo)
  step-work m _ (spawn req more todo right asked) = omega (arith, ap length todo)
  step-work m _ (acquire before after req waiting free) =
      omega
        (arith, ap length waiting, length-append before (req ∷ after), length-append before after)
  step-work m _ (finish before after req holding) =
      omega
        (arith, ap length holding, length-append before (req ∷ after), length-append before after)

  -- a run is done or has a step
  next :
      (todo waiting holding : List JsonRpcRequest) (m : Run)
      → m.todo ≡ todo
      → m.waiting ≡ waiting
      → m.holding ≡ holding
      → IsDone m ⊎ ((n : Run) × Step s m n)
  next (req ∷ more) waiting holding m todo _ _ = elim (Bool-cases (is_version_2 s req)) [
    | inl right ↦ elim (Bool-cases (is_notification req)) [
      | inl quiet ↦ inr (_, skip req more todo right quiet)
      | inr asked ↦ inr (_, spawn req more todo right asked)
    ]
    | inr wrong ↦ inr (_, refuse req more todo wrong)
  ]
  next [] waiting (req ∷ holding) m todo _ held = inr (_, finish [] holding req held)
  next [] (req ∷ waiting) [] m todo waits held =
      inr (_, acquire [] waiting req waits (omega (arith, ap length held)))
  next [] [] [] m todo waits held = inl (todo, waits, held)

  -- a run with at most `fuel` steps to do comes to its end
  ends_from :
      (fuel : ℕ) (m n : Run) → Steps s m n → work n ≤ fuel → (k : Run) × Steps s m k × IsDone k
  ends_from zero m n run enough = elim (next n.todo n.waiting n.holding n refl refl refl) [
    | inl finished ↦ (n, run, finished)
    | inr (k, step) ↦ ground (arith, step-work n k step)
  ]
  ends_from (suc fuel) m n run enough = elim (next n.todo n.waiting n.holding n refl refl refl) [
    | inl finished ↦ (n, run, finished)
    | inr (k, step) ↦ ends_from fuel m k (then' run step) (omega (arith, step-work n k step))
  ]

-- the steps of a run
abbrev pub count : {s : Service} {m n : Run} → Steps s m n → ℕ
count stop = 0
count (then' before last) = suc (count before)

run-work : (s : Service) (m n : Run) (run : Steps s m n) → count run + work n ≤ work m
run-work s m _ stop = omega arith
run-work s m _ (then' {n} {o = k} before last) =
    omega (arith, run-work s m n before, step-work s n k last)

-- Every run of a batch ends: it has at most three steps for each request, whatever the order, and from
-- where it is it can go on to its end, so that the semaphore blocks no run for ever.
pub batch-ends :
    (s : Service) (requests : List JsonRpcRequest) (m : Run) (run : Steps s (start requests) m)
    → (count run ≤ 3 * length requests) × ((n : Run) × Steps s m n × IsDone n)
batch-ends s requests m run =
    (omega (arith, run-work s (start requests) m run), ends_from s (work m) m m stop (omega arith))

-- ===== src/Rpc/RetryLoop/Rule.antt =====
-- One rule for what the retry loop keeps: a family `Inv k` of predicates of the state, where `k` is
-- how many calls of the handler are still paid for.
use hyperway.Prelude.{
  ℕ, zero, suc, ◌+◌, Bool, true, false, Bool-cases, inl, inr, Option-cases, Option, none, some,
  arith,
}
use hyperway.Prelude.Int.{wrap_64, ◌*ℤ◌, ℤ, pos, ltb_ℤ}
use hyperway.Prelude.Str.{Str}
use hyperway.Float.{Float}
use hyperway.Rpc.Errors.{GoError}
use hyperway.Rpc.Retry.{RetryPolicy, retry_backoff, capped_backoff}
use hyperway.Rpc.Interceptor.{is_retryable, extract_pushback_ms}
use hyperway.Rpc.Throttle.{RetryThrottle, consume_token, add_tokens}
use hyperway.Rpc.RetryLoop.{
  Reply, State, World, after_wait, after_token, pause, judge, attempt_once, attempts,
}

module _ {W A : Type 0} (f : Float) (parse_duration : Str → Option ℤ) (env : World f W A)
    (Inv : ℕ → State f W A → Type 0) where
  pub record IsKept : Type 0 where
    pub call : (k : ℕ) (s : State f W A) → Inv (suc k) s → Inv k (env.handler s).1
    pub wait : (k : ℕ) (d : ℤ) (s : State f W A) → Inv k s → Inv k (env.wait d s).1
    pub random : (k : ℕ) (n : ℤ) (s : State f W A) → Inv k s → Inv k (env.random n s).1
    pub add :
        (k : ℕ) (s : State f W A)
        → Inv k s
        → Inv k (record s { throttle = add_tokens f s.throttle })
    pub consume :
        (k : ℕ) (s : State f W A)
        → Inv k s
        → Inv k (record s { throttle = (consume_token f s.throttle).1 })
    pub spare : (k : ℕ) (s : State f W A) → Inv (suc k) s → Inv k s

  module _ (kept : IsKept) where
    spare_all : (k : ℕ) (s : State f W A) → Inv k s → Inv 0 s
    spare_all zero s h = h
    spare_all (suc k) s h = spare_all k s (kept.spare k s h)

    -- a round's continuation that keeps what is paid for
    abbrev Goes : ℕ → (State f W A → Reply A × State f W A) → Type 0
    Goes k go = (s : State f W A) → Inv k s → Inv 0 (go s).1

    after_wait-Inv :
        (k : ℕ) (go : State f W A → Reply A × State f W A) (r : Option GoError × State f W A)
        → Goes k go
        → Inv k r.1
        → Inv 0 (after_wait f parse_duration env go r).1
    unfolding after_wait
    after_wait-Inv k go (some e, s) next h = spare_all k s h
    after_wait-Inv k go (none, s) next h = next s h

    after_token-Inv :
        (k : ℕ) (next : GoError → State f W A → Reply A × State f W A) (err : GoError)
        (r : Bool × Option (RetryThrottle f)) (s : State f W A)
        → ((e : GoError) → Goes k (next e))
        → Inv k (record s { throttle = r.1 })
        → Inv 0 (after_token f parse_duration env next err r s).1
    unfolding after_token
    after_token-Inv k next err (true, t) s go h = go err _ h
    after_token-Inv k next err (false, t) s go h = spare_all k _ h

    retry_backoff-Inv :
        (k : ℕ) (p : RetryPolicy f.F) (n : ℤ) (s : State f W A)
        → Inv k s
        → Inv k (retry_backoff f parse_duration env.random (some p) n s).1
    unfolding retry_backoff
    retry_backoff-Inv k p n s h =
        let range = f.mul (capped_backoff f parse_duration p n) (f.decimal 2 1) in
        let drawn = kept.random k (f.to_int (f.mul (f.decimal 2 0) range)) s h in
        ground (arith, drawn)

    after_backoff-Inv :
        (k : ℕ) (p : RetryPolicy f.F) (next : GoError → State f W A → Reply A × State f W A)
        (attempt : ℕ) (err : GoError) (s : State f W A)
        → ((e : GoError) → Goes k (next e))
        → Inv k s
        → (let delay = retry_backoff f parse_duration env.random (some p) (pos attempt) s in
            Inv 0
              (after_wait f parse_duration env
                (λ s'. after_token f parse_duration env next err (consume_token f s'.throttle) s')
                (env.wait delay.0 delay.1)).1)
    after_backoff-Inv k p next attempt err s go h =
        let delay = retry_backoff f parse_duration env.random (some p) (pos attempt) s in
        after_wait-Inv k
          (λ s'. after_token f parse_duration env next err (consume_token f s'.throttle) s')
          (env.wait delay.0 delay.1)
          (λ s' h'.
            after_token-Inv k next err (consume_token f s'.throttle) s' go (kept.consume k s' h'))
          (kept.wait k delay.0 delay.1 (retry_backoff-Inv k p (pos attempt) s h))

    pause-Inv :
        (k : ℕ) (p : RetryPolicy f.F) (next : GoError → State f W A → Reply A × State f W A)
        (attempt : ℕ) (err : GoError) (s : State f W A)
        → ((e : GoError) → Goes k (next e))
        → Inv k s
        → Inv 0 (pause f parse_duration env p next attempt err s).1
    unfolding pause
    pause-Inv k p next attempt err s go h =
        elim (Bool-cases (ltb_ℤ (extract_pushback_ms err) (pos 0))) [
          | inl stop ↦ rw stop (spare_all k s h)
          | inr on ↦ elim (Bool-cases (ltb_ℤ (pos 0) (extract_pushback_ms err))) [
            | inl asked ↦
                rw (on, asked)
                  (after_wait-Inv k (next err)
                    (env.wait (wrap_64 (extract_pushback_ms err *ℤ pos 1_000_000)) s) (go err)
                    (kept.wait k _ s h))
            | inr free ↦ rw (on, free) (after_backoff-Inv k p next attempt err s go h)
          ]
        ]

    judge-Inv :
        (k : ℕ) (p : RetryPolicy f.F) (next : GoError → State f W A → Reply A × State f W A)
        (attempt : ℕ) (r : Reply A × State f W A)
        → ((e : GoError) → Goes k (next e))
        → Inv k r.1
        → Inv 0 (judge f parse_duration env p next attempt r).1
    unfolding judge
    judge-Inv k p next attempt ((resp, none), s) go h = spare_all k _ (kept.add k s h)
    judge-Inv k p next attempt ((resp, some err), s) go h =
        elim (Bool-cases (is_retryable (some err) (some p))) [
          | inl retry ↦ elim (Bool-cases (ltb_ℤ (pos attempt) p.max_attempts)) [
            | inl more ↦ rw (retry, more) (pause-Inv k p next attempt err s go h)
            | inr last ↦ rw (retry, last) (spare_all k s h)
          ]
          | inr fatal ↦ rw fatal (spare_all k s h)
        ]

    attempt_once-Inv :
        (k : ℕ) (p : RetryPolicy f.F) (next : GoError → State f W A → Reply A × State f W A)
        (attempt : ℕ) (s : State f W A)
        → ((e : GoError) → Goes k (next e))
        → Inv (suc k) s
        → Inv 0 (attempt_once f parse_duration env p next attempt s).1
    unfolding attempt_once
    attempt_once-Inv k p next attempt s go h = elim (Option-cases (env.done s)) [
      | inl running ↦
          rw (running, attempt_once)
            (judge-Inv k p next attempt (env.handler s) go (kept.call k s h))
      | inr (e, ended) ↦ rw (ended, attempt_once) (spare_all (suc k) s h)
    ]

    pub attempts-Inv :
        (left : ℕ) (p : RetryPolicy f.F) (attempt : ℕ) (last : Option GoError) (s : State f W A)
        → Inv left s
        → Inv 0 (attempts f parse_duration env p left attempt last s).1
    unfolding attempts
    attempts-Inv zero p attempt last s h = h
    attempts-Inv (suc left) p attempt last s h =
        attempt_once-Inv left p
          (λ err. attempts f parse_duration env p left (attempt + 1) (some err)) attempt s
          (λ e s' h'. attempts-Inv left p (attempt + 1) (some e) s' h') h

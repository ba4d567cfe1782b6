-- ===== src/Queue/Retry/Attempts.antt =====
-- How often processTaskWithRetry calls the processor, and how executeTask ends.
use ncore.Common.{
  ℕ, zero, suc, ◌+◌, ◌<◌, ◌≡◌, refl, sym, ap, Option, none, some, true, false, arith, Bool-cases,
  Option-cases, inl, inr, subst, dec_lt,
}
use native.Mathlib.Numerals.{add-one}
use ncore.Common.Int.{pos}
use ncore.Queue.Failure.{Failure, is_retryable_error}
use ncore.Queue.Retry.{
  Run, Progress, canceled_error, note_retry, called, retry_loop, attempts, process_task_with_retry,
}

-- the attempt `i` fails, and is to be retried, and the wait before the next is not cut short
pub record Retried (run : Run) (i : ℕ) : Type 0 where
  pub err : Failure
  pub fails : run.process i ≡ some err
  pub again : is_retryable_error (some err) ≡ true
  pub waits : run.canceled (suc i) ≡ false

-- The four ways in which the loop can end, with the number of calls and of retries: attempts are
-- numbered from 0, and there are at most `limit`.
pub data RetryEnds (run : Run) (limit : ℕ) : Option Failure → (calls retries : ℕ) → Type 0 where
  succeeds :
      (n : ℕ)
      → n < limit
      → ((i : ℕ) → i < n → Retried run i)
      → run.process n ≡ none
      → RetryEnds run limit none (suc n) n
  gives_up :
      (n : ℕ) (err : Failure)
      → n < limit
      → ((i : ℕ) → i < n → Retried run i)
      → run.process n ≡ some err
      → is_retryable_error (some err) ≡ false
      → RetryEnds run limit (some err) (suc n) n
  is_canceled :
      (n : ℕ) (err : Failure)
      → suc n < limit
      → ((i : ℕ) → i < n → Retried run i)
      → run.process n ≡ some err
      → is_retryable_error (some err) ≡ true
      → run.canceled (suc n) ≡ true
      → RetryEnds run limit (some canceled_error) (suc n) n
  is_exhausted :
      (n : ℕ) (err : Failure)
      → suc n ≡ limit
      → ((i : ℕ) → i < n → Retried run i)
      → run.process n ≡ some err
      → is_retryable_error (some err) ≡ true
      → RetryEnds run limit (some err) (suc n) n

-- the counters when the loop has made `calls` calls and `retries` retries
pub record Counted (start s : Progress) (calls retries : ℕ) : Type 0 where
  pub calls_made : s.calls ≡ start.calls + calls
  pub retries_made : s.metrics.retry_count ≡ start.metrics.retry_count + retries
  pub noted : s.task.retry_count ≡ start.task.retry_count + retries
  pub others :
      (s.metrics.process_count ≡ start.metrics.process_count)
      × (s.metrics.success_count ≡ start.metrics.success_count)
      × (s.metrics.failure_count ≡ start.metrics.failure_count)

abbrev pub LoopEnds : Run → ℕ → Progress → Progress × Option Failure → Type 0
LoopEnds run limit start r =
    (calls : ℕ) × (retries : ℕ) × RetryEnds run limit r.1 calls retries
    × Counted start r.0 calls retries

module _ (run : Run) (limit : ℕ) (start : Progress) where
  Retried-suc :
      (n : ℕ)
      → ((i : ℕ) → i < n → Retried run i)
      → Retried run n
      → (i : ℕ) → i < suc n
      → Retried run i
  Retried-suc n h r i b = elim (dec_lt i n) [
    | yes below ↦ h i below
    | no above ↦ subst (Retried run) (omega arith) r
  ]

  Counted-retry :
      (s : Progress) (n now : ℕ)
      → Counted start s (suc n) n
      → Counted start (called (note_retry now s)) (suc (suc n)) (suc n)
  Counted-retry s n now c = record {
    calls_made = omega (arith, c.calls_made);
    retries_made = omega (arith, c.retries_made);
    noted = omega (arith, c.noted);
    others = c.others;
  }

  -- the loop after the attempt `n` has failed
  ends_after :
      (left n : ℕ) (err : Failure) (s : Progress)
      → suc n + left ≡ limit
      → ((i : ℕ) → i < n → Retried run i)
      → run.process n ≡ some err
      → is_retryable_error (some err) ≡ true
      → Counted start s (suc n) n
      → LoopEnds run limit start (retry_loop left run (suc n) (some err) s)
  unfolding retry_loop
  ends_after zero n err s total before fails again c =
      (suc n, n, is_exhausted n err (omega (arith, total)) before fails again, c)
  ends_after (suc left) n err s total before fails again c =
      elim (Bool-cases (run.canceled (suc n))) [
        | inl cut ↦
            let e : retry_loop (suc left) run (suc n) (some err) s ≡ (s, some canceled_error) =
              ground (arith, cut) in
            subst (LoopEnds run limit start) (sym e)
              (suc n, n, is_canceled n err (omega (arith, total)) before fails again cut, c)
        | inr waits ↦
            let s' = called (note_retry (run.clock (suc n)) s) in
            let c' = Counted-retry s n (run.clock (suc n)) c in
            let all =
              Retried-suc n before
                (record { err = err; fails = fails; again = again; waits = waits }) in
            elim (Option-cases (run.process (suc n))) [
              | inl done ↦
                  let e : retry_loop (suc left) run (suc n) (some err) s ≡ (s', none) =
                    ground (arith, waits, done) in
                  subst (LoopEnds run limit start) (sym e)
                    (suc (suc n), suc n, succeeds (suc n) (omega (arith, total)) all done, c')
              | inr (err', fails') ↦ elim (Bool-cases (is_retryable_error (some err'))) [
                | inl again' ↦
                    let e : retry_loop (suc left) run (suc n) (some err) s
                        ≡ retry_loop left run (suc (suc n)) (some err') s' =
                      ground (arith, waits, fails', again', add-one n) in
                    subst (LoopEnds run limit start) (sym e)
                      (ends_after left (suc n) err' s' (omega (arith, total)) all fails' again' c')
                | inr stop ↦
                    let e : retry_loop (suc left) run (suc n) (some err) s ≡ (s', some err') =
                      ground (arith, waits, fails', stop) in
                    subst (LoopEnds run limit start) (sym e) (
                      suc (suc n),
                      suc n,
                      gives_up (suc n) err' (omega (arith, total)) all fails' stop,
                      c',
                    )
              ]
            ]
      ]

none_before : {run : Run} (i : ℕ) → i < 0 → Retried run i
none_before i b = absurd (omega arith)

-- processTaskWithRetry always ends. For a task whose MaxRetries is n ≥ 0 it calls Process at
-- least once and at most n + 1 times: it stops at the first success, at the first error that is
-- not to be retried, when the context ends a wait, or when the attempts are used up, and returns nil, that
-- error, context.Canceled or the last error. Each retry, and nothing else, counts in the task and the metrics.
pub process_task_with_retry_ends :
    (run : Run) (s : Progress) (n : ℕ)
    → s.task.max_retries ≡ pos n
    → LoopEnds run (suc n) s (process_task_with_retry run s)
unfolding process_task_with_retry retry_loop
process_task_with_retry_ends run s n m =
    subst (LoopEnds run (suc n) s) (sym start) (elim (Option-cases (run.process 0)) [
      | inl done ↦
          let e : retry_loop (suc n) run 0 none s ≡ (called s, none) = ground (arith, done) in
          subst (LoopEnds run (suc n) s) (sym e)
            (1, 0, succeeds 0 (omega arith) none_before done, c)
      | inr (err, fails) ↦ elim (Bool-cases (is_retryable_error (some err))) [
        | inl again ↦
            let e : retry_loop (suc n) run 0 none s ≡ retry_loop n run 1 (some err) (called s) =
              ground (arith, fails, again) in
            subst (LoopEnds run (suc n) s) (sym e)
              (ends_after run (suc n) s n 0 err (called s) (omega arith) none_before fails again c)
        | inr stop ↦
            let e : retry_loop (suc n) run 0 none s ≡ (called s, some err) =
              ground (arith, fails, stop) in
            subst (LoopEnds run (suc n) s) (sym e)
              (1, 0, gives_up 0 err (omega arith) none_before fails stop, c)
      ]
    ])
  where
    start : process_task_with_retry run s ≡ retry_loop (suc n) run 0 none s
    start = ap (λ k. retry_loop (attempts k) run 0 none s) m

    c : Counted s (called s) 1 0
    c = record {
      calls_made = refl;
      retries_made = omega arith;
      noted = omega arith;
      others = (refl, refl, refl);
    }

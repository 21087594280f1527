-- ===== src/Scheduler/Results.antt =====
-- What a tick as a whole does.
use skill_kernel.Base.{
  sym, append-nil, ap, ◌⊎◌, ◌∙◌, ◌≢◌, ℕ, ◌+◌, ◌≤◌, ◌<◌, max, String, str_eq, true, false, List,
  ◌++◌, ◌≡◌, refl, subst, arith, length, countb, All, In, Bool-cases, inl, inr,
}
use skill_kernel.Jobs.Types.{Job}
use skill_kernel.Scheduler.Misfire.{value}
use skill_kernel.Scheduler.Tick.{
  Schedule, Environment, is_active_of, TickState, TickResult, TickRequest, begin, policy_of,
  due_schedules, tick_all, run_due_schedules,
}
use skill_kernel.Scheduler.Rounds.{OnValue, OnValue-chain, Grows, tick_all-Grows}
use skill_kernel.Scheduler.Advance.{IsPast, tick_all-own}

module _ (env : Environment) (r : TickRequest) (table : List Job) (schedules : List Schedule) where
  abbrev pub chosen : List Schedule
  chosen = due_schedules r.now r.locked r.limit schedules

  abbrev report : TickState → TickResult
  report st = record {
    due = length chosen;
    enqueued = length st.jobs;
    tick_jobs = st.jobs;
    tick_skipped = st.skipped;
    coalesced = st.misfires_coalesced;
    lock_acquired = true;
  }

  tick_by :
      (Q : TickState → Type 0) (P : TickResult × List Job × List Schedule → Type 0)
      → r.lock_free ≡ true
      → OnValue Q (tick_all env r.fuel r.now r.client_now 0 chosen (begin table schedules))
      → ((st : TickState) → Q st → P (report st, st.table, st.schedules))
      → OnValue P (run_due_schedules env r table schedules)
  unfolding run_due_schedules
  tick_by Q P free rounds ends =
      rw (free, run_due_schedules)
        (OnValue-chain P Q (tick_all env r.fuel r.now r.client_now 0 chosen (begin table schedules))
          (λ st. value (report st, st.table, st.schedules)) rounds ends)

  abbrev Queues : ℕ → String → TickResult × List Job × List Schedule → Type 0
  Queues ws kind (result, table', schedules') =
      (table' ≡ table ++ result.tick_jobs)
      × (result.enqueued + result.tick_skipped ≤ result.due)
      × (countb (is_active_of ws kind) table' ≤ max 1 (countb (is_active_of ws kind) table))

  queues :
      (ws : ℕ) (kind : String) → OnValue (Queues ws kind) (run_due_schedules env r table schedules)
  unfolding run_due_schedules
  queues ws kind = elim (Bool-cases r.lock_free) [
    | inl free ↦
        tick_by (Grows ws kind (length chosen) (begin table schedules)) (Queues ws kind) free
          (tick_all-Grows env ws kind r.fuel r.now r.client_now 0 chosen (begin table schedules))
          λ st g.
            (g.in_table ∙ ap (λ l. table ++ l) (sym g.reported), omega (arith, g.counted), g.single)
    | inr busy ↦ rw (busy, run_due_schedules) (sym (append-nil table), omega arith, omega arith)
  ]

  abbrev Moves : ℕ → TickResult × List Job × List Schedule → Type 0
  Moves id (result, table', schedules') = All (IsPast r.client_now id) schedules'

-- A tick that returns has only appended jobs to the table, namely those that it reports; the jobs
-- reported and the schedules skipped are together no more than the schedules due; and of any
-- workspace and job kind there is at most one queued or leased job afterwards, unless there were more
-- before, and then no more than before.
pub run_due_schedules-jobs :
    (env : Environment) (r : TickRequest) (table table' : List Job)
    (schedules schedules' : List Schedule) (result : TickResult) (ws : ℕ) (kind : String)
    → run_due_schedules env r table schedules ≡ value (result, table', schedules')
    → (table' ≡ table ++ result.tick_jobs)
      × (result.enqueued + result.tick_skipped ≤ result.due)
      × (countb (is_active_of ws kind) table' ≤ max 1 (countb (is_active_of ws kind) table))
run_due_schedules-jobs env r table table' schedules schedules' result ws kind e =
    subst (OnValue (Queues env r table schedules ws kind)) e (queues env r table schedules ws kind)

-- If a tick holds the advisory lock, returns, and no schedule that it picked has the policy
-- catch_up_limited, then no row with the identifier of a picked schedule is still due at the
-- sidecar's clock.
pub run_due_schedules-advances :
    (env : Environment) (r : TickRequest) (table table' : List Job)
    (schedules schedules' : List Schedule) (result : TickResult) (c : Schedule)
    → r.lock_free ≡ true
    → All (λ s. str_eq (policy_of s) "catch_up_limited" ≡ false) (chosen env r table schedules)
    → In c (chosen env r table schedules)
    → run_due_schedules env r table schedules ≡ value (result, table', schedules')
    → All (λ s. (s.schedule_id ≢ c.schedule_id) ⊎ (r.client_now < s.next_run_at)) schedules'
run_due_schedules-advances env r table table' schedules schedules' result c free other m e =
    subst (OnValue (Moves env r table schedules c.schedule_id)) e (
      tick_by env r table schedules (λ st. All (IsPast r.client_now c.schedule_id) st.schedules)
        (Moves env r table schedules c.schedule_id) free
        (tick_all-own env r.fuel r.now r.client_now c.schedule_id 0 (chosen env r table schedules) c
          (begin table schedules) refl other m)
        (λ st p. p))

-- ===== src/Scheduler/Tests.antt =====
-- Three schedules, a tick over them, and the theorems at them.
use skill_kernel.Base.{
  ℕ, ◌+◌, ◌*◌, ◌≤◌, ◌<◌, max, String, Bool, true, false, List, [], ◌∷◌, ◌++◌, none, ◌≡◌, ◌≢◌, refl,
  ◌^◌, ◌⊎◌, inr, arith, countb, All, here, pos,
}
use skill_kernel.Jobs.Types.{Job, JobStatus, Workspace, seconds}
use skill_kernel.Jobs.Enqueue.{ensure_workspace}
use skill_kernel.Scheduler.Misfire.{
  value, value_error, integer_out_of_range, out_of_fuel, is_supported, missed_run_count,
  should_enqueue_misfire, next_run_after,
}
use skill_kernel.Scheduler.NextRun.{next_run_after-missed, next_run_after_diverges}
use skill_kernel.Scheduler.Tick.{
  Schedule, Environment, is_active_of, TickResult, TickRequest, due_schedules, run_due_schedules,
}
use skill_kernel.Scheduler.Results.{run_due_schedules-jobs, run_due_schedules-advances}
use skill_kernel.Scheduler.Termination.{run_due_schedules-value}
use skill_kernel.Scheduler.Upsert.{UpsertRequest, Stored, upsert_schedule, upsert_schedule-lookup}

abbrev schedule : ℕ → String → ℕ → String → Schedule
schedule id kind at policy = record {
  schedule_id = id;
  workspace_id = 1;
  name = kind;
  job_kind = kind;
  enabled = true;
  interval_seconds = 60;
  next_run_at = at;
  payload = "{}";
  misfire_policy = policy;
}

-- Three runs behind, two runs behind, and not due.
abbrev late : Schedule
late = schedule 1 "decay" 30_000_000 "coalesce"

abbrev skipping : Schedule
skipping = schedule 2 "repair" 100_000_000 "skip"

abbrev early : Schedule
early = schedule 3 "scan" 900_000_000 "coalesce"

abbrev rows : List Schedule
rows = late ∷ skipping ∷ early ∷ []

abbrev env : Environment
env = record {
  uuid_text = λ id. "id";
  iso_text = λ at. "at";
  normal_json = λ text. text;
  fresh_job = λ n. 100 + n;
  fresh_trace = λ n. n;
  fresh_span = λ n. n;
  clock = λ n. 200_000_001;
}

abbrev request : TickRequest
request = record {
  limit = 25;
  now = 200_000_000;
  client_now = 200_000_000;
  locked = λ id. false;
  lock_free = true;
  fuel = 10;
}

abbrev decay_job : Job
decay_job = record {
  job_id = 100;
  workspace_id = 1;
  trace_id = 0;
  span_id = 0;
  parent_span_id = none;
  job_kind = "decay";
  status = JobStatus.queued;
  idempotency_key = "schedule:id:at";
  payload = "{}";
  priority = pos 100;
  lease_owner = none;
  lease_expires_at = none;
  attempts = 0;
  max_attempts = 5;
  available_at = 200_000_000;
  created_at = 200_000_000;
  updated_at = 200_000_000;
}

abbrev report : TickResult
report = record {
  due = 2;
  enqueued = 1;
  tick_jobs = decay_job ∷ [];
  tick_skipped = 1;
  coalesced = 3;
  lock_acquired = true;
}

abbrev moved : List Schedule
moved =
    schedule 1 "decay" 210_000_000 "coalesce" ∷ schedule 2 "repair" 220_000_000 "skip" ∷ early ∷ []

tick_runs : run_due_schedules env request [] rows ≡ value (report, decay_job ∷ [], moved)
unfolding run_due_schedules should_enqueue_misfire next_run_after missed_run_count
tick_runs = refl

run_due_schedules-jobs_example :
    (◌≡◌ {A = List Job} (decay_job ∷ []) ([] ++ report.tick_jobs))
    × (report.enqueued + report.tick_skipped ≤ report.due)
    × (countb (is_active_of 1 "decay") (decay_job ∷ [])
        ≤ max 1 (countb (is_active_of 1 "decay") []))
run_due_schedules-jobs_example =
    run_due_schedules-jobs env request [] (decay_job ∷ []) rows moved report 1 "decay" tick_runs

run_due_schedules-advances_example :
    All (λ s. (s.schedule_id ≢ 1) ⊎ (200_000_000 < s.next_run_at)) moved
unfolding due_schedules
run_due_schedules-advances_example =
    run_due_schedules-advances env request [] (decay_job ∷ []) rows moved report late refl
      (refl, (refl, tt)) here tick_runs

run_due_schedules-value_example :
    (result : TickResult × List Job × List Schedule) × (run_due_schedules env request [] rows
      ≡ value result)
unfolding due_schedules is_supported missed_run_count
run_due_schedules-value_example =
    run_due_schedules-value env request [] rows (λ m n e. omega arith) (λ n. tt)
      ((refl, inr (omega arith, omega arith)), ((refl, inr (omega arith, omega arith)), tt))

next_run_after-missed_example :
    (r : ℕ) × (next_run_after 10 30_000_000 60 200_000_000 "coalesce" ≡ value r)
    × (r ≡ 30_000_000 + missed_run_count 30_000_000 60 200_000_000 * seconds 60)
    × (200_000_000 < r)
    × (r ≤ max 30_000_000 (200_000_000 + seconds 60))
unfolding is_supported missed_run_count
next_run_after-missed_example =
    next_run_after-missed 10 30_000_000 60 200_000_000 "coalesce" refl refl (omega arith)
      (omega arith)

next_run_after_diverges_example : next_run_after 50 30 0 200 "immediate" ≡ out_of_fuel
unfolding is_supported
next_run_after_diverges_example =
    next_run_after_diverges 50 30 200 "immediate" refl refl (omega arith)

abbrev upsert : UpsertRequest
upsert = record {
  workspace_key = "main";
  name = "repair";
  job_kind = "repair";
  interval_seconds = 120;
  next_run_at = 5;
  payload = none;
  enabled = false;
  misfire_policy = "coalesce";
}

abbrev main_workspace : List Workspace
main_workspace = record { id = 1; external_key = "main" } ∷ []

upsert_schedule-lookup_example :
    (is_supported upsert.misfire_policy ≡ false)
      × (upsert_schedule 9 8 upsert main_workspace rows ≡ value_error)
    ⊎ (is_supported upsert.misfire_policy ≡ true)
      × (2 ^ 31 ≤ 120)
      × (upsert_schedule 9 8 upsert main_workspace rows ≡ integer_out_of_range)
    ⊎ (is_supported upsert.misfire_policy ≡ true)
      × (120 < 2 ^ 31)
      × ((row : Schedule) × (created : Bool) × (ss' : List Schedule) × (upsert_schedule 9 8 upsert
              main_workspace rows
            ≡ value (row, created, (ensure_workspace 8 "main" main_workspace).1, ss'))
          × Stored
              (ensure_workspace 8 "main" main_workspace).0
              upsert
              rows
              1
              "scan"
              (row, created, ss'))
upsert_schedule-lookup_example =
    upsert_schedule-lookup 9 8 1 "scan" upsert main_workspace rows (inr (λ e. cc))

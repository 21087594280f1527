-- ===== src/Scheduler/Tick.antt =====
-- `run_due_schedules` of sidecar/autoskill/db/scheduler.py, with `_has_active_scheduled_job`,
-- `_enqueue_scheduled_job` and `_schedule_job_key`.
use Prim.Native.String.{◌++◌ as append_text}
use skill_kernel.Base.{
  ℕ, suc, ◌+◌, ◌-◌, pos, String, str_eq, Bool, true, false, not, ◌&&◌, List, [], ◌∷◌, ◌++◌, map,
  none, ◌==◌, leb, if◌then◌else◌, length, take, filterb, any,
}
use skill_kernel.Jobs.Types.{Job, JobStatus}
use skill_kernel.Jobs.Enqueue.{has_key}
use skill_kernel.Scheduler.Misfire.{
  Run, value, value_error, unique_violation, integer_out_of_range, out_of_fuel, missed_run_count,
  should_enqueue_misfire, next_run_after,
}

-- A row of `autoskill.schedules`.
pub record Schedule : Type 0 where
  pub schedule_id : ℕ
  pub workspace_id : ℕ
  pub name : String
  pub job_kind : String
  pub enabled : Bool
  pub interval_seconds : ℕ
  pub next_run_at : ℕ
  pub payload : String
  pub misfire_policy : String

-- What the tick takes from elsewhere: the text of a UUID and of an instant, the text that JSON
-- decoding and encoding make of a payload, and for each round the generated identifiers and the
-- reading of the clock in `_should_enqueue_misfire`.
pub record Environment : Type 0 where
  pub uuid_text : ℕ → String
  pub iso_text : ℕ → String
  pub normal_json : String → String
  pub fresh_job : ℕ → ℕ
  pub fresh_trace : ℕ → ℕ
  pub fresh_span : ℕ → ℕ
  pub clock : ℕ → ℕ

infixl 5 ◌>>=◌
abbrev pub ◌>>=◌ {ℓ κ} : {A : Type ℓ} {B : Type κ} → Run A → (A → Run B) → Run B
◌>>=◌ r k = elim r [
  | value a ↦ k a
  | value_error ↦ value_error
  | unique_violation ↦ unique_violation
  | integer_out_of_range ↦ integer_out_of_range
  | out_of_fuel ↦ out_of_fuel
]

-- `SELECT … WHERE enabled AND next_run_at <= now() ORDER BY next_run_at SKIP LOCKED LIMIT`
abbrev pub insert_by_time : Schedule → List Schedule → List Schedule
insert_by_time s [] = s ∷ []
insert_by_time s (t ∷ ts) =
    if leb s.next_run_at t.next_run_at then s ∷ t ∷ ts else t ∷ insert_by_time s ts

abbrev pub sort_by_time : List Schedule → List Schedule
sort_by_time [] = []
sort_by_time (s ∷ ss) = insert_by_time s (sort_by_time ss)

unfoldable pub due_schedules : ℕ → (ℕ → Bool) → ℕ → List Schedule → List Schedule
due_schedules now locked limit ss = take limit (
    sort_by_time
      (filterb (λ s. s.enabled && leb s.next_run_at now && not (locked s.schedule_id)) ss))

abbrev pub is_active : JobStatus → Bool
is_active JobStatus.queued = true
is_active JobStatus.leased = true
is_active _ = false

-- The rows that `_has_active_scheduled_job` looks for.
abbrev pub is_active_of : ℕ → String → Job → Bool
is_active_of ws kind j = (j.workspace_id == ws) && str_eq j.job_kind kind && is_active j.status

unfoldable pub has_active_scheduled_job : Schedule → List Job → Bool
has_active_scheduled_job s jobs = any (is_active_of s.workspace_id s.job_kind) jobs

-- What the loop carries.
pub record TickState : Type 0 where
  pub table : List Job
  pub schedules : List Schedule
  pub jobs : List Job
  pub skipped : ℕ
  pub misfires_coalesced : ℕ

-- `ON CONFLICT (workspace_id, idempotency_key) DO NOTHING`
unfoldable pub enqueue_scheduled_job : Job → TickState → Run TickState
enqueue_scheduled_job j st =
    if any (has_key j.workspace_id j.idempotency_key) st.table
    then value st
    else if any (λ k. k.job_id == j.job_id) st.table
    then unique_violation
    else value (record st { table = st.table ++ j ∷ []; jobs = st.jobs ++ j ∷ [] })

abbrev pub policy_of : Schedule → String
policy_of s = if str_eq s.misfire_policy "" then "coalesce" else s.misfire_policy

-- `UPDATE autoskill.schedules SET next_run_at = $2 WHERE schedule_id = $1`
abbrev pub reschedule : ℕ → ℕ → List Schedule → List Schedule
reschedule id at ss = map (λ s. if s.schedule_id == id then record s { next_run_at = at } else s) ss

-- The count of coalesced misfires and the new time of the schedule.
abbrev pub closed : ℕ → Schedule → TickState → ℕ → TickState
closed client_now s st at = record st {
  misfires_coalesced =
      st.misfires_coalesced + (missed_run_count s.next_run_at s.interval_seconds client_now - 1);
  schedules = reschedule s.schedule_id at st.schedules;
}

abbrev pub close_round : ℕ → ℕ → Schedule → TickState → Run TickState
close_round fuel client_now s st =
    next_run_after fuel s.next_run_at s.interval_seconds client_now (policy_of s) >>= λ at.
    value (closed client_now s st at)

module _ (env : Environment) where
  unfoldable pub schedule_job_key : Schedule → String
  schedule_job_key s =
      append_text "schedule:"
        (append_text (env.uuid_text s.schedule_id) (append_text ":" (env.iso_text s.next_run_at)))

  -- The row that the INSERT proposes, with the defaults of the table.
  unfoldable pub scheduled_job : ℕ → ℕ → Schedule → Job
  unfolding schedule_job_key
  scheduled_job now round s = record {
    job_id = env.fresh_job round;
    workspace_id = s.workspace_id;
    trace_id = env.fresh_trace round;
    span_id = env.fresh_span round;
    parent_span_id = none;
    job_kind = s.job_kind;
    status = JobStatus.queued;
    idempotency_key = schedule_job_key s;
    payload = env.normal_json s.payload;
    priority = pos 100;
    lease_owner = none;
    lease_expires_at = none;
    attempts = 0;
    max_attempts = 5;
    available_at = now;
    created_at = now;
    updated_at = now;
  }

  -- Whether a job is put in the queue for one due schedule.
  unfoldable pub dispatch : ℕ → ℕ → Schedule → Bool → TickState → Run TickState
  unfolding scheduled_job enqueue_scheduled_job has_active_scheduled_job
  dispatch now round s true st =
      if has_active_scheduled_job s st.table
      then value (record st { skipped = st.skipped + 1 })
      else enqueue_scheduled_job (scheduled_job now round s) st
  dispatch now round s false st = value (record st { skipped = st.skipped + 1 })

  -- The rest of a round, once it is known whether to enqueue.
  unfoldable pub rest_of_round : ℕ → ℕ → ℕ → ℕ → Schedule → TickState → Bool → Run TickState
  unfolding dispatch
  rest_of_round fuel now client_now round s st should =
      dispatch now round s should st >>= close_round fuel client_now s

  -- One round of the loop. `now` is the database's clock, `client_now` the sidecar's.
  unfoldable pub tick_one : ℕ → ℕ → ℕ → ℕ → Schedule → TickState → Run TickState
  unfolding rest_of_round
  tick_one fuel now client_now round s st =
      should_enqueue_misfire s.next_run_at (policy_of s)
        (missed_run_count s.next_run_at s.interval_seconds client_now) (env.clock round)
      >>= rest_of_round fuel now client_now round s st

  unfoldable pub tick_all : ℕ → ℕ → ℕ → ℕ → List Schedule → TickState → Run TickState
  unfolding tick_one
  tick_all fuel now client_now round [] st = value st
  tick_all fuel now client_now round (s ∷ ss) st =
      tick_one fuel now client_now round s st >>= tick_all fuel now client_now (suc round) ss

-- `SchedulerTickResult`
pub record TickResult : Type 0 where
  pub due : ℕ
  pub enqueued : ℕ
  pub tick_jobs : List Job
  pub tick_skipped : ℕ
  pub coalesced : ℕ
  pub lock_acquired : Bool

abbrev pub begin : List Job → List Schedule → TickState
begin table schedules = record {
  table = table;
  schedules = schedules;
  jobs = [];
  skipped = 0;
  misfires_coalesced = 0;
}

-- The arguments of a tick, with the rows that other transactions hold locked and the advisory lock.
pub record TickRequest : Type 0 where
  pub limit : ℕ
  pub now : ℕ
  pub client_now : ℕ
  pub locked : ℕ → Bool
  pub lock_free : Bool
  pub fuel : ℕ

unfoldable pub run_due_schedules :
    Environment
    → TickRequest
    → List Job
    → List Schedule
    → Run (TickResult × List Job × List Schedule)
unfolding due_schedules tick_all
run_due_schedules env r table schedules =
    if r.lock_free
    then (let chosen = due_schedules r.now r.locked r.limit schedules in
        tick_all env r.fuel r.now r.client_now 0 chosen (begin table schedules) >>= λ st. value (
          record {
            due = length chosen;
            enqueued = length st.jobs;
            tick_jobs = st.jobs;
            tick_skipped = st.skipped;
            coalesced = st.misfires_coalesced;
            lock_acquired = true;
          },
          st.table,
          st.schedules,
        ))
    else value (
      record {
        due = 0;
        enqueued = 0;
        tick_jobs = [];
        tick_skipped = 0;
        coalesced = 0;
        lock_acquired = false;
      },
      table,
      schedules,
    )

-- ===== src/Jobs/Tests.antt =====
-- Small tables, runs of the queue on them, and the theorems at them.
use skill_kernel.Base.{
  ℕ, ◌+◌, ◌≤◌, ◌<◌, pos, String, true, false, [], ◌∷◌, Option, none, some, ◌≡◌, ◌≢◌, refl, ◌⊎◌, inl,
  arith, In, here, there,
}
use skill_kernel.Jobs.Types.{
  Job, JobStatus, Workspace, Db, JobRecord, DbError, commit, abort, seconds,
}
use skill_kernel.Jobs.Enqueue.{
  Fresh, EnqueueRequest, EnqueueResult, enqueue_job, insert_job, ensure_workspace, new_job,
}
use skill_kernel.Jobs.Claim.{ClaimRequest, claim_next_job}
use skill_kernel.Jobs.Complete.{Outcome, holds, complete_job}
use skill_kernel.Jobs.Invariant.{IsValid}
use skill_kernel.Jobs.Steps.{start, next, claim, Reach-IsValid}
use skill_kernel.Jobs.Exclusive.{none_yet, step, claimed_id, lease_exclusive, Reach-settled}
use skill_kernel.Jobs.Claiming.{IsIdle, IsClaimed, claim_next_job_lem}
use skill_kernel.Jobs.Retry.{Becomes}
use skill_kernel.Jobs.Completion.{
  released, retry_delay, complete_job_succeeded, complete_job_failed, complete_job-ok,
}
use skill_kernel.Jobs.Idempotence.{enqueue_job-again}

abbrev workspace : Workspace
workspace = record { id = 1; external_key = "main" }

abbrev row : ℕ → String → JobStatus → Option String → Option ℕ → ℕ → ℕ → Job
row id key status owner expires attempts limit = record {
  job_id = id;
  workspace_id = 1;
  trace_id = 7;
  span_id = 8;
  parent_span_id = none;
  job_kind = "scan";
  status = status;
  idempotency_key = key;
  payload = "{}";
  priority = pos 100;
  lease_owner = owner;
  lease_expires_at = expires;
  attempts = attempts;
  max_attempts = limit;
  available_at = 10;
  created_at = 10;
  updated_at = 10;
}

-- A leased job, a queued one, one that has succeeded, and one in its 28th attempt of 40.
abbrev held_job : Job
held_job = row 3 "a" JobStatus.leased (some "w1") (some 500) 1 5

abbrev waiting_job : Job
waiting_job = row 4 "b" JobStatus.queued none none 0 5

abbrev done_job : Job
done_job = row 5 "c" JobStatus.succeeded none none 2 5

abbrev late_job : Job
late_job = row 6 "d" JobStatus.leased (some "w2") (some 900) 28 40

abbrev tables : Db
tables = record {
  workspaces = workspace ∷ [];
  jobs = held_job ∷ waiting_job ∷ done_job ∷ [];
  job_attempts = [];
}

abbrev late_tables : Db
late_tables = record tables { jobs = late_job ∷ [] }

tables-IsValid : IsValid tables
tables-IsValid = ground arith

late_tables-IsValid : IsValid late_tables
late_tables-IsValid = ground arith

abbrev by_w2 : ℕ → ClaimRequest
by_w2 now = record {
  worker_id = "w2";
  lease_seconds = 300;
  job_kinds = none;
  client_now = now;
  now = now;
  locked = λ id. false;
}

abbrev after_claim : Db
after_claim = (claim_next_job (by_w2 400) tables).1

Reach-IsValid_example : IsValid after_claim
Reach-IsValid_example =
    Reach-IsValid tables after_claim tables-IsValid (next start (claim (by_w2 400) refl))

lease_exclusive_example :
    In held_job after_claim.jobs
    × (claimed_id (claim_next_job (by_w2 450) after_claim).0 ≢ some held_job.job_id)
lease_exclusive_example =
    lease_exclusive held_job "w1" 500 tables after_claim (by_w2 450) tables-IsValid here refl refl
      refl (step none_yet (claim (by_w2 400) refl) (omega arith)) (omega arith)

Reach-settled_example : IsValid after_claim × In done_job after_claim.jobs
Reach-settled_example =
    Reach-settled done_job tables after_claim (inl refl) tables-IsValid (there (there here))
      (next start (claim (by_w2 400) refl))

claim_next_job_lem_example :
    IsIdle (by_w2 400) tables ⊎ ((c : Job) × IsClaimed (by_w2 400) tables c)
claim_next_job_lem_example = claim_next_job_lem (by_w2 400) tables

complete_job_succeeded_example :
    Becomes 450 3 "w1" Outcome.succeeded none tables (released 450 JobStatus.succeeded 10 held_job)
unfolding holds
complete_job_succeeded_example =
    complete_job_succeeded 450 3 "w1" none tables held_job tables-IsValid here refl

complete_job_failed_example :
    ((◌≡◌ {A = ℕ} 28 40)
      × Becomes 450 6 "w2" Outcome.failed none late_tables
          (released 450 JobStatus.failed 10 late_job))
    ⊎ ((28 < 40)
        × (28 ≤ 27)
        × Becomes 450 6 "w2" Outcome.failed none late_tables
            (released 450 JobStatus.queued (450 + seconds (retry_delay 28)) late_job))
    ⊎ ((28 < 40)
        × (28 ≤ 28)
        × (complete_job 450 6 "w2" Outcome.failed none late_tables
            ≡ abort DbError.integer_out_of_range))
unfolding holds
complete_job_failed_example =
    complete_job_failed 450 6 "w2" none late_tables late_job late_tables-IsValid here refl

complete_job-ok_example :
    (result : Option JobRecord × Db) × (complete_job 450 3 "w1" Outcome.failed none tables
      ≡ commit result)
complete_job-ok_example =
    complete_job-ok 450 3 "w1" Outcome.failed none tables tables-IsValid (omega arith)

abbrev ids : Fresh
ids = record { workspace = 2; job = 9; trace = 10; span = 11 }

abbrev request : EnqueueRequest
request = record {
  workspace_key = "main";
  job_kind = "scan";
  idempotency_key = "e";
  payload = none;
  trace_id = none;
  span_id = none;
  parent_span_id = none;
  priority = pos 1;
  max_attempts = 3;
  available_at = none;
}

abbrev new_row : Job
new_row = record {
  job_id = 9;
  workspace_id = 1;
  trace_id = 10;
  span_id = 11;
  parent_span_id = none;
  job_kind = "scan";
  status = JobStatus.queued;
  idempotency_key = "e";
  payload = "{}";
  priority = pos 1;
  lease_owner = none;
  lease_expires_at = none;
  attempts = 0;
  max_attempts = 3;
  available_at = 20;
  created_at = 20;
  updated_at = 20;
}

abbrev enqueued : EnqueueResult
enqueued = record { job = record { row = new_row; workspace_key = some "main" }; created = true }

abbrev after_enqueue : Db
after_enqueue = record tables { jobs = held_job ∷ waiting_job ∷ done_job ∷ new_row ∷ [] }

enqueue_runs : enqueue_job 20 ids request tables ≡ commit (enqueued, after_enqueue)
unfolding enqueue_job insert_job ensure_workspace new_job
enqueue_runs = refl

enqueue_job-again_example :
    enqueue_job 30 ids request after_enqueue
    ≡ commit (record { job = enqueued.job; created = false }, after_enqueue)
enqueue_job-again_example =
    enqueue_job-again 20 30 ids ids request request tables after_enqueue enqueued refl refl
      enqueue_runs

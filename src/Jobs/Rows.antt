-- ===== src/Jobs/Rows.antt =====
-- Which rows of `autoskill.jobs` are sound, and what each statement does to one row.
use skill_kernel.Base.{ℕ, ◌≤◌, ◌<◌, String, true, false, max, Option, none, some, ◌≡◌, ◌≢◌, arith}
use skill_kernel.Jobs.Types.{Job, JobStatus}
use skill_kernel.Jobs.Enqueue.{Fresh, EnqueueRequest, new_job, has_key}
use skill_kernel.Jobs.Claim.{requeue_expired, fail_expired, lease}
use skill_kernel.Jobs.Complete.{Outcome, holds, finish, extend}

-- The attempts that a job gets: a claim does not look at `max_attempts`, so there is always one.
abbrev pub granted : ℕ → ℕ
granted limit = max 1 limit

-- A queued row has attempts left, a leased one has an owner, an expiry and a started attempt, and a
-- failed one has used up its attempts. Only a leased row has an owner and an expiry.
abbrev pub StateIsValid : JobStatus → Option String → Option ℕ → ℕ → ℕ → Type 0
StateIsValid JobStatus.queued none none attempts limit = attempts < granted limit
StateIsValid JobStatus.leased (some w) (some t) attempts limit =
    (0 < attempts) × (attempts ≤ granted limit)
StateIsValid JobStatus.succeeded none none attempts limit =
    (0 < attempts) × (attempts ≤ granted limit)
StateIsValid JobStatus.failed none none attempts limit = attempts ≡ granted limit
StateIsValid _ _ _ _ _ = ⊥

abbrev pub JobIsValid : Job → Type 0
JobIsValid j = StateIsValid j.status j.lease_owner j.lease_expires_at j.attempts j.max_attempts

-- Two rows differ in their primary key and in the pair of the unique constraint.
abbrev pub Differ : Job → Job → Type 0
Differ a b = (a.job_id ≢ b.job_id) × (has_key b.workspace_id b.idempotency_key a ≡ false)

pub requeue_expired-JobIsValid :
    (now : ℕ) (j : Job) → JobIsValid j → JobIsValid (requeue_expired now j)
unfolding requeue_expired
requeue_expired-JobIsValid now j h = ground arith

pub fail_expired-JobIsValid : (now : ℕ) (j : Job) → JobIsValid j → JobIsValid (fail_expired now j)
unfolding fail_expired
fail_expired-JobIsValid now j h = ground arith

pub lease-JobIsValid :
    (now at : ℕ) (worker : String) (j : Job)
    → JobIsValid j
    → j.status ≡ JobStatus.queued
    → JobIsValid (lease now at worker j)
unfolding lease
lease-JobIsValid now at worker j h q = ground arith

pub finish-JobIsValid :
    (now id available : ℕ) (worker : String) (outcome : Outcome) (j : Job)
    → JobIsValid j
    → holds id worker j ≡ true
    → JobIsValid (finish now outcome available j)
unfolding holds finish
finish-JobIsValid now id available worker Outcome.succeeded j h k = ground arith
finish-JobIsValid now id available worker _ j h k = ground arith

pub extend-JobIsValid :
    (now id at : ℕ) (worker : String) (j : Job)
    → JobIsValid j
    → holds id worker j ≡ true
    → JobIsValid (extend now at j)
unfolding holds
extend-JobIsValid now id at worker j h k = ground arith

pub new_job-JobIsValid :
    (now : ℕ) (ids : Fresh) (ws : ℕ) (r : EnqueueRequest) → JobIsValid (new_job now ids ws r)
unfolding new_job
new_job-JobIsValid now ids ws r = omega arith

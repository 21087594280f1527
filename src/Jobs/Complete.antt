-- ===== src/Jobs/Complete.antt =====
-- `complete_job` and `renew_job_lease` of sidecar/autoskill/db/jobs.py.
use skill_kernel.Base.{
  ℕ, ◌+◌, ◌-◌, ◌*◌, ◌^◌, min, String, str_eq, Bool, true, false, not, ◌&&◌, map, Option, none, some,
  ◌==◌, ltb, leb, if◌then◌else◌, find?, is_some,
}
use skill_kernel.Jobs.Types.{
  Job, JobStatus, Attempt, Db, JobRecord, DbError, Tx, int4_max, commit, abort, ◌>>=◌, is_leased,
  seconds,
}
use skill_kernel.Jobs.Claim.{update_where, workspace_key_of}

-- `Literal["succeeded", "failed"]`
pub data Outcome : Type 0 where
  succeeded failed : Outcome

abbrev pub owned_by : String → Option String → Bool
owned_by worker none = false
owned_by worker (some w) = str_eq w worker

-- `job_id = $1 AND lease_owner = $2 AND status = 'leased'`
unfoldable pub holds : ℕ → String → Job → Bool
holds id worker j = (j.job_id == id) && owned_by worker j.lease_owner && is_leased j.status

-- `(30 * POWER(2, GREATEST(attempts - 1, 0)))::int`: the cast comes before LEAST. From about the 1020th
-- attempt on it is POWER that overflows; that error is not told apart from the one of the cast.
unfoldable pub backoff_cast : ℕ → Tx ℕ
backoff_cast attempts =
    if leb (30 * 2 ^ (attempts - 1)) int4_max
    then commit (30 * 2 ^ (attempts - 1))
    else abort DbError.integer_out_of_range

-- The new `available_at`.
unfoldable pub next_available : ℕ → Outcome → Job → Tx ℕ
unfolding backoff_cast
next_available now Outcome.succeeded j = commit j.available_at
next_available now Outcome.failed j = elim (ltb j.attempts j.max_attempts) [
  | true ↦ backoff_cast j.attempts >>= λ secs. commit (now + seconds (min 3600 secs))
  | false ↦ commit j.available_at
]

-- The new `status`.
unfoldable pub final_status : Outcome → Job → JobStatus
final_status Outcome.succeeded j = JobStatus.succeeded
final_status Outcome.failed j =
    if ltb j.attempts j.max_attempts then JobStatus.queued else JobStatus.failed

unfoldable pub finish : ℕ → Outcome → ℕ → Job → Job
unfolding final_status
finish now outcome available j = record j {
  status = final_status outcome j;
  lease_owner = none;
  lease_expires_at = none;
  available_at = available;
  updated_at = now;
}

abbrev pub attempt_status : Outcome → JobStatus
attempt_status Outcome.succeeded = JobStatus.succeeded
attempt_status Outcome.failed = JobStatus.failed

-- `job_id = $1 AND worker_id = $2 AND finished_at IS NULL`
abbrev pub is_open : ℕ → String → Attempt → Bool
is_open id worker a =
    (a.attempt_job == id) && str_eq a.worker_id worker && not (is_some a.finished_at)

-- The UPDATE of `autoskill.job_attempts`, on one row.
unfoldable pub close_attempt : ℕ → ℕ → String → Outcome → Option String → Attempt → Attempt
close_attempt now id worker outcome error a =
    if is_open id worker a
    then record a { finished_at = some now; attempt_status = attempt_status outcome; error = error }
    else a

unfoldable pub complete_job :
    ℕ → ℕ → String → Outcome → Option String → Db → Tx (Option JobRecord × Db)
unfolding holds next_available finish
complete_job now id worker outcome error db = elim (find? (holds id worker) db.jobs) [
  | none ↦ commit (none, db)
  | some j ↦ next_available now outcome j >>= λ available. commit (
    some (record {
      row = finish now outcome available j;
      workspace_key = workspace_key_of j.workspace_id db.workspaces;
    }),
    record db {
      jobs = update_where (holds id worker) (finish now outcome available) db.jobs;
      job_attempts = map (close_attempt now id worker outcome error) db.job_attempts;
    },
  )
]

-- `lease_expires_at >= now()`, which is not true of NULL.
abbrev pub unexpired : ℕ → Option ℕ → Bool
unexpired now none = false
unexpired now (some at) = leb now at

abbrev pub renewable : ℕ → ℕ → String → Job → Bool
renewable now id worker j = holds id worker j && unexpired now j.lease_expires_at

abbrev pub extend : ℕ → ℕ → Job → Job
extend now expires_at j = record j { lease_expires_at = some expires_at; updated_at = now }

-- The UPDATE sets `status` alone.
abbrev pub relabel_attempt : ℕ → String → Attempt → Attempt
relabel_attempt id worker a =
    if is_open id worker a then record a { attempt_status = JobStatus.leased } else a

unfoldable pub renew_job_lease : ℕ → ℕ → ℕ → String → ℕ → Db → Option JobRecord × Db
unfolding holds
renew_job_lease client_now now id worker lease_seconds db =
    elim (find? (renewable now id worker) db.jobs) [
      | none ↦ (none, db)
      | some j ↦
          let expires_at : ℕ = client_now + seconds lease_seconds in
          (
            some (record {
              row = extend now expires_at j;
              workspace_key = workspace_key_of j.workspace_id db.workspaces;
            }),
            record db {
              jobs = update_where (renewable now id worker) (extend now expires_at) db.jobs;
              job_attempts = map (relabel_attempt id worker) db.job_attempts;
            },
          )
    ]

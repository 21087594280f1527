-- ===== src/Jobs/Steps.antt =====
-- Histories of the job tables: any order of calls by any workers, each in its own transaction.
use skill_kernel.Base.{ℕ, String, Option, ◌≡◌, subst}
use skill_kernel.Jobs.Types.{Db, JobRecord, commit, OnCommit}
use skill_kernel.Jobs.Enqueue.{Fresh, EnqueueRequest, EnqueueResult, enqueue_job}
use skill_kernel.Jobs.Claim.{ClaimRequest, claim_next_job}
use skill_kernel.Jobs.Complete.{Outcome, complete_job, renew_job_lease}
use skill_kernel.Jobs.Invariant.{
  IsValid, enqueue_job-IsValid, claim_next_job-IsValid, complete_job-IsValid,
  renew_job_lease-IsValid,
}

-- A call that commits.
pub data Step (db : Db) : Db → Type 0 where
  enqueue :
      (now : ℕ) (ids : Fresh) (r : EnqueueRequest) (result : EnqueueResult) {db' : Db}
      → enqueue_job now ids r db ≡ commit (result, db')
      → Step db db'
  claim : (r : ClaimRequest) {db' : Db} → (claim_next_job r db).1 ≡ db' → Step db db'
  complete :
      (now id : ℕ) (worker : String) (outcome : Outcome) (error : Option String)
      (result : Option JobRecord) {db' : Db}
      → complete_job now id worker outcome error db ≡ commit (result, db')
      → Step db db'
  renew :
      (client_now now id : ℕ) (worker : String) (lease_seconds : ℕ) {db' : Db}
      → (renew_job_lease client_now now id worker lease_seconds db).1 ≡ db'
      → Step db db'

pub data Reach (db : Db) : Db → Type 0 where
  start : Reach db db
  next : {db' db'' : Db} → Reach db db' → Step db' db'' → Reach db db''

pub Step-IsValid : {db db' : Db} → Step db db' → IsValid db → IsValid db'
Step-IsValid {db} (enqueue now ids r result e) h =
    subst (OnCommit (λ r. IsValid r.1)) e (enqueue_job-IsValid now ids r db h)
Step-IsValid {db} (claim r e) h = subst IsValid e (claim_next_job-IsValid r db h)
Step-IsValid {db} (complete now id worker outcome error result e) h =
    subst (OnCommit (λ r. IsValid r.1)) e (complete_job-IsValid now id worker outcome error db h)
Step-IsValid {db} (renew client_now now id worker lease_seconds e) h =
    subst IsValid e (renew_job_lease-IsValid client_now now id worker lease_seconds db h)

-- Every history keeps the job tables well formed: with max_attempts counted as one where
-- it is zero, a queued job has attempts left, a leased one has an owner, an expiry and between one and
-- max_attempts attempts, a succeeded one between one and max_attempts, a failed one exactly
-- max_attempts; only leased jobs have an owner or an expiry; and no two jobs share an identifier, or a
-- workspace and an idempotency key.
pub Reach-IsValid : (db db' : Db) → IsValid db → Reach db db' → IsValid db'
Reach-IsValid db db' h start = h
Reach-IsValid db db' h (next {db' = mid} r s) = Step-IsValid s (Reach-IsValid db mid h r)

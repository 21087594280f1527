-- ===== src/Jobs/Exclusive.antt =====
-- A lease is exclusive while it lasts, and a settled job stays settled.
use skill_kernel.Base.{
  ℕ, ◌≤◌, String, str_eq_iff, false, Option, none, some, refl, ◌≡◌, ◌≢◌, ◌⊎◌, inl, inr, arith, In,
  subst,
}
use skill_kernel.Jobs.Types.{Job, JobStatus, Db, JobRecord, OnCommit}
use skill_kernel.Jobs.Claim.{ClaimRequest, claim_next_job}
use skill_kernel.Jobs.Complete.{holds}
use skill_kernel.Jobs.Invariant.{IsValid}
use skill_kernel.Jobs.Steps.{
  Step, enqueue, claim, complete, renew, Reach, start, next, Step-IsValid,
}
use skill_kernel.Jobs.Leases.{NotExpired, claim_keeps, enqueue_keeps, complete_keeps, renew_keeps}

-- The step has no reason to touch the row.
abbrev pub Spares : {db db' : Db} → Job → Step db db' → Type 0
Spares j (enqueue now ids r result e) = Unit
Spares j (claim r e) = NotExpired r.now j.status j.lease_expires_at
Spares j (complete now id worker outcome error result e) = holds id worker j ≡ false
Spares j (renew client_now now id worker lease_seconds e) = holds id worker j ≡ false

pub Step-keeps :
    (j : Job) {db db' : Db} (s : Step db db')
    → IsValid db
    → In j db.jobs
    → j.status ≢ JobStatus.queued
    → Spares j s
    → In j db'.jobs
Step-keeps j {db} (enqueue now ids r result e) h m busy spared =
    subst (OnCommit (λ a. In j a.1.jobs)) e (enqueue_keeps now ids r db j m)
Step-keeps j {db} (claim r e) h m busy spared =
    subst (λ d. In j d.jobs) e (claim_keeps r db j h m busy spared).0
Step-keeps j {db} (complete now id worker outcome error result e) h m busy spared =
    subst (OnCommit (λ a. In j a.1.jobs)) e
      (complete_keeps now id worker outcome error db j m spared)
Step-keeps j {db} (renew client_now now id worker lease_seconds e) h m busy spared =
    subst (λ d. In j d.jobs) e (renew_keeps client_now now id worker lease_seconds db j m spared)

-- The step is no completion or renewal of job `id` by `owner`, and if it is a claim, the database's
-- clock shows at most `until`.
abbrev pub IsOther : {db db' : Db} → ℕ → String → ℕ → Step db db' → Type 0
IsOther id owner until (enqueue now ids r result e) = Unit
IsOther id owner until (claim r e) = r.now ≤ until
IsOther id owner until (complete now id' worker outcome error result e) =
    (id' ≢ id) ⊎ (worker ≢ owner)
IsOther id owner until (renew client_now now id' worker lease_seconds e) =
    (id' ≢ id) ⊎ (worker ≢ owner)

-- Any number of such steps.
pub data Meanwhile (id : ℕ) (owner : String) (until : ℕ) (db : Db) : Db → Type 0 where
  none_yet : Meanwhile id owner until db db
  step :
      {db' db'' : Db}
      → Meanwhile id owner until db db'
      → (s : Step db' db'') → IsOther id owner until s
      → Meanwhile id owner until db db''

module _ (j : Job) (owner : String) (until : ℕ) (leased : j.status ≡ JobStatus.leased)
    (owned : j.lease_owner ≡ some owner) (dated : j.lease_expires_at ≡ some until) where
  not_held :
      (id : ℕ) (worker : String) → (id ≢ j.job_id) ⊎ (worker ≢ owner) → holds id worker j ≡ false
  unfolding holds
  not_held id worker (inl ne) = ground arith
  not_held id worker (inr ne) = ground (arith, str_eq_iff owner worker)

  IsOther-Spares : {db db' : Db} (s : Step db db') → IsOther j.job_id owner until s → Spares j s
  IsOther-Spares (enqueue now ids r result e) h = tt
  IsOther-Spares (claim r e) h = rw (leased, dated) h
  IsOther-Spares (complete now id worker outcome error result e) h = not_held id worker h
  IsOther-Spares (renew client_now now id worker lease_seconds e) h = not_held id worker h

  Meanwhile-IsValid :
      {db db' : Db} → IsValid db → Meanwhile j.job_id owner until db db' → IsValid db'
  Meanwhile-IsValid h none_yet = h
  Meanwhile-IsValid h (step r s other) = Step-IsValid s (Meanwhile-IsValid h r)

  Meanwhile-keeps :
      {db db' : Db}
      → IsValid db
      → In j db.jobs
      → Meanwhile j.job_id owner until db db'
      → In j db'.jobs
  Meanwhile-keeps h m none_yet = m
  Meanwhile-keeps h m (step r s other) =
      Step-keeps j s (Meanwhile-IsValid h r) (Meanwhile-keeps h m r) (λ q. cc (leased, q))
        (IsOther-Spares s other)

-- The identifier of the job that a claim hands out.
abbrev pub claimed_id : Option JobRecord → Option ℕ
claimed_id none = none
claimed_id (some result) = some result.row.job_id

claimed_id-ne :
    (o : Option JobRecord) (id : ℕ)
    → ((result : JobRecord) → o ≡ some result → result.row.job_id ≢ id)
    → claimed_id o ≢ some id
claimed_id-ne none id h e = cc
claimed_id-ne (some result) id h e = h result refl (cc)

-- Take well-formed tables with a job that is leased to `owner` until `until`, and any sequence of
-- committed calls in which no claim runs when the database's clock is past `until` and `owner`
-- neither completes nor renews that job. Then its row is still the same, and a claim at a time up to
-- `until` does not hand the job to anyone.
pub lease_exclusive :
    (j : Job) (owner : String) (until : ℕ) (db db' : Db) (r : ClaimRequest)
    → IsValid db
    → In j db.jobs
    → j.status ≡ JobStatus.leased
    → j.lease_owner ≡ some owner
    → j.lease_expires_at ≡ some until
    → Meanwhile j.job_id owner until db db'
    → r.now ≤ until
    → In j db'.jobs × (claimed_id (claim_next_job r db').0 ≢ some j.job_id)
lease_exclusive j owner until db db' r h m leased owned dated between early =
    let kept = Meanwhile-keeps j owner until leased owned dated h m between in
    let valid = Meanwhile-IsValid j owner until leased owned dated h between in
    (
      kept,
      claimed_id-ne (claim_next_job r db').0 j.job_id
          (claim_keeps r db' j valid kept (λ q. cc (leased, q)) (rw (leased, dated) early)).1,
    )

abbrev pub IsSettled : JobStatus → Type 0
IsSettled s = (s ≡ JobStatus.succeeded) ⊎ (s ≡ JobStatus.failed)

module _ (j : Job) (settled : IsSettled j.status) where
  IsSettled-Spares : {db db' : Db} (s : Step db db') → Spares j s
  unfolding holds
  IsSettled-Spares (enqueue now ids r result e) = tt
  IsSettled-Spares (claim r e) = ground arith
  IsSettled-Spares (complete now id worker outcome error result e) = ground arith
  IsSettled-Spares (renew client_now now id worker lease_seconds e) = ground arith

  not_queued : j.status ≢ JobStatus.queued
  not_queued = ground arith

-- A job that has succeeded or failed keeps its row unchanged through every later history.
pub Reach-settled :
    (j : Job) (db db' : Db)
    → IsSettled j.status
    → IsValid db
    → In j db.jobs
    → Reach db db'
    → IsValid db' × In j db'.jobs
Reach-settled j db db' settled h m start = (h, m)
Reach-settled j db db' settled h m (next {db' = mid} r s) =
    let (valid, kept) = Reach-settled j db mid settled h m r in
    (
      Step-IsValid s valid,
      Step-keeps j s valid kept (not_queued j settled) (IsSettled-Spares j settled s),
    )

-- ===== src/Jobs/Completion.antt =====
-- What `complete_job` does for the holder of a lease, on every branch.
use native.Mathlib.Decide.{dec_lt}
use skill_kernel.Base.{
  ℕ, ◌+◌, ◌-◌, ◌*◌, ◌^◌, ◌≤◌, ◌<◌, min, String, true, Option, none, ◌≡◌, refl, ◌⊎◌, inl, inr, arith,
  All, In, All-In, subst, some, find?, find?-In,
}
use skill_kernel.Jobs.Types.{Job, JobStatus, Db, JobRecord, DbError, commit, abort, seconds}
use skill_kernel.Jobs.Complete.{Outcome, holds, next_available, finish, complete_job}
use skill_kernel.Jobs.Rows.{granted, JobIsValid}
use skill_kernel.Jobs.Invariant.{IsValid}
use skill_kernel.Jobs.Retry.{
  backoff_cast_fits, backoff_cast_overflows, find?-holds, Becomes, becomes,
}

-- The row given back with another status and time of availability.
abbrev pub released : ℕ → JobStatus → ℕ → Job → Job
released now status available j = record j {
  status = status;
  lease_owner = none;
  lease_expires_at = none;
  available_at = available;
  updated_at = now;
}

-- The delay before the next attempt: 30 seconds, doubled with each attempt, an hour at most.
abbrev pub retry_delay : ℕ → ℕ
retry_delay attempts = min 3600 (30 * 2 ^ (attempts - 1))

module _ (now id : ℕ) (worker : String) (error : Option String) (db : Db) (j : Job) (h : IsValid db)
    (m : In j db.jobs) (held : holds id worker j ≡ true) where
  within : (0 < j.attempts) × (j.attempts ≤ granted j.max_attempts)
  unfolding holds
  within = let v = All-In JobIsValid m h.0 in ground arith

  exhausted :
      j.max_attempts ≤ j.attempts
      → Becomes now id worker Outcome.failed error db
          (released now JobStatus.failed j.available_at j)
  unfolding next_available finish
  exhausted full =
      subst (Becomes now id worker Outcome.failed error db) (ground arith)
        (becomes now id j.available_at worker Outcome.failed error db j h m held (ground arith))

  retried :
      j.attempts < j.max_attempts
      → j.attempts ≤ 27
      → Becomes now id worker Outcome.failed error db
          (released now JobStatus.queued (now + seconds (retry_delay j.attempts)) j)
  unfolding next_available finish
  retried left small = subst (Becomes now id worker Outcome.failed error db) (ground arith) (
      becomes now id (now + seconds (retry_delay j.attempts)) worker Outcome.failed error db j h m
        held (ground (arith, backoff_cast_fits j.attempts small)))

  overflown :
      j.attempts < j.max_attempts
      → 28 ≤ j.attempts
      → complete_job now id worker Outcome.failed error db ≡ abort DbError.integer_out_of_range
  unfolding complete_job
  overflown left large =
      let found = find?-holds id worker db j h m held in
      let raises : next_available now Outcome.failed j ≡ abort DbError.integer_out_of_range =
        ground (arith, backoff_cast_overflows j.attempts large) in
      rw (found, complete_job) (rw (raises, complete_job))

-- In well-formed tables, a worker that holds a job and reports success turns its row into a succeeded
-- one, with the same time of availability and no lease.
pub complete_job_succeeded :
    (now id : ℕ) (worker : String) (error : Option String) (db : Db) (j : Job)
    → IsValid db
    → In j db.jobs
    → holds id worker j ≡ true
    → Becomes now id worker Outcome.succeeded error db
        (released now JobStatus.succeeded j.available_at j)
unfolding next_available finish
complete_job_succeeded now id worker error db j h m held =
    becomes now id j.available_at worker Outcome.succeeded error db j h m held refl

-- In well-formed tables, a worker that holds a job and reports failure either fails it for good,
-- when its attempts are used up (there is always one); or queues it again, 30 * 2 ^ (attempts - 1) seconds or an hour from
-- now, whichever is less; or, from the 28th attempt on and with attempts left, gets the error
-- "integer out of range", so that the job stays leased.
pub complete_job_failed :
    (now id : ℕ) (worker : String) (error : Option String) (db : Db) (j : Job)
    → IsValid db
    → In j db.jobs
    → holds id worker j ≡ true
    → ((j.attempts ≡ granted j.max_attempts)
        × Becomes now id worker Outcome.failed error db
            (released now JobStatus.failed j.available_at j))
      ⊎ ((j.attempts < j.max_attempts)
          × (j.attempts ≤ 27)
          × Becomes now id worker Outcome.failed error db
              (released now JobStatus.queued (now + seconds (retry_delay j.attempts)) j))
      ⊎ ((j.attempts < j.max_attempts)
          × (28 ≤ j.attempts)
          × (complete_job now id worker Outcome.failed error db
              ≡ abort DbError.integer_out_of_range))
complete_job_failed now id worker error db j h m held =
    let (started, le) = within now id worker error db j h m held in
    elim (dec_lt j.attempts j.max_attempts) [
      | no full ↦ inl (omega arith, exhausted now id worker error db j h m held (omega arith))
      | yes left ↦ elim (dec_lt j.attempts 28) [
        | yes small ↦
            inr (
              inl (left, omega arith, retried now id worker error db j h m held left (omega arith)))
        | no large ↦ inr (
            inr (left, omega arith, overflown now id worker error db j h m held left (omega arith)))
      ]
    ]

next_available-ok :
    (now id : ℕ) (worker : String) (outcome : Outcome) (j : Job)
    → JobIsValid j
    → holds id worker j ≡ true
    → j.max_attempts ≤ 28
    → (at : ℕ) × (next_available now outcome j ≡ commit at)
unfolding next_available
next_available-ok now id worker Outcome.succeeded j v t small = (j.available_at, refl)
next_available-ok now id worker Outcome.failed j v t small =
    elim (dec_lt j.attempts j.max_attempts) [
      | yes left ↦ (
        now + seconds (retry_delay j.attempts),
        ground (arith, backoff_cast_fits j.attempts (omega arith)),
      )
      | no full ↦ (j.available_at, ground arith)
    ]

-- In well-formed tables where no job may be attempted more than 28 times, no completion raises an
-- error, whoever calls it with whatever outcome.
pub complete_job-ok :
    (now id : ℕ) (worker : String) (outcome : Outcome) (error : Option String) (db : Db)
    → IsValid db
    → All (λ j. j.max_attempts ≤ 28) db.jobs
    → (result : Option JobRecord × Db) × (complete_job now id worker outcome error db
        ≡ commit result)
unfolding complete_job
complete_job-ok now id worker outcome error db h small = go (find? (holds id worker) db.jobs) refl
  where
    go :
        (o : Option Job)
        → find? (holds id worker) db.jobs ≡ o
        → (result : Option JobRecord × Db) × (complete_job now id worker outcome error db
            ≡ commit result)
    go none e = ((none, db), rw (e, complete_job))
    go (some j) e =
        let (m, t) = find?-In (holds id worker) db.jobs j e in
        let (at, fits) =
          next_available-ok now id worker outcome j (All-In JobIsValid m h.0) t
            (All-In (λ k. k.max_attempts ≤ 28) m small) in
        let (key, db', committed, _) = becomes now id at worker outcome error db j h m t fits in
        ((some (record { row = finish now outcome at j; workspace_key = key }), db'), committed)

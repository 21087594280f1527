-- ===== src/Jobs/Invariant.antt =====
-- The invariant of the job tables, and that every operation keeps it.
use skill_kernel.Base.{
  ℕ, String, Bool, true, false, List, [], ◌∷◌, Option, none, some, ◌≡◌, refl, ◌≢◌, arith, ◌==◌, ◌+◌,
  any, find?, All, All-In, All-append, Apart-snoc, find?-eq-none, Bool-cases, inl, inr,
}
use skill_kernel.Jobs.Types.{Job, JobStatus, Db, OnCommit, OnCommit->>=, OnCommit-after, seconds}
use skill_kernel.Jobs.Enqueue.{
  Fresh, EnqueueRequest, ensure_workspace, new_job, insert_job, enqueue_job, has_key, has_int4,
}
use skill_kernel.Jobs.Claim.{
  requeue_expired, fail_expired, recover_expired_leases, claimable, select_candidate, lease,
  update_where, ClaimRequest, claim_from, claim_next_job,
}
use skill_kernel.Jobs.Complete.{
  Outcome, holds, finish, extend, renewable, next_available, complete_job, renew_job_lease,
}
use skill_kernel.Jobs.Select.{select_candidate-IsFirst}
use skill_kernel.Jobs.Rows.{
  JobIsValid, Differ, requeue_expired-JobIsValid, fail_expired-JobIsValid, lease-JobIsValid,
  finish-JobIsValid, extend-JobIsValid, new_job-JobIsValid,
}
use skill_kernel.Jobs.Updates.{
  RowsAreValid, KeepsKeys, map-RowsAreValid, update_row-RowsAreValid, update_where-RowsAreValid,
}

-- Every row is sound, and no two rows share a key.
abbrev pub IsValid : Db → Type 0
IsValid db = RowsAreValid db.jobs

requeue_expired-KeepsKeys : (now : ℕ) → KeepsKeys (requeue_expired now)
unfolding requeue_expired
requeue_expired-KeepsKeys now j = ground arith

fail_expired-KeepsKeys : (now : ℕ) → KeepsKeys (fail_expired now)
unfolding fail_expired
fail_expired-KeepsKeys now j = ground arith

pub recover-RowsAreValid :
    (now : ℕ) (jobs : List Job) → RowsAreValid jobs → RowsAreValid (recover_expired_leases now jobs)
unfolding recover_expired_leases
recover-RowsAreValid now jobs h =
    map-RowsAreValid (fail_expired now) (fail_expired-KeepsKeys now) (fail_expired-JobIsValid now) _
      (map-RowsAreValid (requeue_expired now) (requeue_expired-KeepsKeys now)
        (requeue_expired-JobIsValid now) jobs h)

lease-KeepsKeys : (now at : ℕ) (worker : String) → KeepsKeys (lease now at worker)
unfolding lease
lease-KeepsKeys now at worker j = (refl, refl, refl)

finish-KeepsKeys : (now : ℕ) (outcome : Outcome) (at : ℕ) → KeepsKeys (finish now outcome at)
unfolding finish
finish-KeepsKeys now outcome at j = (refl, refl, refl)

claimable-queued :
    (now : ℕ) (kinds : Option (List String)) (locked : ℕ → Bool) (j : Job)
    → claimable now kinds locked j ≡ true
    → j.status ≡ JobStatus.queued
unfolding claimable
claimable-queued now kinds locked j h = ground arith

claim_from-IsValid :
    (r : ClaimRequest) (jobs : List Job) (db : Db)
    → RowsAreValid jobs
    → RowsAreValid (claim_from r jobs db).1.jobs
unfolding claim_from
claim_from-IsValid r jobs db h = go (select_candidate test jobs) refl
  where
    test : Job → Bool
    test = claimable r.now r.job_kinds r.locked

    at : ℕ
    at = r.client_now + seconds r.lease_seconds

    go :
        (o : Option Job)
        → select_candidate test jobs ≡ o
        → RowsAreValid (claim_from r jobs db).1.jobs
    go none e = rw (e, claim_from) h
    go (some c) e =
        let (m, passes, _) = select_candidate-IsFirst test jobs c e in
        let queued = claimable-queued r.now r.job_kinds r.locked c passes in
        let sound = lease-JobIsValid r.now at r.worker_id c (All-In JobIsValid m h.0) queued in
        rw (e, claim_from)
          (update_row-RowsAreValid c (lease r.now at r.worker_id) jobs
            (lease-KeepsKeys r.now at r.worker_id) m sound h)

pub claim_next_job-IsValid :
    (r : ClaimRequest) (db : Db) → IsValid db → IsValid (claim_next_job r db).1
unfolding claim_next_job
claim_next_job-IsValid r db h =
    claim_from-IsValid r (recover_expired_leases r.now db.jobs) db
      (recover-RowsAreValid r.now db.jobs h)

-- A completion that raises an error leaves the tables to the rollback.
pub complete_job-IsValid :
    (now id : ℕ) (worker : String) (outcome : Outcome) (error : Option String) (db : Db)
    → IsValid db
    → OnCommit (λ r. IsValid r.1) (complete_job now id worker outcome error db)
unfolding complete_job
complete_job-IsValid now id worker outcome error db h = go (find? (holds id worker) db.jobs) refl
  where
    done :
        (available : ℕ)
        → RowsAreValid (update_where (holds id worker) (finish now outcome available) db.jobs)
    done available =
        update_where-RowsAreValid (holds id worker) (finish now outcome available) db.jobs
          (finish-KeepsKeys now outcome available)
          (λ j v t. finish-JobIsValid now id available worker outcome j v t) h

    go :
        (o : Option Job)
        → find? (holds id worker) db.jobs ≡ o
        → OnCommit (λ r. IsValid r.1) (complete_job now id worker outcome error db)
    go none f = rw (f, complete_job) h
    go (some j) f =
        rw (f, complete_job)
          (OnCommit->>= (λ r. IsValid r.1) (next_available now outcome j) _
            (λ available. done available))

pub renew_job_lease-IsValid :
    (client_now now id : ℕ) (worker : String) (lease_seconds : ℕ) (db : Db)
    → IsValid db
    → IsValid (renew_job_lease client_now now id worker lease_seconds db).1
unfolding renew_job_lease
renew_job_lease-IsValid client_now now id worker lease_seconds db h =
    go (find? (renewable now id worker) db.jobs) refl
  where
    at : ℕ
    at = client_now + seconds lease_seconds

    renewable-holds : (j : Job) → renewable now id worker j ≡ true → holds id worker j ≡ true
    renewable-holds j t = ground arith

    go :
        (o : Option Job)
        → find? (renewable now id worker) db.jobs ≡ o
        → IsValid (renew_job_lease client_now now id worker lease_seconds db).1
    go none e = rw (e, renew_job_lease) h
    go (some j) e =
        rw (e, renew_job_lease)
          (update_where-RowsAreValid (renewable now id worker) (extend now at) db.jobs
            (λ k. (refl, refl, refl))
            (λ k v t. extend-JobIsValid now id at worker k v (renewable-holds k t)) h)

unused :
    (ws id : ℕ) (key : String) (jobs : List Job)
    → any (λ k. k.job_id == id) jobs ≡ false
    → All (λ k. has_key ws key k ≡ false) jobs
    → All (λ k. (k.job_id ≢ id) × (has_key ws key k ≡ false)) jobs
unused ws id key [] u h = tt
unused ws id key (k ∷ ks) u h = ((ground arith, h.0), unused ws id key ks (ground arith) h.1)

insert_job-RowsAreValid :
    (j : Job) (jobs : List Job)
    → JobIsValid j
    → RowsAreValid jobs
    → OnCommit (λ a. RowsAreValid a.2) (insert_job j jobs)
unfolding insert_job
insert_job-RowsAreValid j jobs new h = elim (Bool-cases (has_int4 j)) [
  | inl fits ↦ go (find? same jobs) (any (λ k. k.job_id == j.job_id) jobs) fits refl refl
  | inr large ↦ rw (large, insert_job) tt
]
  where
    same : Job → Bool
    same = has_key j.workspace_id j.idempotency_key

    go :
        (o : Option Job) (used : Bool)
        → has_int4 j ≡ true
        → find? same jobs ≡ o
        → any (λ k. k.job_id == j.job_id) jobs ≡ used
        → OnCommit (λ a. RowsAreValid a.2) (insert_job j jobs)
    go (some old) used t e u = rw (t, e, insert_job) h
    go none true t e u = rw (t, e, u, insert_job) tt
    go none false t e u =
        rw (t, e, u, insert_job)
          (
            All-append JobIsValid jobs (j ∷ []) h.0 (new, tt),
            Apart-snoc Differ j jobs
                (unused j.workspace_id j.job_id j.idempotency_key jobs u
                  (find?-eq-none same jobs e))
                h.1,
          )

pub enqueue_job-IsValid :
    (now : ℕ) (ids : Fresh) (r : EnqueueRequest) (db : Db)
    → IsValid db
    → OnCommit (λ r. IsValid r.1) (enqueue_job now ids r db)
unfolding enqueue_job
enqueue_job-IsValid now ids r db h =
    OnCommit-after (λ r. IsValid r.1) (λ a. RowsAreValid a.2) (insert_job job db.jobs) _
      (insert_job-RowsAreValid job db.jobs (new_job-JobIsValid now ids ws r) h) (λ a v. v)
  where
    ws : ℕ
    ws = (ensure_workspace ids.workspace r.workspace_key db.workspaces).0

    job : Job
    job = new_job now ids ws r

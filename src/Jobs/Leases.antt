-- ===== src/Jobs/Leases.antt =====
-- Rows that an operation leaves alone.
use skill_kernel.Base.{
  ℕ, ◌≤◌, String, Bool, true, false, List, [], ◌∷◌, ◌++◌, map, Option, none, some, ◌≡◌, ◌≢◌, refl,
  sym, arith, ◌==◌, if◌then◌else◌, find?, any, In, here, there, Apart, All-In, ap, ◌∙◌, ◌+◌, subst,
  ==_ne, Bool-cases, inl, inr,
}
use skill_kernel.Jobs.Types.{
  Job, JobStatus, Db, JobRecord, OnCommit, OnCommit->>=, OnCommit-after, seconds,
}
use skill_kernel.Jobs.Enqueue.{
  Fresh, EnqueueRequest, ensure_workspace, new_job, insert_job, enqueue_job, has_key, has_int4,
}
use skill_kernel.Jobs.Claim.{
  requeue_expired, fail_expired, recover_expired_leases, claimable, select_candidate, lease,
  update_where, ClaimRequest, claim_from, claim_next_job,
}
use skill_kernel.Jobs.Complete.{
  Outcome, holds, finish, renewable, next_available, complete_job, renew_job_lease, extend,
}
use skill_kernel.Jobs.Select.{select_candidate-IsFirst}
use skill_kernel.Jobs.Rows.{Differ}
use skill_kernel.Jobs.Invariant.{IsValid, recover-RowsAreValid}

In-map {ℓ} : {A : Type ℓ} (f : A → A) (a : A) {xs : List A} → f a ≡ a → In a xs → In a (map f xs)
In-map f a {xs = []} e m = elim m [ ]
In-map f a {xs = x ∷ xs} e here = subst (λ b. In b (f a ∷ map f xs)) e here
In-map f a {xs = x ∷ xs} e (there m) = there (In-map f a e m)

In-append {ℓ} : {A : Type ℓ} {a : A} {xs : List A} (ys : List A) → In a xs → In a (xs ++ ys)
In-append ys here = here
In-append ys (there m) = there (In-append ys m)

-- Two rows with one primary key are one row.
pub In-job_id :
    {a b : Job} (jobs : List Job)
    → Apart Differ jobs
    → In a jobs
    → In b jobs
    → a.job_id ≡ b.job_id
    → a ≡ b
In-job_id [] apart m n e = elim m [ ]
In-job_id (j ∷ js) apart here here e = refl
In-job_id (j ∷ js) apart here (there n) e = absurd ((All-In (Differ j) n apart.0).0 e)
In-job_id (j ∷ js) apart (there m) here e = absurd ((All-In (Differ j) m apart.0).0 (sym e))
In-job_id (j ∷ js) apart (there m) (there n) e = In-job_id js apart.1 m n e

-- A row that an UPDATE does not select stays.
In-update_where :
    (p : Job → Bool) (f : Job → Job) {j : Job} {jobs : List Job}
    → p j ≡ false
    → In j jobs
    → In j (update_where p f jobs)
In-update_where p f {j} e m = In-map (λ k. if p k then f k else k) j (rw e) m

-- No lease expired: either the row is not leased, or its lease lasts.
abbrev pub NotExpired : ℕ → JobStatus → Option ℕ → Type 0
NotExpired now JobStatus.leased (some at) = now ≤ at
NotExpired now _ _ = Unit

pub recover_keeps :
    (now : ℕ) (j : Job) (jobs : List Job)
    → NotExpired now j.status j.lease_expires_at
    → In j jobs
    → In j (recover_expired_leases now jobs)
unfolding recover_expired_leases requeue_expired fail_expired
recover_keeps now j jobs h m =
    In-map (fail_expired now) j (ground arith) (In-map (requeue_expired now) j (ground arith) m)

claimable-queued' :
    (now : ℕ) (kinds : Option (List String)) (locked : ℕ → Bool) (j : Job)
    → claimable now kinds locked j ≡ true
    → j.status ≡ JobStatus.queued
unfolding claimable
claimable-queued' now kinds locked j h = ground arith

module _ (r : ClaimRequest) (jobs : List Job) (db : Db) (j : Job) (apart : Apart Differ jobs)
    (m : In j jobs) (busy : j.status ≢ JobStatus.queued) where
  abbrev test : Job → Bool
  test = claimable r.now r.job_kinds r.locked

  candidate_other : (c : Job) → select_candidate test jobs ≡ some c → j.job_id ≢ c.job_id
  candidate_other c e same =
      let (n, passes, _) = select_candidate-IsFirst test jobs c e in
      let queued = claimable-queued' r.now r.job_kinds r.locked c passes in
      let eq : j ≡ c = In-job_id jobs apart m n same in busy (ap (λ k. k.status) eq ∙ queued)

  -- A claim takes another row than one that is not queued, and leaves that one as it is.
  pub claim_from_keeps :
      In j (claim_from r jobs db).1.jobs
      × ((result : JobRecord)
          → (claim_from r jobs db).0 ≡ some result
          → result.row.job_id ≢ j.job_id)
  unfolding claim_from
  claim_from_keeps = go (select_candidate test jobs) refl
    where
      go :
          (o : Option Job)
          → select_candidate test jobs ≡ o
          → In j (claim_from r jobs db).1.jobs
            × ((result : JobRecord)
                → (claim_from r jobs db).0 ≡ some result
                → result.row.job_id ≢ j.job_id)
      go none e = rw (e, claim_from) (m, λ result none_is. cc)
      go (some c) e =
          rw (e, claim_from)
            (
              In-update_where (λ k. k.job_id == c.job_id)
                  (lease r.now (r.client_now + seconds r.lease_seconds) r.worker_id)
                  (==_ne j.job_id c.job_id (candidate_other c e)) m,
              λ result some_is same. candidate_other c e (ground arith),
            )

insert_job_keeps :
    (new : Job) (jobs : List Job) (j : Job)
    → In j jobs
    → OnCommit (λ a. In j a.2) (insert_job new jobs)
unfolding insert_job
insert_job_keeps new jobs j m = elim (Bool-cases (has_int4 new)) [
  | inl fits ↦ go (find? same jobs) (any (λ k. k.job_id == new.job_id) jobs) fits refl refl
  | inr large ↦ rw (large, insert_job) tt
]
  where
    same : Job → Bool
    same = has_key new.workspace_id new.idempotency_key

    go :
        (o : Option Job) (used : Bool)
        → has_int4 new ≡ true
        → find? same jobs ≡ o
        → any (λ k. k.job_id == new.job_id) jobs ≡ used
        → OnCommit (λ a. In j a.2) (insert_job new jobs)
    go (some old) used t e u = rw (t, e, insert_job) m
    go none true t e u = rw (t, e, u, insert_job) tt
    go none false t e u = rw (t, e, u, insert_job) (In-append (new ∷ []) m)

-- A row whose lease has not expired, or that is in no lease and not queued, outlives a claim.
pub claim_keeps :
    (r : ClaimRequest) (db : Db) (j : Job)
    → IsValid db
    → In j db.jobs
    → j.status ≢ JobStatus.queued
    → NotExpired r.now j.status j.lease_expires_at
    → In j (claim_next_job r db).1.jobs
      × ((result : JobRecord)
          → (claim_next_job r db).0 ≡ some result
          → result.row.job_id ≢ j.job_id)
unfolding claim_next_job
claim_keeps r db j h m busy lasts =
    claim_from_keeps r (recover_expired_leases r.now db.jobs) db j
      (recover-RowsAreValid r.now db.jobs h).1 (recover_keeps r.now j db.jobs lasts m) busy

pub enqueue_keeps :
    (now : ℕ) (ids : Fresh) (r : EnqueueRequest) (db : Db) (j : Job)
    → In j db.jobs
    → OnCommit (λ a. In j a.1.jobs) (enqueue_job now ids r db)
unfolding enqueue_job
enqueue_keeps now ids r db j m =
    OnCommit-after (λ a. In j a.1.jobs) (λ a. In j a.2) (insert_job job db.jobs) _
      (insert_job_keeps job db.jobs j m) (λ a n. n)
  where
    job : Job
    job = new_job now ids (ensure_workspace ids.workspace r.workspace_key db.workspaces).0 r

-- A completion changes only a row that its worker holds.
pub complete_keeps :
    (now id : ℕ) (worker : String) (outcome : Outcome) (error : Option String) (db : Db) (j : Job)
    → In j db.jobs
    → holds id worker j ≡ false
    → OnCommit (λ a. In j a.1.jobs) (complete_job now id worker outcome error db)
unfolding complete_job
complete_keeps now id worker outcome error db j m other = go (find? (holds id worker) db.jobs) refl
  where
    go :
        (o : Option Job)
        → find? (holds id worker) db.jobs ≡ o
        → OnCommit (λ a. In j a.1.jobs) (complete_job now id worker outcome error db)
    go none e = rw (e, complete_job) m
    go (some k) e =
        rw (e, complete_job)
          (OnCommit->>= (λ a. In j a.1.jobs) (next_available now outcome k) _
            (λ at. In-update_where (holds id worker) (finish now outcome at) other m))

-- So does a renewal.
pub renew_keeps :
    (client_now now id : ℕ) (worker : String) (lease_seconds : ℕ) (db : Db) (j : Job)
    → In j db.jobs
    → holds id worker j ≡ false
    → In j (renew_job_lease client_now now id worker lease_seconds db).1.jobs
unfolding renew_job_lease
renew_keeps client_now now id worker lease_seconds db j m other =
    go (find? (renewable now id worker) db.jobs) refl
  where
    not_renewable : renewable now id worker j ≡ false
    not_renewable = ground arith

    go :
        (o : Option Job)
        → find? (renewable now id worker) db.jobs ≡ o
        → In j (renew_job_lease client_now now id worker lease_seconds db).1.jobs
    go none e = rw (e, renew_job_lease) m
    go (some k) e =
        rw (e, renew_job_lease)
          (In-update_where (renewable now id worker)
            (extend now (client_now + seconds lease_seconds)) not_renewable m)

-- ===== src/Jobs/Idempotence.antt =====
-- Enqueueing twice under one idempotency key.
use skill_kernel.Base.{
  ℕ, String, str_eq, str_eq_iff, Bool, true, false, List, [], ◌∷◌, ◌++◌, Option, none, some, ◌≡◌,
  refl, ◌⊎◌, arith, find?, sym, subst, if◌then◌else◌, pos, ◌&&◌, ==_refl, Bool-cases, inl, inr,
}
use skill_kernel.Jobs.Types.{Job, Workspace, is_int4, Db, DbError, abort, commit, >>=-commit}
use skill_kernel.Jobs.Enqueue.{
  Fresh, EnqueueRequest, EnqueueResult, ensure_workspace, new_job, has_key, has_int4, insert_job,
  enqueue_job,
}

str_eq_refl : (s : String) → str_eq s s ≡ true
str_eq_refl s = (str_eq_iff s s).1 refl

find?-snoc {ℓ} :
    {A : Type ℓ} (p : A → Bool) (xs : List A) (a : A)
    → find? p xs ≡ none
    → p a ≡ true
    → find? p (xs ++ a ∷ []) ≡ some a
find?-snoc p [] a h t = rw t
find?-snoc p (x ∷ xs) a h t = elim (Bool-cases (p x)) [
  | inl yes_x ↦ cc
  | inr no_x ↦ rw no_x (find?-snoc p xs a (rw no_x at h) t)
]

-- The workspace of a key is made once.
ensure_workspace-again :
    (fresh fresh' : ℕ) (key : String) (ws : List Workspace)
    → ensure_workspace fresh' key (ensure_workspace fresh key ws).1 ≡ ensure_workspace fresh key ws
unfolding ensure_workspace
ensure_workspace-again fresh fresh' key ws = go (find? same ws) refl
  where
    same : Workspace → Bool
    same w = str_eq w.external_key key

    go :
        (o : Option Workspace)
        → find? same ws ≡ o
        → ensure_workspace fresh' key (ensure_workspace fresh key ws).1
          ≡ ensure_workspace fresh key ws
    go none e =
        let last : Workspace = record { id = fresh; external_key = key } in
        let found = find?-snoc same ws last e (str_eq_refl key) in
        rw (e, ensure_workspace) (rw (found, ensure_workspace) (rw (e, ensure_workspace)))
    go (some w) e = rw (e, ensure_workspace) (rw (e, ensure_workspace) (rw (e, ensure_workspace)))

insert_job_cases :
    (j : Job) (jobs jobs' : List Job) (old : Job) (created : Bool)
    → insert_job j jobs ≡ commit (old, created, jobs')
    → (find? (has_key j.workspace_id j.idempotency_key) jobs ≡ some old) × (jobs' ≡ jobs)
      ⊎ (find? (has_key j.workspace_id j.idempotency_key) jobs ≡ none)
        × (old ≡ j)
        × (jobs' ≡ jobs ++ j ∷ [])
unfolding insert_job
insert_job_cases j jobs jobs' old created e = ground (arith)

-- A second INSERT with the same unique key finds the row of the first, if its columns hold it.
insert_job-again :
    (j k : Job) (jobs jobs' : List Job) (old : Job) (created : Bool)
    → k.workspace_id ≡ j.workspace_id
    → k.idempotency_key ≡ j.idempotency_key
    → insert_job j jobs ≡ commit (old, created, jobs')
    → insert_job k jobs'
      ≡ (if has_int4 k then commit (old, false, jobs') else abort DbError.integer_out_of_range)
unfolding insert_job
insert_job-again j k jobs jobs' old created ws key e = elim (Bool-cases (has_int4 k)) [
  | inl fits ↦ rw (fits, same_row, insert_job)
  | inr large ↦ rw (large, insert_job)
]
  where
    self : has_key j.workspace_id j.idempotency_key j ≡ true
    self = rw (==_refl j.workspace_id) (str_eq_refl j.idempotency_key)

    found : find? (has_key j.workspace_id j.idempotency_key) jobs' ≡ some old
    found = elim (insert_job_cases j jobs jobs' old created e) [
      | inl (f, same) ↦ rw same f
      | inr (f, is_j, longer) ↦
          rw (longer, is_j) (find?-snoc (has_key j.workspace_id j.idempotency_key) jobs j f self)
    ]

    same_row : find? (has_key k.workspace_id k.idempotency_key) jobs' ≡ some old
    same_row =
        subst (λ w. find? (has_key w k.idempotency_key) jobs' ≡ some old) (sym ws)
          (subst (λ t. find? (has_key j.workspace_id t) jobs' ≡ some old) (sym key) found)

-- If an enqueue commits, a later one for the same workspace and idempotency key, whatever its other
-- arguments, identifiers and time are, commits as well where its priority and its attempts fit in
-- the columns: it reports that nothing was created, returns the row of the first, and leaves the
-- tables as they are. Where one of the two does not fit, it raises "integer out of range".
pub enqueue_job-again :
    (now now' : ℕ) (ids ids' : Fresh) (r r' : EnqueueRequest) (db db' : Db) (first : EnqueueResult)
    → r'.workspace_key ≡ r.workspace_key
    → r'.idempotency_key ≡ r.idempotency_key
    → enqueue_job now ids r db ≡ commit (first, db')
    → enqueue_job now' ids' r' db' ≡ (
        if is_int4 r'.priority && is_int4 (pos r'.max_attempts)
        then commit (record { job = first.job; created = false }, db')
        else abort DbError.integer_out_of_range)
unfolding enqueue_job new_job
enqueue_job-again now now' ids ids' r r' db db' first ws key e =
    let (a, inserted, committed) = >>=-commit (insert_job job db.jobs) _ e in
    let tables : Db = record db { workspaces = made.1; jobs = a.2 } in
    let db'_is : db' ≡ tables = cc in
    let row_is : first.job ≡ record { row = a.0; workspace_key = some r.workspace_key } = cc in
    let same_ws : ensure_workspace ids'.workspace r.workspace_key made.1 ≡ made =
      ensure_workspace-again ids.workspace ids'.workspace r.workspace_key db.workspaces in
    let found : insert_job job' a.2
        ≡ (if has_int4 job' then commit (a.0, false, a.2) else abort DbError.integer_out_of_range) =
      insert_job-again job job' db.jobs a.2 a.0 a.1 refl key inserted in
    elim (Bool-cases (has_int4 job')) [
      | inl fits ↦ rw (db'_is, row_is, ws, fits) (rw same_ws (rw (found, fits) refl))
      | inr large ↦ rw (db'_is, row_is, ws, large) (rw same_ws (rw (found, large) refl))
    ]
  where
    made : ℕ × List Workspace
    made = ensure_workspace ids.workspace r.workspace_key db.workspaces

    job : Job
    job = new_job now ids made.0 r

    job' : Job
    job' = new_job now' ids' made.0 r'

-- ===== src/Jobs/Enqueue.antt =====
-- `ensure_workspace` of sidecar/autoskill/db/workspaces.py and `enqueue_job` of
-- sidecar/autoskill/db/jobs.py.
use skill_kernel.Base.{
  ℕ, ℤ, pos, String, str_eq, Bool, true, false, ◌&&◌, List, [], ◌∷◌, ◌++◌, Option, none, some, ◌==◌,
  if◌then◌else◌, any, find?,
}
use skill_kernel.Jobs.Types.{
  Job, JobStatus, Workspace, is_int4, Db, JobRecord, DbError, Tx, commit, abort, ◌>>=◌,
}

abbrev pub or_else {ℓ} : {A : Type ℓ} → Option A → A → A
or_else none b = b
or_else (some a) b = a

-- The row with this key, inserted under the identifier `fresh` if there is none.
unfoldable pub ensure_workspace : ℕ → String → List Workspace → ℕ × List Workspace
ensure_workspace fresh key ws = elim (find? (λ w. str_eq w.external_key key) ws) [
  | none ↦ (fresh, ws ++ record { id = fresh; external_key = key } ∷ [])
  | some w ↦ (w.id, ws)
]

-- The values of `gen_random_uuid()` in one call.
pub record Fresh : Type 0 where
  pub workspace : ℕ
  pub job : ℕ
  pub trace : ℕ
  pub span : ℕ

-- The keyword arguments of `enqueue_job`. A negative `max_attempts`, which no statement tells apart
-- from zero, is left out.
pub record EnqueueRequest : Type 0 where
  pub workspace_key : String
  pub job_kind : String
  pub idempotency_key : String
  pub payload : Option String
  pub trace_id : Option ℕ
  pub span_id : Option ℕ
  pub parent_span_id : Option ℕ
  pub priority : ℤ
  pub max_attempts : ℕ
  pub available_at : Option ℕ

pub record EnqueueResult : Type 0 where
  pub job : JobRecord
  pub created : Bool

-- The row that the INSERT proposes.
unfoldable pub new_job : ℕ → Fresh → ℕ → EnqueueRequest → Job
new_job now ids ws r = record {
  job_id = ids.job;
  workspace_id = ws;
  trace_id = or_else r.trace_id ids.trace;
  span_id = or_else r.span_id ids.span;
  parent_span_id = r.parent_span_id;
  job_kind = r.job_kind;
  status = JobStatus.queued;
  idempotency_key = r.idempotency_key;
  payload = or_else r.payload "{}";
  priority = r.priority;
  lease_owner = none;
  lease_expires_at = none;
  attempts = 0;
  max_attempts = r.max_attempts;
  available_at = or_else r.available_at now;
  created_at = now;
  updated_at = now;
}

-- `ON CONFLICT (workspace_id, idempotency_key)`
abbrev pub has_key : ℕ → String → Job → Bool
has_key ws key j = (j.workspace_id == ws) && str_eq j.idempotency_key key

-- The columns of type `integer` can hold the priority and the attempts.
abbrev pub has_int4 : Job → Bool
has_int4 j = is_int4 j.priority && is_int4 (pos j.max_attempts)

-- The INSERT: an argument that its column cannot hold is an error, a row with the same workspace and
-- key is returned as it is, and a second use of a primary key is an error.
unfoldable pub insert_job : Job → List Job → Tx (Job × Bool × List Job)
insert_job j jobs =
    if has_int4 j
    then elim (find? (has_key j.workspace_id j.idempotency_key) jobs) [
      | some old ↦ commit (old, false, jobs)
      | none ↦
          if any (λ k. k.job_id == j.job_id) jobs
          then abort DbError.unique_violation
          else commit (j, true, jobs ++ j ∷ [])
    ]
    else abort DbError.integer_out_of_range

unfoldable pub enqueue_job : ℕ → Fresh → EnqueueRequest → Db → Tx (EnqueueResult × Db)
enqueue_job now ids r db =
    let (ws, workspaces) = ensure_workspace ids.workspace r.workspace_key db.workspaces in
    insert_job (new_job now ids ws r) db.jobs >>= λ (job, created, jobs). commit (
      record {
        job = record { row = job; workspace_key = some r.workspace_key };
        created = created;
      },
      record db { workspaces = workspaces; jobs = jobs },
    )

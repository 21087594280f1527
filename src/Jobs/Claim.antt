-- ===== src/Jobs/Claim.antt =====
-- `_recover_expired_leases` and `claim_next_job` of sidecar/autoskill/db/jobs.py.
use skill_kernel.Base.{
  ℕ, ◌+◌, String, str_eq, Bool, true, false, not, ◌&&◌, ◌||◌, List, [], ◌∷◌, ◌++◌, map, Option,
  none, some, ◌==◌, ltb, leb, ltb_ℤ, eqb_ℤ, if◌then◌else◌, any, find?,
}
use skill_kernel.Jobs.Types.{
  Job, JobStatus, Attempt, Workspace, Db, JobRecord, is_queued, is_leased, seconds,
}

-- `lease_expires_at < now()`, which is not true of NULL.
abbrev pub expired : ℕ → Option ℕ → Bool
expired now none = false
expired now (some at) = ltb at now

-- The first UPDATE of `_recover_expired_leases`, on one row.
unfoldable pub requeue_expired : ℕ → Job → Job
requeue_expired now j =
    if is_leased j.status && expired now j.lease_expires_at && ltb j.attempts j.max_attempts
    then record j {
      status = JobStatus.queued;
      lease_owner = none;
      lease_expires_at = none;
      updated_at = now;
    }
    else j

-- The second UPDATE, on one row.
unfoldable pub fail_expired : ℕ → Job → Job
fail_expired now j =
    if is_leased j.status && expired now j.lease_expires_at && leb j.max_attempts j.attempts
    then record j {
      status = JobStatus.failed;
      lease_owner = none;
      lease_expires_at = none;
      updated_at = now;
    }
    else j

unfoldable pub recover_expired_leases : ℕ → List Job → List Job
recover_expired_leases now jobs = map (fail_expired now) (map (requeue_expired now) jobs)

-- `$1::text[] IS NULL OR job_kind = ANY($1::text[])`, where an empty list is sent as NULL.
unfoldable pub kind_matches : Option (List String) → String → Bool
kind_matches none kind = true
kind_matches (some []) kind = true
kind_matches (some (k ∷ ks)) kind = any (λ x. str_eq kind x) (k ∷ ks)

-- The WHERE clause, and the rows that SKIP LOCKED leaves out.
unfoldable pub claimable : ℕ → Option (List String) → (ℕ → Bool) → Job → Bool
claimable now kinds locked j =
    is_queued j.status
    && leb j.available_at now
    && kind_matches kinds j.job_kind
    && not (locked j.job_id)

-- `ORDER BY priority ASC, available_at ASC, created_at ASC`
unfoldable pub before : Job → Job → Bool
before a b =
    ltb_ℤ a.priority b.priority
    || (eqb_ℤ a.priority b.priority
        && (ltb a.available_at b.available_at
            || ((a.available_at == b.available_at) && ltb a.created_at b.created_at)))

abbrev pub earlier : Job → Option Job → Job
earlier j none = j
earlier j (some k) = if before k j then k else j

-- `LIMIT 1`. Of rows that the order does not tell apart it takes the one listed first.
unfoldable pub select_candidate : (Job → Bool) → List Job → Option Job
select_candidate p [] = none
select_candidate p (j ∷ js) =
    let rest = select_candidate p js in if p j then some (earlier j rest) else rest

-- The SET clause of the claim.
unfoldable pub lease : ℕ → ℕ → String → Job → Job
lease now expires_at worker j = record j {
  status = JobStatus.leased;
  lease_owner = some worker;
  lease_expires_at = some expires_at;
  attempts = j.attempts + 1;
  updated_at = now;
}

-- `UPDATE autoskill.jobs SET f WHERE p`
abbrev pub update_where : (Job → Bool) → (Job → Job) → List Job → List Job
update_where p f jobs = map (λ j. if p j then f j else j) jobs

-- `_workspace_key`
abbrev pub workspace_key_of : ℕ → List Workspace → Option String
workspace_key_of ws rows = elim (find? (λ w. w.id == ws) rows) [
  | none ↦ none
  | some w ↦ some w.external_key
]

abbrev pub new_attempt : String → Job → Attempt
new_attempt worker j = record {
  attempt_job = j.job_id;
  attempt_number = j.attempts;
  worker_id = worker;
  attempt_status = JobStatus.leased;
  finished_at = none;
  error = none;
}

-- The keyword arguments of `claim_next_job`. `client_now` is the worker process's clock, by which
-- the lease is dated, and `now` that of the database.
pub record ClaimRequest : Type 0 where
  pub worker_id : String
  pub lease_seconds : ℕ
  pub job_kinds : Option (List String)
  pub client_now : ℕ
  pub now : ℕ
  -- The rows that other transactions hold locked.
  pub locked : ℕ → Bool

-- The statements after the recovery, on the recovered rows.
unfoldable pub claim_from : ClaimRequest → List Job → Db → Option JobRecord × Db
unfolding claimable select_candidate lease
claim_from r jobs db = elim (select_candidate (claimable r.now r.job_kinds r.locked) jobs) [
  | none ↦ (none, record db { jobs = jobs })
  | some c ↦
      let claimed = lease r.now (r.client_now + seconds r.lease_seconds) r.worker_id in
      (
        some (record {
          row = claimed c;
          workspace_key = workspace_key_of c.workspace_id db.workspaces;
        }),
        record db {
          jobs = update_where (λ j. j.job_id == c.job_id) claimed jobs;
          job_attempts = db.job_attempts ++ new_attempt r.worker_id (claimed c) ∷ [];
        },
      )
]

unfoldable pub claim_next_job : ClaimRequest → Db → Option JobRecord × Db
unfolding recover_expired_leases claim_from
claim_next_job r db = claim_from r (recover_expired_leases r.now db.jobs) db

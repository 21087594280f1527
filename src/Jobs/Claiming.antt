-- ===== src/Jobs/Claiming.antt =====
-- What `claim_next_job` does, on both of its outcomes.
use skill_kernel.Base.{
  ◌+◌, Bool, false, List, none, some, ◌≡◌, ◌⊎◌, inl, inr, All, ◌++◌, [], ◌∷◌, ◌==◌, Option-cases,
}
use skill_kernel.Jobs.Types.{Job, Db, seconds}
use skill_kernel.Jobs.Claim.{
  recover_expired_leases, claimable, select_candidate, lease, update_where, workspace_key_of,
  new_attempt, ClaimRequest, claim_from, claim_next_job,
}
use skill_kernel.Jobs.Select.{IsFirst, select_candidate-IsFirst, select_candidate-eq-none}

module _ (r : ClaimRequest) (db : Db) where
  abbrev recovered : List Job
  recovered = recover_expired_leases r.now db.jobs

  abbrev eligible : Job → Bool
  eligible = claimable r.now r.job_kinds r.locked

  abbrev claimed : Job → Job
  claimed = lease r.now (r.client_now + seconds r.lease_seconds) r.worker_id

  -- Nothing is eligible, and nothing but the recovery happens.
  abbrev pub IsIdle : Type 0
  IsIdle =
      All (λ k. eligible k ≡ false) recovered
      × (claim_next_job r db ≡ (none, record db { jobs = recovered }))

  -- The first eligible row is leased and logged.
  abbrev pub IsClaimed : Job → Type 0
  IsClaimed c =
      IsFirst eligible c recovered
      × (claim_next_job r db ≡ (
        some (record {
          row = claimed c;
          workspace_key = workspace_key_of c.workspace_id db.workspaces;
        }),
        record db {
          jobs = update_where (λ j. j.job_id == c.job_id) claimed recovered;
          job_attempts = db.job_attempts ++ new_attempt r.worker_id (claimed c) ∷ [];
        },
      ))

-- A claim first recovers the expired leases. Then either no row is eligible (queued, due, of a wanted
-- kind, not locked), and the call returns nothing and changes nothing more; or it leases one eligible
-- row before which no other eligible row comes in the order of priority, availability and creation,
-- returns it, appends one attempt and changes no row with another identifier.
pub claim_next_job_lem : (r : ClaimRequest) (db : Db) → IsIdle r db ⊎ ((c : Job) × IsClaimed r db c)
unfolding claim_next_job claim_from
claim_next_job_lem r db = elim (Option-cases (select_candidate (eligible r db) (recovered r db))) [
  | inl e ↦ inl (select_candidate-eq-none (eligible r db) (recovered r db) e, rw (e, claim_from))
  | inr (c, e) ↦
      inr (c, (select_candidate-IsFirst (eligible r db) (recovered r db) c e, rw (e, claim_from)))
]

-- ===== src/Governance/Revocations.antt =====
-- `request_revocation`, `claim_next_revocation_request` and `complete_revocation_request` of the
-- class AsyncpgGovernanceStore.
use skill_kernel.Base.{
  ℕ, String, str_eq, Bool, true, false, not, ◌&&◌, ◌||◌, List, [], ◌∷◌, ◌++◌, map, Option, none,
  some, ◌==◌, ltb, if◌then◌else◌, any, find?, filterb, member, Fields, end, field, str, Py, raised,
  returned, value_error,
}
use skill_kernel.Jobs.Types.{Workspace, unique_violation, Tx, abort, commit}
use skill_kernel.Jobs.Enqueue.{ensure_workspace, or_else}
use skill_kernel.Governance.Tables.{Revocation, GovernanceDb}

-- The arguments of `request_revocation`.
pub record RevocationRequest : Type 0 where
  pub workspace_key : String
  pub request_kind : String
  pub root_object_type : String
  pub root_object_id : ℕ
  pub traversal_summary : Option Fields
  pub created_by_job_id : Option ℕ

-- `fresh_ws` and `fresh` are generated identifiers, and `now` is the instant of the transaction.
unfoldable pub request_revocation :
    ℕ → ℕ → ℕ → RevocationRequest → GovernanceDb → Tx (Revocation × GovernanceDb)
request_revocation fresh_ws fresh now r db =
    let (ws, workspaces) = ensure_workspace fresh_ws r.workspace_key db.workspaces in
    let row : Revocation = record {
      id = fresh;
      workspace_id = ws;
      request_kind = r.request_kind;
      root_object_type = r.root_object_type;
      root_object_id = r.root_object_id;
      status = "queued";
      traversal_summary = or_else r.traversal_summary end;
      created_by_job_id = r.created_by_job_id;
      created_at = now;
      completed_at = none;
    } in
    if any (λ q. q.id == fresh) db.revocations
    then abort unique_violation
    else commit
        (row, record db { workspaces = workspaces; revocations = db.revocations ++ row ∷ [] })

-- The arguments of `claim_next_revocation_request`, and the rows that other sessions have locked.
pub record RevocationClaim : Type 0 where
  pub workspace_key : Option String
  pub request_kind : String
  pub root_object_type : Option String
  pub worker_id : Option String
  pub is_locked : Revocation → Bool

abbrev matches : Option String → String → Bool
matches none s = true
matches (some t) s = str_eq s t

-- The WHERE clause.
unfoldable pub is_claimable : RevocationClaim → List Workspace → Revocation → Bool
is_claimable r workspaces q =
    str_eq q.status "queued"
    && (str_eq q.request_kind r.request_kind
        && (any (λ w. w.id == q.workspace_id && matches r.workspace_key w.external_key) workspaces
            && (matches r.root_object_type q.root_object_type && not (r.is_locked q))))

-- `ORDER BY created_at ASC, revocation_request_id ASC LIMIT 1`
abbrev pub comes_before : Revocation → Revocation → Bool
comes_before a b = ltb a.created_at b.created_at || (a.created_at == b.created_at && ltb a.id b.id)

unfoldable pub earliest : Revocation → List Revocation → Revocation
earliest best [] = best
earliest best (q ∷ qs) = elim (comes_before q best) [
  | true ↦ earliest q qs
  | false ↦ earliest best qs
]

unfoldable pub candidate_request : List Revocation → Option Revocation
candidate_request [] = none
candidate_request (q ∷ qs) = some (earliest q qs)

-- `traversal_summary || $4::jsonb`
abbrev claimed_summary : Option String → Fields → Fields
claimed_summary none summary = summary
claimed_summary (some worker) summary =
    if str_eq worker "" then summary else field "claimed_by" (str worker) summary

abbrev pub processing : Option String → Revocation → Revocation
processing worker q = record q {
  status = "processing";
  traversal_summary = claimed_summary worker q.traversal_summary;
}

unfoldable pub claim_next_revocation_request :
    RevocationClaim → GovernanceDb → Option Revocation × GovernanceDb
claim_next_revocation_request r db =
    elim (candidate_request (filterb (is_claimable r db.workspaces) db.revocations)) [
      | none ↦ (none, db)
      | some c ↦ (
        some (processing r.worker_id c),
        record db {
          revocations =
              map (λ q. if q.id == c.id then processing r.worker_id q else q) db.revocations;
        },
      )
    ]

-- ValueError for another status; then the row, or None without one, and the tables.
unfoldable pub complete_revocation_request :
    ℕ → ℕ → String → Fields → GovernanceDb → Py (Option Revocation × GovernanceDb)
complete_revocation_request now id status summary db =
    let change : Revocation → Revocation = λ q.
      if q.id == id
      then record q { status = status; traversal_summary = summary; completed_at = some now }
      else q in
    if not (member status ("completed" ∷ "failed" ∷ []))
    then raised value_error
    else returned (
      find? (λ q. q.id == id) (map change db.revocations),
      record db { revocations = map change db.revocations },
    )

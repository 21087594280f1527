-- ===== src/Governance/Tests.antt =====
-- A table with one transaction and two requests, and the theorems at it.
use skill_kernel.Base.{ℕ, false, [], ◌∷◌, none, some, ◌≡◌, ◌≢◌, refl, In, here, end}
use skill_kernel.Governance.Tables.{Transaction, Revocation, GovernanceDb}
use skill_kernel.Governance.Transactions.{StartRequest, update_transaction_status, planned}
use skill_kernel.Governance.Revocations.{
  RevocationClaim, is_claimable, earliest, candidate_request, processing,
  claim_next_revocation_request,
}
use skill_kernel.Governance.Steps.{update, claim, Reach, still, next}
use skill_kernel.Governance.Persistence.{Keeps, Reach-Keeps}
use skill_kernel.Governance.Claims.{claim_next_revocation_request-once}

abbrev plan : StartRequest
plan = record {
  workspace_key = "home";
  transaction_kind = "activation";
  idempotency_key = "k";
  plan_hash = "h";
  actor = "autoskill-sidecar";
  cause = none;
  source_evidence_ids = [];
  source_memory_ids = [];
  policy_snapshot = none;
  rollback_of_transaction_id = none;
}

abbrev queued : ℕ → ℕ → Revocation
queued id created_at = record {
  id = id;
  workspace_id = 5;
  request_kind = "rollback";
  root_object_type = "skill";
  root_object_id = 7;
  status = "queued";
  traversal_summary = end;
  created_by_job_id = none;
  created_at = created_at;
  completed_at = none;
}

abbrev tables : GovernanceDb
tables = record {
  workspaces = record { id = 5; external_key = "home" } ∷ [];
  transactions = planned 1 5 plan ∷ [];
  revocations = queued 11 30 ∷ queued 12 20 ∷ [];
}

abbrev rollbacks : RevocationClaim
rollbacks = record {
  workspace_key = none;
  request_kind = "rollback";
  root_object_type = none;
  worker_id = some "w";
  is_locked = λ q. false;
}

abbrev once_claimed : GovernanceDb
once_claimed = (claim_next_revocation_request rollbacks tables).1

-- The older request is claimed first.
claims_oldest :
    (claim_next_revocation_request rollbacks tables).0 ≡ some (processing (some "w") (queued 12 20))
unfolding claim_next_revocation_request candidate_request earliest is_claimable
claims_oldest = refl

abbrev committed : Reach tables (update_transaction_status 9 1 "active" none once_claimed).1
committed =
    next once_claimed (update_transaction_status 9 1 "active" none once_claimed).1
      (next tables once_claimed still (claim rollbacks)) (update 9 1 "active" none)

Reach-Keeps_example :
    (b : Transaction) × In b
      (update_transaction_status 9 1 "active" none once_claimed).1.transactions
    × Keeps (planned 1 5 plan) b
Reach-Keeps_example =
    Reach-Keeps tables (update_transaction_status 9 1 "active" none once_claimed).1
      (planned 1 5 plan) committed here

claim_next_revocation_request-once_example :
    ◌≢◌ (processing (some "w") (queued 11 30)).id (processing (some "w") (queued 12 20)).id
unfolding claim_next_revocation_request candidate_request earliest is_claimable
claim_next_revocation_request-once_example =
    claim_next_revocation_request-once rollbacks rollbacks tables once_claimed once_claimed
      (processing (some "w") (queued 12 20)) (processing (some "w") (queued 11 30)) refl still refl

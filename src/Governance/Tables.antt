-- ===== src/Governance/Tables.antt =====
-- The tables evolution_transactions and revocation_requests.
use skill_kernel.Base.{ℕ, String, List, Option, Fields}
use skill_kernel.Jobs.Types.{Workspace}

pub record Transaction : Type 0 where
  pub id : ℕ
  pub workspace_id : ℕ
  pub transaction_kind : String
  pub idempotency_key : String
  pub plan_hash : String
  pub actor : String
  pub status : String
  pub cause : Fields
  pub source_evidence_ids : List ℕ
  pub source_memory_ids : List ℕ
  pub policy_snapshot : Fields
  pub rollback_of_transaction_id : Option ℕ
  pub metrics : Fields
  pub committed_at : Option ℕ
  pub rolled_back_at : Option ℕ

pub record Revocation : Type 0 where
  pub id : ℕ
  pub workspace_id : ℕ
  pub request_kind : String
  pub root_object_type : String
  pub root_object_id : ℕ
  pub status : String
  pub traversal_summary : Fields
  pub created_by_job_id : Option ℕ
  pub created_at : ℕ
  pub completed_at : Option ℕ

pub record GovernanceDb : Type 0 where
  pub workspaces : List Workspace
  pub transactions : List Transaction
  pub revocations : List Revocation

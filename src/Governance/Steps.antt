-- ===== src/Governance/Steps.antt =====
-- The calls that change the tables, in any order.
use skill_kernel.Base.{ℕ, String, Bool, Option, Fields, ◌≡◌, returned}
use skill_kernel.Jobs.Types.{commit}
use skill_kernel.Governance.Tables.{Transaction, Revocation, GovernanceDb}
use skill_kernel.Governance.Transactions.{
  StartRequest, start_transaction, update_transaction_status,
}
use skill_kernel.Governance.Revocations.{
  RevocationRequest, RevocationClaim, request_revocation, claim_next_revocation_request,
  complete_revocation_request,
}

pub data Step (db : GovernanceDb) : GovernanceDb → Type 0 where
  start :
      (fresh_ws fresh : ℕ) (r : StartRequest) (t : Transaction) (b : Bool) (db' : GovernanceDb)
      → start_transaction fresh_ws fresh r db ≡ commit (t, (b, db'))
      → Step db db'
  update :
      (now id : ℕ) (status : String) (metrics : Option Fields)
      → Step db (update_transaction_status now id status metrics db).1
  request :
      (fresh_ws fresh now : ℕ) (r : RevocationRequest) (q : Revocation) (db' : GovernanceDb)
      → request_revocation fresh_ws fresh now r db ≡ commit (q, db')
      → Step db db'
  claim : (r : RevocationClaim) → Step db (claim_next_revocation_request r db).1
  complete :
      (now id : ℕ) (status : String) (summary : Fields) (q : Option Revocation) (db' : GovernanceDb)
      → complete_revocation_request now id status summary db ≡ returned (q, db')
      → Step db db'

pub data Reach (db : GovernanceDb) : GovernanceDb → Type 0 where
  still : Reach db db
  next : (mid after : GovernanceDb) → Reach db mid → Step mid after → Reach db after

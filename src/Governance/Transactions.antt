-- ===== src/Governance/Transactions.antt =====
-- `start_transaction` and `update_transaction_status` of the class AsyncpgGovernanceStore.
use skill_kernel.Base.{
  ℕ, String, str_eq, Bool, true, false, ◌&&◌, List, [], ◌∷◌, ◌++◌, map, Option, none, some, ◌==◌,
  if◌then◌else◌, any, find?, member, Fields, end,
}
use skill_kernel.Jobs.Types.{unique_violation, Tx, abort, commit}
use skill_kernel.Jobs.Enqueue.{ensure_workspace, or_else}
use skill_kernel.Governance.Tables.{Transaction, GovernanceDb}

-- The arguments of `start_transaction`.
pub record StartRequest : Type 0 where
  pub workspace_key : String
  pub transaction_kind : String
  pub idempotency_key : String
  pub plan_hash : String
  pub actor : String
  pub cause : Option Fields
  pub source_evidence_ids : List ℕ
  pub source_memory_ids : List ℕ
  pub policy_snapshot : Option Fields
  pub rollback_of_transaction_id : Option ℕ

abbrev pub planned : ℕ → ℕ → StartRequest → Transaction
planned fresh ws r = record {
  id = fresh;
  workspace_id = ws;
  transaction_kind = r.transaction_kind;
  idempotency_key = r.idempotency_key;
  plan_hash = r.plan_hash;
  actor = r.actor;
  status = "planned";
  cause = or_else r.cause end;
  source_evidence_ids = r.source_evidence_ids;
  source_memory_ids = r.source_memory_ids;
  policy_snapshot = or_else r.policy_snapshot end;
  rollback_of_transaction_id = r.rollback_of_transaction_id;
  metrics = end;
  committed_at = none;
  rolled_back_at = none;
}

abbrev pub in_conflict : ℕ → String → Transaction → Bool
in_conflict ws idempotency_key t = t.workspace_id == ws && str_eq t.idempotency_key idempotency_key

-- The row, whether it was created, and the tables. A conflict on the workspace and the key leaves
-- the row as it is, whatever the other arguments are. `fresh_ws` and `fresh` are generated.
unfoldable pub start_transaction :
    ℕ → ℕ → StartRequest → GovernanceDb → Tx (Transaction × (Bool × GovernanceDb))
start_transaction fresh_ws fresh r db =
    let (ws, workspaces) = ensure_workspace fresh_ws r.workspace_key db.workspaces in
    elim (find? (in_conflict ws r.idempotency_key) db.transactions) [
      | some t ↦ commit (t, (false, record db { workspaces = workspaces }))
      | none ↦
          if any (λ t. t.id == fresh) db.transactions
          then abort unique_violation
          else commit (
            planned fresh ws r,
            (
              true,
              record db {
                workspaces = workspaces;
                transactions = db.transactions ++ planned fresh ws r ∷ [];
              },
            ),
          )
    ]

-- `COALESCE(instant, now())`
abbrev pub coalesce : Option ℕ → ℕ → Option ℕ
coalesce none now = some now
coalesce (some t) now = some t

-- The SET clause.
unfoldable pub with_transaction_status : ℕ → String → Option Fields → Transaction → Transaction
with_transaction_status now status metrics t = record t {
  status = status;
  metrics = or_else metrics end;
  committed_at =
      if member status ("active" ∷ "committed" ∷ [])
      then coalesce t.committed_at now
      else t.committed_at;
  rolled_back_at =
      if member status ("rolled_back" ∷ "revoked" ∷ [])
      then coalesce t.rolled_back_at now
      else t.rolled_back_at;
}

-- The updated row, or None without one, and the tables.
unfoldable pub update_transaction_status :
    ℕ → ℕ → String → Option Fields → GovernanceDb → Option Transaction × GovernanceDb
update_transaction_status now id status metrics db =
    let change : Transaction → Transaction =
      λ t. if t.id == id then with_transaction_status now status metrics t else t in
    (
      find? (λ t. t.id == id) (map change db.transactions),
      record db { transactions = map change db.transactions },
    )

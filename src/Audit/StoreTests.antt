-- ===== src/Audit/StoreTests.antt =====
-- A table of two records, and the theorems on the store at it.
use skill_kernel.Base.{
  ℕ, String, Bool, true, false, [], ◌∷◌, ◌++◌, Option, none, some, ◌≡◌, refl, ◌↔◌, ◌/◌, ◌%◌, ◌^◌,
  arith, here, there, Json, end, object,
}
use skill_kernel.Jobs.Types.{Tx, abort, commit}
use skill_kernel.Jobs.Enqueue.{ensure_workspace}
use skill_kernel.Audit.Chain.{AuditData, AuditRecord, sealed, verify_hash_chain}
use skill_kernel.Audit.Tampering.{head_hash}
use skill_kernel.Audit.Store.{
  AuditDb, insert_row, newest_first, chained, stored, append_record, list_recent,
  verify_recent_segment, verify_chain, workspace_audit_lock_key,
}
use skill_kernel.Audit.LockKey.{IsInt32, workspace_audit_lock_key_iff}
use skill_kernel.Audit.Appending.{
  chain_of, IsLatest, append_record-chain, append_record-verify_chain,
}

abbrev entry : ℕ → ℕ → String → Option String → AuditRecord
entry id occurred_at action previous = record {
  data_of = record {
    audit_id = id;
    occurred_at = occurred_at;
    action = action;
    actor = "autoskill-sidecar";
    subject_type = "skill";
    subject_id = "7";
    previous_hash = previous;
    details = object end;
  };
  audit_hash = some action;
}

abbrev digest : AuditData → String
digest d = d.action

abbrev jsonb : Json → Json
jsonb v = v

abbrev table : AuditDb
table = record {
  workspaces = record { id = 5; external_key = "home" } ∷ [];
  audit_records =
      record { workspace_id = 5; record_of = entry 1 10 "freeze" none }
      ∷ record { workspace_id = 5; record_of = entry 2 20 "thaw" (some "freeze") }
      ∷ [];
}

abbrev after : Tx (AuditRecord × AuditDb) → AuditDb
after (commit r) = r.1
after (abort e) = record { workspaces = []; audit_records = [] }

abbrev is_verified : AuditRecord → Bool
is_verified r =
    verify_chain digest (some "home") 100 (after (append_record digest jsonb 9 r "home" table))

on_time : is_verified (entry 3 30 "freeze" none) ≡ true
unfolding verify_chain verify_recent_segment list_recent append_record ensure_workspace newest_first
    insert_row chained stored sealed verify_hash_chain
on_time = refl

-- A record with an earlier time is chained to the last one and read back before it.
back_dated : is_verified (entry 3 15 "freeze" none) ≡ false
unfolding verify_chain verify_recent_segment list_recent append_record ensure_workspace newest_first
    insert_row chained stored sealed verify_hash_chain
back_dated = refl

table-IsLatest : IsLatest (entry 3 30 "freeze" none) "home" table
table-IsLatest x here of_home = refl
table-IsLatest x (there here) of_home = refl
table-IsLatest x (there (there m)) of_home = elim m [ ]

abbrev next : AuditRecord
next = chained digest jsonb (head_hash none (chain_of "home" table)) (entry 3 30 "freeze" none)

append_record-chain_example :
    (db' : AuditDb) × (append_record digest jsonb 9 (entry 3 30 "freeze" none) "home" table
      ≡ commit (next, db'))
    × (chain_of "home" db' ≡ chain_of "home" table ++ next ∷ [])
append_record-chain_example =
    append_record-chain digest jsonb 9 (entry 3 30 "freeze" none) "home" table (tt, tt)
      ((ground arith, tt), (ground arith, (ground arith, tt))) refl refl table-IsLatest

append_record-verify_chain_example :
    (s : AuditRecord) × (db' : AuditDb) × (append_record digest jsonb 9
        (entry 3 30 "freeze" none)
        "home"
        table
      ≡ commit (s, db'))
    × (verify_hash_chain digest (chain_of "home" db') none ≡ true)
    × ((limit : ℕ) → verify_chain digest (some "home") limit db' ≡ true)
unfolding chain_of newest_first insert_row verify_hash_chain sealed
append_record-verify_chain_example =
    append_record-verify_chain digest jsonb 9 (entry 3 30 "freeze" none) "home" table (tt, tt)
      ((ground arith, tt), (ground arith, (ground arith, tt))) refl refl table-IsLatest refl

workspace_audit_lock_key_iff_example :
    IsInt32 (workspace_audit_lock_key 3).0
    × IsInt32 (workspace_audit_lock_key 3).1
    × ((workspace_audit_lock_key 3 ≡ workspace_audit_lock_key 7)
        ↔ ((3 / 2 ^ 96 % 2 ^ 32 ≡ 7 / 2 ^ 96 % 2 ^ 32) × (3 % 2 ^ 32 ≡ 7 % 2 ^ 32)))
workspace_audit_lock_key_iff_example = workspace_audit_lock_key_iff 3 7

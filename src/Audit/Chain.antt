-- ===== src/Audit/Chain.antt =====
-- sidecar/autoskill/core/audit.py: `AuditRecord` and `verify_hash_chain`.
use skill_kernel.Base.{
  ℕ, String, str_eq, Bool, true, false, not, List, [], ◌∷◌, Option, none, some, if◌then◌else◌, Json,
}

-- What `model_dump(mode="json", exclude={"audit_hash"})` keeps of a record.
pub record AuditData : Type 0 where
  pub audit_id : ℕ
  pub occurred_at : ℕ
  pub action : String
  pub actor : String
  pub subject_type : String
  pub subject_id : String
  pub previous_hash : Option String
  pub details : Json

pub record AuditRecord : Type 0 where
  pub data_of : AuditData
  pub audit_hash : Option String

abbrev pub same_hash : Option String → Option String → Bool
same_hash none none = true
same_hash (some a) (some b) = str_eq a b
same_hash _ _ = false

-- `sha256_json` is the parameter.
module _ (sha256_json : AuditData → String) where
  unfoldable pub sealed : AuditRecord → AuditRecord
  sealed r = record r { audit_hash = some (sha256_json r.data_of) }

  unfoldable pub verify_hash_chain : List AuditRecord → Option String → Bool
  unfolding sealed
  verify_hash_chain [] previous = true
  verify_hash_chain (r ∷ rs) previous =
      let rest : Bool = verify_hash_chain rs r.audit_hash in
      if not (same_hash r.data_of.previous_hash previous)
      then false
      else if not (same_hash (sealed r).audit_hash r.audit_hash)
      then false
      else rest

-- ===== src/Audit/Store.antt =====
-- sidecar/autoskill/db/audit.py: `append_record`, `list_recent` and `verify_chain` of the class
-- AsyncpgAuditStore, with `_verify_recent_segment` and `_workspace_audit_lock_key`.
use skill_kernel.Base.{
  ℕ, ℤ, pos, negsuc, String, str_eq, Bool, ◌&&◌, ◌||◌, List, [], ◌∷◌, ◌++◌, map, Option, none, some,
  ◌==◌, ltb, leb, ◌-◌, ◌/◌, ◌%◌, ◌^◌, min, max, if◌then◌else◌, any, all, take, filterb, reversed,
  distinct_from, Json,
}
use skill_kernel.Jobs.Types.{Workspace, unique_violation, Tx, abort, commit}
use skill_kernel.Jobs.Enqueue.{ensure_workspace}
use skill_kernel.Audit.Chain.{AuditData, AuditRecord, sealed, verify_hash_chain}

-- A row of audit_records.
pub record AuditRow : Type 0 where
  pub workspace_id : ℕ
  pub record_of : AuditRecord

pub record AuditDb : Type 0 where
  pub workspaces : List Workspace
  pub audit_records : List AuditRow

-- The row comes first in `ORDER BY occurred_at DESC, audit_id DESC`.
abbrev pub is_newer : AuditRow → AuditRow → Bool
is_newer a b =
    let x = a.record_of.data_of in
    let y = b.record_of.data_of in
    ltb y.occurred_at x.occurred_at || (x.occurred_at == y.occurred_at && ltb y.audit_id x.audit_id)

unfoldable pub insert_row : AuditRow → List AuditRow → List AuditRow
insert_row r [] = r ∷ []
insert_row r (x ∷ xs) =
    let rest : List AuditRow = insert_row r xs in if is_newer r x then r ∷ x ∷ xs else x ∷ rest

-- `ORDER BY occurred_at DESC, audit_id DESC`
unfoldable pub newest_first : List AuditRow → List AuditRow
newest_first [] = []
newest_first (r ∷ rs) = insert_row r (newest_first rs)

abbrev pub is_of : ℕ → AuditRow → Bool
is_of workspace_id row = row.workspace_id == workspace_id

-- `audit_hash` of the first row of a query, or None without a row.
abbrev pub first_hash : List AuditRow → Option String
first_hash [] = none
first_hash (r ∷ rs) = r.record_of.audit_hash

abbrev pub has_id : ℕ → AuditRow → Bool
has_id audit_id row = row.record_of.data_of.audit_id == audit_id

-- `sha256_json` is the digest, and `jsonb` what a column of that type keeps of a value.
module _ (sha256_json : AuditData → String) (jsonb : Json → Json) where
  -- `record.model_copy(update={"previous_hash": previous_hash}).sealed()`
  unfoldable pub chained : Option String → AuditRecord → AuditRecord
  chained previous r =
      sealed sha256_json (record r { data_of = record r.data_of { previous_hash = previous } })

  -- The row that the INSERT writes, as `_record_from_row` reads it.
  unfoldable pub stored : ℕ → AuditRecord → AuditRow
  stored workspace_id r = record {
    workspace_id = workspace_id;
    record_of = record r { data_of = record r.data_of { details = jsonb r.data_of.details } };
  }

  -- `fresh` is the identifier of the workspace, if it is a new one.
  unfoldable pub append_record : ℕ → AuditRecord → String → AuditDb → Tx (AuditRecord × AuditDb)
  append_record fresh r workspace_key db =
      let (ws, workspaces) = ensure_workspace fresh workspace_key db.workspaces in
      let previous_hash = first_hash (newest_first (filterb (is_of ws) db.audit_records)) in
      let s = chained previous_hash r in
      if any (has_id s.data_of.audit_id) db.audit_records
      then abort unique_violation
      else commit (
        s,
        record { workspaces = workspaces; audit_records = db.audit_records ++ stored ws s ∷ [] },
      )

-- The rows of `JOIN autoskill.workspaces w USING (workspace_id)` with this external key.
abbrev pub is_in : List Workspace → String → AuditRow → Bool
is_in workspaces key row =
    any (λ w. w.id == row.workspace_id && str_eq w.external_key key) workspaces

abbrev pub bounded : ℕ → ℕ
bounded limit = max 1 (min limit 1000)

unfoldable pub list_recent : Option String → ℕ → AuditDb → List AuditRow
list_recent none limit db = take (bounded limit) (newest_first db.audit_records)
list_recent (some key) limit db =
    take (bounded limit) (newest_first (filterb (is_in db.workspaces key) db.audit_records))

abbrev pub first_link : List AuditRow → Option String
first_link [] = none
first_link (r ∷ rs) = r.record_of.data_of.previous_hash

unfoldable pub verify_recent_segment : (AuditData → String) → List AuditRow → Bool
verify_recent_segment sha256_json rows =
    let ordered = reversed rows in
    verify_hash_chain sha256_json (map (λ r. r.record_of) ordered) (first_link ordered)

-- The rows of all workspaces are verified workspace by workspace: `workspace_id` stands for the
-- external key, which is unique.
unfoldable pub verify_chain : (AuditData → String) → Option String → ℕ → AuditDb → Bool
verify_chain sha256_json (some key) limit db =
    verify_recent_segment sha256_json (list_recent (some key) limit db)
verify_chain sha256_json none limit db =
    let rows = list_recent none limit db in
    all (λ ws. verify_recent_segment sha256_json (filterb (is_of ws) rows))
      (distinct_from (λ a b. a == b) [] (map (λ r. r.workspace_id) rows))

-- `_to_signed_int32`, for a value that is not negative.
unfoldable pub to_signed_int32 : ℕ → ℤ
to_signed_int32 value =
    if leb 2147483648 value
    then (if leb 4294967296 value then pos (value - 4294967296) else negsuc (4294967295 - value))
    else pos value

-- `workspace_id.int` is the argument.
unfoldable pub workspace_audit_lock_key : ℕ → ℤ × ℤ
workspace_audit_lock_key value =
    (to_signed_int32 (value / 2 ^ 96 % 2 ^ 32), to_signed_int32 (value % 2 ^ 32))

-- ===== src/Audit/Appending.antt =====
-- An append to the audit table as an append to the chain of its workspace.
use skill_kernel.Base.{
  ℕ, String, true, false, List, [], ◌∷◌, ◌++◌, map, Option, none, some, ◌≡◌, refl, sym, subst, ap,
  ◌∙◌, arith, In, All, All-In, All-of-In, any, filterb, filterb-In, filterb-append, filterb-cong,
  reversed, Json, take, take-rest, reversed-append, str_eq_iff,
}
use skill_kernel.Jobs.Types.{Workspace, commit}
use skill_kernel.Jobs.Enqueue.{ensure_workspace}
use skill_kernel.Audit.Chain.{AuditData, AuditRecord, same_hash, sealed, verify_hash_chain}
use skill_kernel.Audit.Tampering.{head_hash, verify_hash_chain-append}
use skill_kernel.Audit.Store.{
  AuditRow, AuditDb, is_newer, newest_first, is_of, is_in, first_hash, first_link, has_id, chained,
  stored, append_record, bounded, list_recent, verify_recent_segment, verify_chain,
}
use skill_kernel.Audit.Order.{newest_first-append}
use skill_kernel.Audit.Workspaces.{AreDistinct, IsFresh, Owns, ensure_workspace-Owns}

abbrev records : List AuditRow → List AuditRecord
records rows = map (λ r. r.record_of) rows

-- The records of a workspace, the oldest first: what the table is an implementation of.
unfoldable pub chain_of : String → AuditDb → List AuditRecord
chain_of key db =
    records (reversed (newest_first (filterb (is_in db.workspaces key) db.audit_records)))

-- The record is newer than those of the workspace.
abbrev pub IsLatest : AuditRecord → String → AuditDb → Type 0
IsLatest r key db =
    (x : AuditRow)
    → In x db.audit_records
    → is_in db.workspaces key x ≡ true
    → is_newer (record { workspace_id = 0; record_of = r }) x ≡ true

records-snoc :
    (rows : List AuditRow) (r : AuditRow)
    → records (rows ++ r ∷ []) ≡ records rows ++ r.record_of ∷ []
records-snoc [] r = refl
records-snoc (x ∷ xs) r = ap (λ ys. x.record_of ∷ ys) (records-snoc xs r)

head_hash-snoc :
    (a : Option String) (rs : List AuditRecord) (r : AuditRecord)
    → head_hash a (rs ++ r ∷ []) ≡ r.audit_hash
head_hash-snoc a [] r = refl
head_hash-snoc a (x ∷ xs) r = head_hash-snoc x.audit_hash xs r

-- The newest row holds the hash at the end of the chain.
head-first_hash :
    (rows : List AuditRow) → head_hash none (records (reversed rows)) ≡ first_hash rows
head-first_hash [] = refl
head-first_hash (r ∷ rs) =
    ap (head_hash none) (records-snoc (reversed rs) r)
    ∙ head_hash-snoc none (records (reversed rs)) r.record_of

module _ (sha256_json : AuditData → String) (jsonb : Json → Json) where
  stored_lem :
      (ws : ℕ) (r : AuditRecord)
      → jsonb r.data_of.details ≡ r.data_of.details
      → (stored sha256_json jsonb ws r).record_of ≡ r
  unfolding stored
  stored_lem ws r kept = ap (λ d. record r { data_of = record r.data_of { details = d } }) kept

  abbrev own_rows : ℕ → AuditDb → List AuditRow
  own_rows ws db = filterb (is_of ws) db.audit_records

  own_chain :
      (key : String) (db : AuditDb) (w : ℕ × List Workspace)
      → Owns key db w
      → chain_of key db ≡ records (reversed (newest_first (own_rows w.0 db)))
  unfolding chain_of
  own_chain key db w owns =
      ap (λ rows. records (reversed (newest_first rows)))
        (filterb-cong (is_in db.workspaces key) (is_of w.0) db.audit_records owns.0)

  grown_chain :
      (key : String) (db : AuditDb) (w : ℕ × List Workspace) (row : AuditRow)
      → Owns key db w
      → row.workspace_id ≡ w.0
      → All (λ x. is_newer row x ≡ true) (own_rows w.0 db)
      → chain_of key (record { workspaces = w.1; audit_records = db.audit_records ++ row ∷ [] })
        ≡ records (reversed (newest_first (own_rows w.0 db))) ++ row.record_of ∷ []
  unfolding chain_of
  grown_chain key db w row owns of_ws newest =
      let own : filterb (is_of w.0) (row ∷ []) ≡ row ∷ [] =
        let t : is_of w.0 row ≡ true = ground (arith, of_ws) in rw t refl in
      ap (λ rows. records (reversed (newest_first rows)))
        (filterb-cong (is_in w.1 key) (is_of w.0) (db.audit_records ++ row ∷ [])
            (All-of-In (λ x. is_in w.1 key x ≡ is_of w.0 x) _ (λ x m. owns.1 x))
          ∙ filterb-append (is_of w.0) db.audit_records (row ∷ [])
          ∙ ap (λ rows. own_rows w.0 db ++ rows) own)
      ∙ ap (λ rows. records (reversed rows)) (newest_first-append (own_rows w.0 db) row newest)
      ∙ records-snoc (reversed (newest_first (own_rows w.0 db))) row

  -- In a table whose workspaces have distinct identifiers and keys, with a new identifier at hand
  -- for a new workspace, a record whose identifier is new, whose details jsonb keeps and which is
  -- newer than the records of its workspace is stored: as an append to the chain of the workspace
  -- of the record that names the hash at the end of the chain and is sealed, which is returned.
  pub append_record-chain :
      (fresh : ℕ) (r : AuditRecord) (key : String) (db : AuditDb)
      → AreDistinct db.workspaces
      → IsFresh fresh db
      → any (has_id r.data_of.audit_id) db.audit_records ≡ false
      → jsonb r.data_of.details ≡ r.data_of.details
      → IsLatest r key db
      → let s = chained sha256_json jsonb (head_hash none (chain_of key db)) r in
        (db' : AuditDb) × (append_record sha256_json jsonb fresh r key db ≡ commit (s, db'))
        × (chain_of key db' ≡ chain_of key db ++ s ∷ [])
  unfolding append_record chained sealed stored
  append_record-chain fresh r key db apart new unused kept latest =
      let w = ensure_workspace fresh key db.workspaces in
      let owns = ensure_workspace-Owns fresh key db apart new in
      let own = own_chain key db w owns in
      let hash = ap (head_hash none) own ∙ head-first_hash (newest_first (own_rows w.0 db)) in
      let s = chained sha256_json jsonb (head_hash none (chain_of key db)) r in
      let row = stored sha256_json jsonb w.0 s in
      let newest : All (λ x. is_newer row x ≡ true) (own_rows w.0 db) =
        All-of-In (λ x. is_newer row x ≡ true) (own_rows w.0 db)
          (λ x m.
            let (n, t) = filterb-In (is_of w.0) x db.audit_records m in
            latest x n (All-In (λ x. is_in db.workspaces key x ≡ is_of w.0 x) n owns.0 ∙ t)) in
      (
        record { workspaces = w.1; audit_records = db.audit_records ++ row ∷ [] },
        rw (unused, hash) refl,
        grown_chain key db w row owns refl newest
            ∙ ap (λ rs. rs ++ row.record_of ∷ []) (sym own)
            ∙ ap (λ q. chain_of key db ++ q ∷ []) (stored_lem w.0 s kept),
      )

same_hash_refl : (a : Option String) → same_hash a a ≡ true
same_hash_refl none = refl
same_hash_refl (some a) = (str_eq_iff a a).1 refl

-- A later part of a chain verifies from the hash that its first record names.
segment-verified :
    (sha256_json : AuditData → String) (xs ys : List AuditRow) (a : Option String)
    → verify_hash_chain sha256_json (records (xs ++ ys)) a ≡ true
    → verify_hash_chain sha256_json (records ys) (first_link ys) ≡ true
unfolding verify_hash_chain
segment-verified sha256_json [] [] a h = refl
segment-verified sha256_json [] (y ∷ ys) a h =
    ground (arith, same_hash_refl y.record_of.data_of.previous_hash)
segment-verified sha256_json (x ∷ xs) ys a h =
    segment-verified sha256_json xs ys x.record_of.audit_hash (ground arith)

-- If the chain of a workspace verifies, `verify_chain` of that workspace answers true at every
-- limit.
pub verify_chain-true :
    (sha256_json : AuditData → String) (key : String) (limit : ℕ) (db : AuditDb)
    → verify_hash_chain sha256_json (chain_of key db) none ≡ true
    → verify_chain sha256_json (some key) limit db ≡ true
unfolding verify_chain verify_recent_segment list_recent chain_of
verify_chain-true sha256_json key limit db h =
    let rows = newest_first (filterb (is_in db.workspaces key) db.audit_records) in
    let (rest, e) = take-rest (bounded limit) rows in
    let split : reversed rows ≡ reversed rest ++ reversed (take (bounded limit) rows) =
      ap reversed e ∙ reversed-append (take (bounded limit) rows) rest in
    segment-verified sha256_json (reversed rest) (reversed (take (bounded limit) rows)) none
      (subst (λ rs. verify_hash_chain sha256_json (records rs) none ≡ true) split h)

-- Appending keeps the audit trail verifiable: under the conditions of the append to the chain
-- (distinct workspaces, a new identifier, details that jsonb keeps, a record newer than those of
-- its workspace), if the chain of the workspace verifies, then the append commits, the chain
-- verifies afterwards, and `verify_chain` of the workspace answers true at every limit.
pub append_record-verify_chain :
    (sha256_json : AuditData → String) (jsonb : Json → Json) (fresh : ℕ) (r : AuditRecord)
    (key : String) (db : AuditDb)
    → AreDistinct db.workspaces
    → IsFresh fresh db
    → any (has_id r.data_of.audit_id) db.audit_records ≡ false
    → jsonb r.data_of.details ≡ r.data_of.details
    → IsLatest r key db
    → verify_hash_chain sha256_json (chain_of key db) none ≡ true
    → (s : AuditRecord) × (db' : AuditDb) × (append_record sha256_json jsonb fresh r key db
        ≡ commit (s, db'))
      × (verify_hash_chain sha256_json (chain_of key db') none ≡ true)
      × ((limit : ℕ) → verify_chain sha256_json (some key) limit db' ≡ true)
unfolding chained sealed
append_record-verify_chain sha256_json jsonb fresh r key db apart new unused kept latest h =
    let (db', appended, grown) =
      append_record-chain sha256_json jsonb fresh r key db apart new unused kept latest in
    let s = chained sha256_json jsonb (head_hash none (chain_of key db)) r in
    let link = same_hash_refl (head_hash none (chain_of key db)) in
    let seal = same_hash_refl s.audit_hash in
    let after : verify_hash_chain sha256_json (chain_of key db') none ≡ true =
      ap (λ rs. verify_hash_chain sha256_json rs none) grown
      ∙ verify_hash_chain-append sha256_json (chain_of key db) s none
      ∙ rw (h, link, seal) refl in
    (s, db', appended, after, λ limit. verify_chain-true sha256_json key limit db' after)

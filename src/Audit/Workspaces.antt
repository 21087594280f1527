-- ===== src/Audit/Workspaces.antt =====
-- The rows of a workspace, by its key and by its identifier.
use skill_kernel.Base.{
  ℕ, String, str_eq, str_eq_iff, Bool, true, false, List, [], ◌∷◌, ◌++◌, some, ◌≡◌, ◌≢◌, refl, sym,
  subst, ◌∙◌, inl, inr, arith, find?, find?-eq-none, find?-append-none, All-of-In, ==_ne, All,
  All-In, Apart, Apart-snoc, Bool-cases, Option-cases,
}
use skill_kernel.Jobs.Types.{Workspace}
use skill_kernel.Jobs.Enqueue.{ensure_workspace}
use skill_kernel.Audit.Store.{AuditRow, AuditDb, is_of, is_in}

-- Two workspaces have different identifiers and different keys.
abbrev pub IsOther : Workspace → Workspace → Type 0
IsOther a b = ◌≢◌ a.id b.id × ◌≢◌ a.external_key b.external_key

abbrev pub AreDistinct : List Workspace → Type 0
AreDistinct ws = Apart IsOther ws

-- No workspace and no row of the table has the identifier.
abbrev pub IsFresh : ℕ → AuditDb → Type 0
IsFresh fresh db =
    All (λ w. ◌≢◌ w.id fresh) db.workspaces × All (λ x. ◌≢◌ x.workspace_id fresh) db.audit_records

abbrev pub has_external_key : String → Workspace → Bool
has_external_key key w = str_eq w.external_key key

-- Without a workspace of the key there is no row of it.
is_in-none :
    (ws : List Workspace) (key : String) (row : AuditRow)
    → All (λ w. has_external_key key w ≡ false) ws
    → is_in ws key row ≡ false
is_in-none [] key row h = refl
is_in-none (w ∷ ws) key row h = ground (arith, is_in-none ws key row h.1)

others_lack :
    (w : Workspace) (ws : List Workspace) (key : String)
    → has_external_key key w ≡ true
    → All (IsOther w) ws
    → All (λ v. has_external_key key v ≡ false) ws
others_lack w [] key has h = tt
others_lack w (v ∷ vs) key has h = (
  ground (arith, h.0.1, str_eq_iff v.external_key key, str_eq_iff w.external_key key),
  others_lack w vs key has h.1,
)

-- The rows of a key are those of the identifier that it has.
pub is_in-found :
    (ws : List Workspace) (key : String) (w : Workspace) (row : AuditRow)
    → AreDistinct ws
    → find? (has_external_key key) ws ≡ some w
    → is_in ws key row ≡ is_of w.id row
is_in-found [] key w row apart found = cc
is_in-found (v ∷ vs) key w row apart found = elim (Bool-cases (has_external_key key v)) [
  | inl has ↦
      let same : some v ≡ some w = rw has at found in
      let rest = is_in-none vs key row (others_lack v vs key has apart.0) in
      rw (has, rest) (ground arith)
  | inr lacks ↦
      let rest = is_in-found vs key w row apart.1 (rw lacks at found) in
      rw (lacks, rest) (ground arith)
]

-- The identifier is the one to which the rows of the key belonged before, in the table, and to
-- which rows of it belong after.
abbrev pub Owns : String → AuditDb → ℕ × List Workspace → Type 0
Owns key db (ws, workspaces) =
    All (λ x. is_in db.workspaces key x ≡ is_of ws x) db.audit_records
    × ((x : AuditRow) → is_in workspaces key x ≡ is_of ws x)

new_distinct :
    (fresh : ℕ) (key : String) (ws : List Workspace)
    → AreDistinct ws
    → All (λ w. ◌≢◌ w.id fresh) ws
    → All (λ w. has_external_key key w ≡ false) ws
    → AreDistinct (ws ++ record { id = fresh; external_key = key } ∷ [])
new_distinct fresh key ws apart new lacking =
    Apart-snoc IsOther _ ws
      (All-of-In (λ v. IsOther v (record { id = fresh; external_key = key })) ws
        (λ v m. (
          All-In (λ v. ◌≢◌ v.id fresh) m new,
          λ same.
              let f = All-In (λ v. has_external_key key v ≡ false) m lacking in
              let t = (str_eq_iff v.external_key key).1 same in cc,
        )))
      apart

pub ensure_workspace-Owns :
    (fresh : ℕ) (key : String) (db : AuditDb)
    → AreDistinct db.workspaces
    → IsFresh fresh db
    → Owns key db (ensure_workspace fresh key db.workspaces)
unfolding ensure_workspace
ensure_workspace-Owns fresh key db apart new =
    elim (Option-cases (find? (has_external_key key) db.workspaces)) [
      | inl e ↦
          let lacking = find?-eq-none (has_external_key key) db.workspaces e in
          let w : Workspace = record { id = fresh; external_key = key } in
          let made : ensure_workspace fresh key db.workspaces ≡ (fresh, db.workspaces ++ w ∷ []) =
            rw (e, ensure_workspace) refl in
          let own : str_eq key key ≡ true = (str_eq_iff key key).1 refl in
          let found : find? (has_external_key key) (db.workspaces ++ w ∷ []) ≡ some w =
            find?-append-none (has_external_key key) db.workspaces (w ∷ []) e ∙ rw own refl in
          subst (Owns key db) (sym made) (
            All-of-In (λ x. is_in db.workspaces key x ≡ is_of fresh x) db.audit_records
                (λ x m.
                  is_in-none db.workspaces key x lacking
                  ∙ sym (
                      ==_ne x.workspace_id fresh (All-In (λ x. ◌≢◌ x.workspace_id fresh) m new.1))),
            λ x.
                is_in-found (db.workspaces ++ w ∷ []) key w x
                  (new_distinct fresh key db.workspaces apart new.0 lacking) found,
          )
      | inr s ↦
          let kept : ensure_workspace fresh key db.workspaces ≡ (s.0.id, db.workspaces) =
            rw (s.1, ensure_workspace) refl in
          subst (Owns key db) (sym kept) (
            All-of-In (λ x. is_in db.workspaces key x ≡ is_of s.0.id x) db.audit_records
                (λ x m. is_in-found db.workspaces key s.0 x apart s.1),
            λ x. is_in-found db.workspaces key s.0 x apart s.1,
          )
    ]

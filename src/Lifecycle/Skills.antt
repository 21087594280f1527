-- ===== src/Lifecycle/Skills.antt =====
-- sidecar/autoskill/db/lifecycle.py: the methods of class AsyncpgLifecycleStore that change state.
use skill_kernel.Base.{
  ℕ, String, str_eq, Bool, true, false, ◌&&◌, List, [], ◌∷◌, ◌++◌, map, Option, none, some, ◌==◌,
  if◌then◌else◌, any, find?,
}
use skill_kernel.Jobs.Types.{Workspace}
use skill_kernel.Jobs.Enqueue.{ensure_workspace, or_else}

-- A row of `autoskill.skills`, the columns of `SkillLifecycleRecord`.
pub record Skill : Type 0 where
  pub skill_id : ℕ
  pub workspace_id : ℕ
  pub slug : String
  pub lifecycle_state : String
  pub active_version_id : Option ℕ
  pub last_canary_status : Option String
  pub freeze_reason : Option String
  pub frozen_at : Option ℕ
  pub updated_at : ℕ

-- A row of `autoskill.canary_results`; `metrics` is its JSON text.
pub record CanaryResult : Type 0 where
  pub canary_result_id : ℕ
  pub workspace_id : ℕ
  pub skill_id : ℕ
  pub skill_version_id : Option ℕ
  pub evolution_transaction_id : Option ℕ
  pub status : String
  pub critical : Bool
  pub reason : Option String
  pub metrics : String
  pub observed_at : ℕ

pub record LifecycleDb : Type 0 where
  pub workspaces : List Workspace
  pub skills : List Skill
  pub canary_results : List CanaryResult

-- `ValueError`, or a constraint of the database, which rolls the transaction back.
pub data LifecycleError : Type 0 where
  value_error check_violation foreign_key_violation : LifecycleError

pub data Reply {ℓ} (A : Type ℓ) : Type ℓ where
  refused : LifecycleError → Reply A
  done : A → Reply A

infixl 5 ◌>>=◌
abbrev pub ◌>>=◌ {ℓ κ} : {A : Type ℓ} {B : Type κ} → Reply A → (A → Reply B) → Reply B
◌>>=◌ p k = elim p [ refused e ↦ refused e | done a ↦ k a ]

-- What is asked of the governance store, after the transaction is committed. Left out of the calls
-- are the constants and `rollback_action`, which repeats the arguments.
pub data GovernanceCall : Type 0 where
  record_transaction_item :
      (evolution_transaction : ℕ) (item_kind : String) (item_id : ℕ) (activation_state : String)
      → GovernanceCall
  request_revocation :
      (workspace_key : String) (root_transaction : ℕ) (reason : String) → GovernanceCall

-- The CHECK constraint of the table.
abbrev pub lifecycle_states : List String
lifecycle_states =
    "observed_pattern" ∷ "candidate_cluster" ∷ "ephemeral_candidate" ∷ "trial_candidate"
    ∷ "validated_candidate" ∷ "active" ∷ "canary_active" ∷ "archived" ∷ "frozen" ∷ "revoked"
    ∷ "superseded" ∷ "external_readonly" ∷ "candidate" ∷ "quarantined" ∷ "deleted" ∷ []

abbrev pub selects : ℕ → ℕ → Skill → Bool
selects ws id s = (s.workspace_id == ws) && (s.skill_id == id)

-- The SET clause of `_set_skill_lifecycle`; `COALESCE(frozen_at, now())` keeps the first instant.
unfoldable pub moved : ℕ → String → Option String → Option String → Skill → Skill
moved now state canary reason s = record s {
  lifecycle_state = state;
  last_canary_status = canary;
  freeze_reason = reason;
  frozen_at = if str_eq state "frozen" then some (or_else s.frozen_at now) else none;
  updated_at = now;
}

-- The SET clause of `_update_last_canary_status`.
unfoldable pub observed : ℕ → String → Skill → Skill
observed now status s = record s { last_canary_status = some status; updated_at = now }

abbrev pub update : (Skill → Bool) → (Skill → Skill) → List Skill → List Skill
update p f skills = map (λ s. if p s then f s else s) skills

unfoldable pub set_skill_lifecycle :
    ℕ
    → ℕ
    → ℕ
    → String
    → Option String
    → Option String
    → List Skill
    → Reply (Option Skill × List Skill)
set_skill_lifecycle now ws id state canary reason skills = elim (find? (selects ws id) skills) [
  | none ↦ done (none, skills)
  | some s ↦ elim (any (str_eq state) lifecycle_states) [
    | false ↦ refused LifecycleError.check_violation
    | true ↦ done (
      some (moved now state canary reason s),
      update (selects ws id) (moved now state canary reason) skills,
    )
  ]
]

unfoldable pub update_last_canary_status :
    ℕ → ℕ → ℕ → String → List Skill → Option Skill × List Skill
update_last_canary_status now ws id status skills = elim (find? (selects ws id) skills) [
  | none ↦ (none, skills)
  | some s ↦ (some (observed now status s), update (selects ws id) (observed now status) skills)
]

-- `row is not None and evolution_transaction_id is not None and self._governance`
abbrev pub recorded :
    Bool → Option Skill → Option ℕ → (Skill → ℕ → List GovernanceCall) → List GovernanceCall
recorded true (some row) (some txn) calls = calls row txn
recorded _ _ _ _ = []

-- What a method returns, the tables after it, and the calls it makes.
pub record Effect : Type 0 where
  pub skill : Option Skill
  pub db : LifecycleDb
  pub calls : List GovernanceCall

unfoldable pub freeze_skill :
    ℕ → ℕ → Bool → String → ℕ → String → Option ℕ → LifecycleDb → Reply Effect
freeze_skill now fresh governed key id reason txn db =
    let entry : ℕ × List Workspace = ensure_workspace fresh key db.workspaces in
    set_skill_lifecycle now entry.0 id "frozen" (some "critical") (some reason) db.skills >>= λ r.
    done (record {
      skill = r.0;
      db = record db { workspaces = entry.1; skills = r.1 };
      calls =
          recorded governed r.0 txn
            (λ row t. record_transaction_item t "skill_lifecycle" id "frozen" ∷ []);
    })

unfoldable pub unfreeze_skill :
    ℕ → ℕ → Bool → String → ℕ → String → Option ℕ → LifecycleDb → Reply Effect
unfreeze_skill now fresh governed key id target txn db = elim (str_eq target "frozen") [
  | true ↦ refused LifecycleError.value_error
  | false ↦
      let entry : ℕ × List Workspace = ensure_workspace fresh key db.workspaces in
      set_skill_lifecycle now entry.0 id target none none db.skills >>= λ r. done (record {
        skill = r.0;
        db = record db { workspaces = entry.1; skills = r.1 };
        calls =
            recorded governed r.0 txn
              (λ row t. record_transaction_item t "skill_lifecycle" id target ∷ []);
      })
]

-- The arguments of `record_canary_result`, with the identifier that the INSERT generates.
pub record Canary : Type 0 where
  pub canary_id : ℕ
  pub workspace_key : String
  pub skill_id : ℕ
  pub status : String
  pub critical : Bool
  pub reason : Option String
  pub metrics : String
  pub skill_version_id : Option ℕ
  pub evolution_transaction_id : Option ℕ

-- `reason or "critical canary failure"`
abbrev pub reason_of : Option String → String
reason_of none = "critical canary failure"
reason_of (some r) = if str_eq r "" then "critical canary failure" else r

-- The tables that the foreign keys of `autoskill.canary_results` point to.
pub record References : Type 0 where
  pub has_version : ℕ → Bool
  pub has_transaction : ℕ → Bool

abbrev refers : (ℕ → Bool) → Option ℕ → Bool
refers known none = true
refers known (some id) = known id

unfoldable pub insertable : References → Canary → List Skill → Bool
insertable refs c skills =
    any (λ s. s.skill_id == c.skill_id) skills
    && refers refs.has_version c.skill_version_id
    && refers refs.has_transaction c.evolution_transaction_id

abbrev pub canary_row : ℕ → ℕ → Canary → CanaryResult
canary_row now ws c = record {
  canary_result_id = c.canary_id;
  workspace_id = ws;
  skill_id = c.skill_id;
  skill_version_id = c.skill_version_id;
  evolution_transaction_id = c.evolution_transaction_id;
  status = c.status;
  critical = c.critical;
  reason = c.reason;
  metrics = c.metrics;
  observed_at = now;
}

unfoldable pub after_canary : ℕ → ℕ → Canary → List Skill → Reply (Option Skill × List Skill)
after_canary now ws c skills = elim c.critical [
  | true ↦
      set_skill_lifecycle now ws c.skill_id "frozen" (some c.status) (some (reason_of c.reason))
        skills
  | false ↦ done (update_last_canary_status now ws c.skill_id c.status skills)
]

-- The item is recorded first; a critical canary then asks for the rollback.
unfoldable pub canary_calls : Canary → Skill → ℕ → List GovernanceCall
canary_calls c row txn =
    if c.critical
    then record_transaction_item txn "canary_result" c.canary_id "frozen"
      ∷ request_revocation c.workspace_key txn (reason_of c.reason)
      ∷ []
    else record_transaction_item txn "canary_result" c.canary_id row.lifecycle_state ∷ []

unfoldable pub record_canary_result :
    References → ℕ → ℕ → Bool → Canary → LifecycleDb → Reply Effect
record_canary_result refs now fresh governed c db =
    let entry : ℕ × List Workspace = ensure_workspace fresh c.workspace_key db.workspaces in
    elim (insertable refs c db.skills) [
      | false ↦ refused LifecycleError.foreign_key_violation
      | true ↦ after_canary now entry.0 c db.skills >>= λ r. done (record {
        skill = r.0;
        db = record {
          workspaces = entry.1;
          skills = r.1;
          canary_results = db.canary_results ++ canary_row now entry.0 c ∷ [];
        };
        calls = recorded governed r.0 c.evolution_transaction_id (canary_calls c);
      })
    ]

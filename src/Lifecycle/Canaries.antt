-- ===== src/Lifecycle/Canaries.antt =====
-- What `record_canary_result` does to skills and asks of governance.
use skill_kernel.Base.{
  ℕ, String, str_eq, Bool, true, false, List, [], ◌∷◌, map, Option, none, some, ◌≡◌, refl, sym, ap,
  subst, ◌∙◌, find?, inl, inr, ◌⊎◌, ◌&&◌, not, is_some, filterb, All, Bool-cases, Option-cases,
}
use skill_kernel.Jobs.Enqueue.{ensure_workspace}
use skill_kernel.Lifecycle.Skills.{
  Skill, LifecycleDb, LifecycleError, Reply, refused, done, ◌>>=◌, record_transaction_item,
  request_revocation, Effect, Canary, References, selects, moved, observed, update,
  set_skill_lifecycle, update_last_canary_status, insertable, after_canary, canary_calls, recorded,
  record_canary_result, reason_of,
}

abbrev Found : Type 0
Found = Option Skill × List Skill

done_parts :
    {B : Type 0} (m : Reply Found) (k : Found → Reply B) {b : B}
    → (m >>= k) ≡ done b
    → (a : Found) × (m ≡ done a) × (k a ≡ done b)
done_parts (refused e) k h = cc
done_parts (done a) k h = (a, refl, h)

done_found : {a b : Found} → done a ≡ done b → a ≡ b
done_found h = cc

done_effect : {a b : Effect} → done a ≡ done b → a ≡ b
done_effect h = cc

refused-done {ℓ} :
    {B : Type 0} {C : Type ℓ} {x : LifecycleError} {b : B}
    → ◌≡◌ {A = Reply B} (refused x) (done b)
    → C
refused-done h = cc

-- An UPDATE by workspace and identifier.
module _ (p : Skill → Bool) (f : Skill → Skill) (same : (s : Skill) → p (f s) ≡ p s) where
  -- No row is selected, so none changes.
  update-nothing : (skills : List Skill) → find? p skills ≡ none → update p f skills ≡ skills
  update-nothing [] e = refl
  update-nothing (s ∷ ss) e = elim (Bool-cases (p s)) [
    | inl yes_s ↦ let h : some s ≡ none = rw yes_s at e in cc
    | inr no_s ↦ rw (no_s, update-nothing ss (rw no_s at e)) refl
  ]

  -- It is the changed row that is found afterwards.
  find?-update :
      (skills : List Skill) (s : Skill)
      → find? p skills ≡ some s
      → find? p (update p f skills) ≡ some (f s)
  find?-update [] s e = cc
  find?-update (t ∷ ts) s e = elim (Bool-cases (p t)) [
    | inl yes_t ↦
        let changed : p (f t) ≡ true = same t ∙ yes_t in
        let h : some t ≡ some s = rw yes_t at e in
        let found : t ≡ s = cc in rw yes_t (rw changed (ap (λ x. some (f x)) found))
    | inr no_t ↦ rw no_t (rw no_t (find?-update ts s (rw no_t at e)))
  ]

  -- The rows that are not selected are the ones from before.
  others-update :
      (skills : List Skill)
      → filterb (λ s. not (p s)) (update p f skills) ≡ filterb (λ s. not (p s)) skills
  others-update [] = refl
  others-update (s ∷ ss) = elim (Bool-cases (p s)) [
    | inl yes_s ↦
        let changed : p (f s) ≡ true = same s ∙ yes_s in rw yes_s (rw changed (others-update ss))
    | inr no_s ↦ rw no_s (rw no_s (ap (λ rest. s ∷ rest) (others-update ss)))
  ]

  -- The rows that are selected are changed ones.
  chosen-update {ℓ} :
      (Q : Skill → Type ℓ) (skills : List Skill)
      → ((s : Skill) → Q (f s))
      → All Q (filterb p (update p f skills))
  chosen-update Q [] h = tt
  chosen-update Q (s ∷ ss) h = elim (Bool-cases (p s)) [
    | inl yes_s ↦
        let changed : p (f s) ≡ true = same s ∙ yes_s in
        rw yes_s (rw changed (h s, chosen-update Q ss h))
    | inr no_s ↦ rw no_s (rw no_s (chosen-update Q ss h))
  ]

selects-moved :
    (now ws id : ℕ) (state : String) (canary reason : Option String) (s : Skill)
    → selects ws id (moved now state canary reason s) ≡ selects ws id s
unfolding moved
selects-moved now ws id state canary reason s = refl

selects-observed :
    (now ws id : ℕ) (status : String) (s : Skill)
    → selects ws id (observed now status s) ≡ selects ws id s
unfolding observed
selects-observed now ws id status s = refl

-- Freezing updates the row of the skill and returns it.
set_skill_lifecycle-frozen :
    (now ws id : ℕ) (canary reason : Option String) (skills : List Skill) (r : Found)
    → set_skill_lifecycle now ws id "frozen" canary reason skills ≡ done r
    → (r.1 ≡ update (selects ws id) (moved now "frozen" canary reason) skills)
      × (r.0 ≡ find? (selects ws id) r.1)
unfolding set_skill_lifecycle
set_skill_lifecycle-frozen now ws id canary reason skills r h =
    elim (Option-cases (find? (selects ws id) skills)) [
      | inl e ↦
          let same : (none, skills) ≡ r = done_found (rw (e, set_skill_lifecycle) at h) in
          let kept = update-nothing p f moves skills e in
          subst (λ r. (r.1 ≡ update p f skills) × (r.0 ≡ find? p r.1)) same (sym kept, sym e)
      | inr (s, e) ↦
          let same : (some (f s), update p f skills) ≡ r =
            done_found (rw (e, set_skill_lifecycle) at h) in
          subst (λ r. (r.1 ≡ update p f skills) × (r.0 ≡ find? p r.1)) same
            (refl, sym (find?-update p f moves skills s e))
    ]
  where
    p : Skill → Bool
    p = selects ws id

    f : Skill → Skill
    f = moved now "frozen" canary reason

    moves : (s : Skill) → p (f s) ≡ p s
    moves = selects-moved now ws id "frozen" canary reason

-- What a canary that was recorded has done.
module _ (refs : References) (now fresh : ℕ) (governed : Bool) (c : Canary) (db : LifecycleDb)
    (e : Effect) (ran : record_canary_result refs now fresh governed c db ≡ done e) where
  canary-parts :
      (r : Found) × (after_canary now
          (ensure_workspace fresh c.workspace_key db.workspaces).0
          c
          db.skills
        ≡ done r)
      × (r.0 ≡ e.skill)
      × (r.1 ≡ e.db.skills)
      × (recorded governed r.0 c.evolution_transaction_id (canary_calls c) ≡ e.calls)
  unfolding record_canary_result
  canary-parts = elim (Bool-cases (insertable refs c db.skills)) [
    | inr bad ↦ refused-done (rw (bad, record_canary_result) at ran)
    | inl ok ↦
        let (r, m, k) =
          done_parts
            (after_canary now (ensure_workspace fresh c.workspace_key db.workspaces).0 c db.skills)
            _ (rw (ok, record_canary_result) at ran) in
        let same : _ ≡ e = done_effect k in
        (r, m, ap (λ x. x.skill) same, ap (λ x. x.db.skills) same, ap (λ x. x.calls) same)
  ]

same_states :
    (p : Skill → Bool) (now : ℕ) (status : String) (skills : List Skill)
    → (map (λ s. s.lifecycle_state) (update p (observed now status) skills)
        ≡ map (λ s. s.lifecycle_state) skills)
      × (map (λ s. s.frozen_at) (update p (observed now status) skills)
          ≡ map (λ s. s.frozen_at) skills)
unfolding observed
same_states p now status [] = (refl, refl)
same_states p now status (s ∷ ss) =
    let (states, instants) = same_states p now status ss in
    elim (Bool-cases (p s)) [
      | inl yes_s ↦ (rw (yes_s, states) refl, rw (yes_s, instants) refl)
      | inr no_s ↦ (rw (no_s, states) refl, rw (no_s, instants) refl)
    ]

abbrev pub SameStates : List Skill → List Skill → Type 0
SameStates before after =
    (map (λ s. s.lifecycle_state) after ≡ map (λ s. s.lifecycle_state) before)
    × (map (λ s. s.frozen_at) after ≡ map (λ s. s.frozen_at) before)

observed_keeps :
    (now ws id : ℕ) (status : String) (skills : List Skill)
    → SameStates skills (update_last_canary_status now ws id status skills).1
unfolding update_last_canary_status
observed_keeps now ws id status skills = elim (Option-cases (find? (selects ws id) skills)) [
  | inl e ↦ rw (e, update_last_canary_status) (refl, refl)
  | inr (s, e) ↦ rw (e, update_last_canary_status) (same_states (selects ws id) now status skills)
]

update_last_canary_status-found :
    (now ws id : ℕ) (status : String) (skills : List Skill)
    → let r = update_last_canary_status now ws id status skills in r.0 ≡ find? (selects ws id) r.1
unfolding update_last_canary_status
update_last_canary_status-found now ws id status skills =
    elim (Option-cases (find? (selects ws id) skills)) [
      | inl e ↦ rw (e, update_last_canary_status) (sym e)
      | inr (s, e) ↦
          rw (e, update_last_canary_status)
            (sym (
              find?-update (selects ws id) (observed now status) (selects-observed now ws id status)
                skills s e))
    ]

abbrev pub is_frozen : Skill → Bool
is_frozen s = str_eq s.lifecycle_state "frozen" && is_some s.frozen_at

-- Every row that is selected is frozen, and the other rows are as before.
abbrev pub Freezes : (Skill → Bool) → List Skill → List Skill → Type 0
Freezes p before after =
    All (λ s. is_frozen s ≡ true) (filterb p after)
    × (filterb (λ s. not (p s)) after ≡ filterb (λ s. not (p s)) before)

moved-frozen :
    (now : ℕ) (canary reason : Option String) (s : Skill)
    → is_frozen (moved now "frozen" canary reason s) ≡ true
unfolding moved
moved-frozen now canary reason s = refl

-- A canary that is recorded returns the row that the table of skills afterwards has for its workspace
-- and skill, if there is one. A critical canary leaves every such row frozen with its instant and the
-- rows of other skills as they were, and where a governance store, a transaction and that row are
-- there it asks first to record the frozen item and then to roll the transaction back. A canary that
-- is not critical changes neither the lifecycle state nor the freezing instant of any skill.
pub record_canary_result-skills :
    (refs : References) (now fresh : ℕ) (governed : Bool) (c : Canary) (db : LifecycleDb)
    (e : Effect)
    → record_canary_result refs now fresh governed c db ≡ done e
    → let p = selects (ensure_workspace fresh c.workspace_key db.workspaces).0 c.skill_id in
      (e.skill ≡ find? p e.db.skills)
      × ((c.critical ≡ true)
            × Freezes p db.skills e.db.skills
            × (e.calls
                ≡ recorded governed (find? p e.db.skills) c.evolution_transaction_id (λ row t.
                  record_transaction_item t "canary_result" c.canary_id "frozen"
                  ∷ request_revocation c.workspace_key t (reason_of c.reason)
                  ∷ []))
          ⊎ (c.critical ≡ false) × SameStates db.skills e.db.skills)
unfolding after_canary canary_calls
record_canary_result-skills refs now fresh governed c db e ran =
    let (r, m, a, b, d) = canary-parts refs now fresh governed c db e ran in
    elim (Bool-cases c.critical) [
      | inl critical ↦
          let (rows, returned) =
            set_skill_lifecycle-frozen now ws c.skill_id (some c.status) (some (reason_of c.reason))
              db.skills r (rw critical at m) in
          let after : update p f db.skills ≡ e.db.skills = sym rows ∙ b in
          let found : r.0 ≡ find? p e.db.skills = returned ∙ ap (find? p) b in
          (
            sym a ∙ found,
            inl (
              critical,
              subst (Freezes p db.skills) after (
                chosen-update p f moves (λ s. is_frozen s ≡ true) db.skills
                    (moved-frozen now (some c.status) (some (reason_of c.reason))),
                others-update p f moves db.skills,
              ),
              sym d ∙ rw (critical, found) refl,
            ),
          )
      | inr harmless ↦
          let same : update_last_canary_status now ws c.skill_id c.status db.skills ≡ r =
            done_found (rw harmless at m) in
          (
            sym a
                ∙ subst (λ r. r.0 ≡ find? p r.1) same
                    (update_last_canary_status-found now ws c.skill_id c.status db.skills)
                ∙ ap (find? p) b,
            inr (
              harmless,
              subst (SameStates db.skills) (ap (λ x. x.1) same ∙ b)
                  (observed_keeps now ws c.skill_id c.status db.skills),
            ),
          )
    ]
  where
    ws : ℕ
    ws = (ensure_workspace fresh c.workspace_key db.workspaces).0

    p : Skill → Bool
    p = selects ws c.skill_id

    f : Skill → Skill
    f = moved now "frozen" (some c.status) (some (reason_of c.reason))

    moves : (s : Skill) → p (f s) ≡ p s
    moves = selects-moved now ws c.skill_id "frozen" (some c.status) (some (reason_of c.reason))

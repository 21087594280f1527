-- ===== src/Lifecycle/Frozen.antt =====
-- A skill is frozen since an instant exactly where its state says so.
use skill_kernel.Base.{
  ℕ, String, str_eq, Bool, true, false, List, [], ◌∷◌, Option, none, some, ◌≡◌, refl, arith, any,
  find?, is_some, All, if◌then◌else◌, inl, inr, Bool-cases,
}
use skill_kernel.Jobs.Enqueue.{ensure_workspace}
use skill_kernel.Lifecycle.Skills.{
  Skill, LifecycleDb, Reply, refused, done, ◌>>=◌, Effect, Canary, References, selects, moved,
  observed, update, set_skill_lifecycle, update_last_canary_status, freeze_skill, unfreeze_skill,
  insertable, after_canary, record_canary_result, reason_of, lifecycle_states,
}

abbrev pub IsFrozenSince : Skill → Type 0
IsFrozenSince s = is_some s.frozen_at ≡ str_eq s.lifecycle_state "frozen"

moved-IsFrozenSince :
    (now : ℕ) (state : String) (canary reason : Option String) (s : Skill)
    → IsFrozenSince (moved now state canary reason s)
unfolding moved
moved-IsFrozenSince now state canary reason s = ground arith

All-update :
    (p : Skill → Bool) (f : Skill → Skill)
    → ((s : Skill) → IsFrozenSince s → IsFrozenSince (f s))
    → (skills : List Skill) → All IsFrozenSince skills
    → All IsFrozenSince (update p f skills)
All-update p f h [] k = tt
All-update p f h (s ∷ ss) k = (kept (p s), All-update p f h ss k.1)
  where
    kept : (b : Bool) → IsFrozenSince (if b then f s else s)
    kept true = h s k.0
    kept false = k.0

-- What holds of the tables after a reply.
abbrev pub OnDone {ℓ} : {A : Type 0} → (A → Type ℓ) → Reply A → Type ℓ
OnDone P (done a) = P a
OnDone P (refused e) = Unit

OnDone->>= :
    {A B : Type 0} (P : A → Type 0) (Q : B → Type 0) (m : Reply A) (k : A → Reply B)
    → OnDone P m
    → ((a : A) → P a → OnDone Q (k a))
    → OnDone Q (m >>= k)
OnDone->>= P Q (done a) k h f = f a h
OnDone->>= P Q (refused e) k h f = tt

abbrev SkillsAreValid : Option Skill × List Skill → Type 0
SkillsAreValid r = All IsFrozenSince r.1

set_skill_lifecycle-valid :
    (now ws id : ℕ) (state : String) (canary reason : Option String) (skills : List Skill)
    → All IsFrozenSince skills
    → OnDone SkillsAreValid (set_skill_lifecycle now ws id state canary reason skills)
unfolding set_skill_lifecycle
set_skill_lifecycle-valid now ws id state canary reason skills h =
    go (find? (selects ws id) skills) (any (str_eq state) lifecycle_states) refl refl
  where
    go :
        (o : Option Skill) (b : Bool)
        → find? (selects ws id) skills ≡ o
        → any (str_eq state) lifecycle_states ≡ b
        → OnDone SkillsAreValid (set_skill_lifecycle now ws id state canary reason skills)
    go none b e f = rw (e, set_skill_lifecycle, OnDone) h
    go (some s) true e f =
        rw (e, f, set_skill_lifecycle, OnDone)
          (All-update (selects ws id) (moved now state canary reason)
            (λ s' k. moved-IsFrozenSince now state canary reason s') skills h)
    go (some s) false e f = rw (e, f, set_skill_lifecycle, OnDone) tt

update_last_canary_status-valid :
    (now ws id : ℕ) (status : String) (skills : List Skill)
    → All IsFrozenSince skills
    → SkillsAreValid (update_last_canary_status now ws id status skills)
unfolding update_last_canary_status observed
update_last_canary_status-valid now ws id status skills h = go (find? (selects ws id) skills) refl
  where
    go :
        (o : Option Skill)
        → find? (selects ws id) skills ≡ o
        → SkillsAreValid (update_last_canary_status now ws id status skills)
    go none e = rw (e, update_last_canary_status) h
    go (some s) e =
        rw (e, update_last_canary_status)
          (All-update (selects ws id) (observed now status) (λ s' k. k) skills h)

after_canary-valid :
    (now ws : ℕ) (c : Canary) (skills : List Skill)
    → All IsFrozenSince skills
    → OnDone SkillsAreValid (after_canary now ws c skills)
unfolding after_canary
after_canary-valid now ws c skills h = elim (Bool-cases c.critical) [
  | inl e ↦
      rw (e, after_canary, OnDone)
        (set_skill_lifecycle-valid now ws c.skill_id "frozen" (some c.status)
          (some (reason_of c.reason)) skills h)
  | inr e ↦
      rw (e, after_canary, OnDone)
        (update_last_canary_status-valid now ws c.skill_id c.status skills h)
]

abbrev pub EffectIsValid : Effect → Type 0
EffectIsValid e = All IsFrozenSince e.db.skills

-- A call of the store, with its arguments.
pub data LifecycleCall : Type 0 where
  freeze : (key : String) (id : ℕ) (reason : String) (txn : Option ℕ) → LifecycleCall
  unfreeze : (key : String) (id : ℕ) (target : String) (txn : Option ℕ) → LifecycleCall
  canary : (refs : References) (c : Canary) → LifecycleCall

unfoldable pub perform : ℕ → ℕ → Bool → LifecycleCall → LifecycleDb → Reply Effect
perform now fresh governed (freeze key id reason txn) db =
    freeze_skill now fresh governed key id reason txn db
perform now fresh governed (unfreeze key id target txn) db =
    unfreeze_skill now fresh governed key id target txn db
perform now fresh governed (canary refs c) db = record_canary_result refs now fresh governed c db

-- Every call that succeeds keeps the skills consistent: a skill has an instant since which it is
-- frozen exactly if its lifecycle state is frozen.
pub perform-IsFrozenSince :
    (now fresh : ℕ) (governed : Bool) (call : LifecycleCall) (db : LifecycleDb)
    → All IsFrozenSince db.skills
    → OnDone EffectIsValid (perform now fresh governed call db)
unfolding perform freeze_skill unfreeze_skill record_canary_result
perform-IsFrozenSince now fresh governed (freeze key id reason txn) db h =
    OnDone->>= SkillsAreValid EffectIsValid _ _
      (set_skill_lifecycle-valid now (ensure_workspace fresh key db.workspaces).0 id "frozen"
        (some "critical") (some reason) db.skills h)
      (λ r k. k)
perform-IsFrozenSince now fresh governed (unfreeze key id target txn) db h =
    elim (Bool-cases (str_eq target "frozen")) [
      | inl e ↦ rw (e, unfreeze_skill, OnDone) tt
      | inr e ↦
          rw (e, unfreeze_skill, OnDone)
            (OnDone->>= SkillsAreValid EffectIsValid _ _
              (set_skill_lifecycle-valid now (ensure_workspace fresh key db.workspaces).0 id target
                none none db.skills h)
              (λ r k. k))
    ]
perform-IsFrozenSince now fresh governed (canary refs c) db h =
    elim (Bool-cases (insertable refs c db.skills)) [
      | inr e ↦ rw (e, record_canary_result, OnDone) tt
      | inl e ↦
          rw (e, record_canary_result, OnDone)
            (OnDone->>= SkillsAreValid EffectIsValid _ _
              (after_canary-valid now (ensure_workspace fresh c.workspace_key db.workspaces).0 c
                db.skills h)
              (λ r k. k))
    ]

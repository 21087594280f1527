-- ===== src/Lifecycle/Tests.antt =====
-- A skill, a critical and a harmless canary, and the theorems at them.
use skill_kernel.Base.{Bool, true, false, [], ◌∷◌, none, some, ◌≡◌, refl, find?, ◌⊎◌}
use skill_kernel.Jobs.Enqueue.{ensure_workspace}
use skill_kernel.Lifecycle.Skills.{
  Skill, LifecycleDb, Reply, refused, done, record_transaction_item, request_revocation, Effect,
  Canary, References, selects, moved, set_skill_lifecycle, insertable, after_canary, canary_calls,
  record_canary_result,
}
use skill_kernel.Lifecycle.Frozen.{OnDone, EffectIsValid, canary, perform, perform-IsFrozenSince}
use skill_kernel.Lifecycle.Canaries.{Freezes, SameStates, record_canary_result-skills}

abbrev skill : Skill
skill = record {
  skill_id = 7;
  workspace_id = 1;
  slug = "deploy";
  lifecycle_state = "canary_active";
  active_version_id = none;
  last_canary_status = none;
  freeze_reason = none;
  frozen_at = none;
  updated_at = 10;
}

abbrev db : LifecycleDb
db = record {
  workspaces = record { id = 1; external_key = "main" } ∷ [];
  skills = skill ∷ [];
  canary_results = [];
}

abbrev refs : References
refs = record { has_version = λ id. true; has_transaction = λ id. true }

abbrev canary_of : Bool → Canary
canary_of critical = record {
  canary_id = 20;
  workspace_key = "main";
  skill_id = 7;
  status = "failed";
  critical = critical;
  reason = some "";
  metrics = "{}";
  skill_version_id = none;
  evolution_transaction_id = some 3;
}

abbrev effect_in : Reply Effect → Effect
effect_in (done e) = e
effect_in (refused x) = record { skill = none; db = db; calls = [] }

abbrev critical_effect : Effect
critical_effect = effect_in (record_canary_result refs 50 90 true (canary_of true) db)

abbrev harmless_effect : Effect
harmless_effect = effect_in (record_canary_result refs 50 90 true (canary_of false) db)

abbrev frozen_skill : Skill
frozen_skill = record skill {
  lifecycle_state = "frozen";
  last_canary_status = some "failed";
  freeze_reason = some "critical canary failure";
  frozen_at = some 50;
  updated_at = 50;
}

record_canary_result-skills_example :
    (some frozen_skill ≡ find? (selects 1 7) critical_effect.db.skills)
    × ((true ≡ true)
          × Freezes (selects 1 7) db.skills critical_effect.db.skills
          × (critical_effect.calls
              ≡ record_transaction_item 3 "canary_result" 20 "frozen"
                ∷ request_revocation "main" 3 "critical canary failure"
                ∷ [])
        ⊎ (true ≡ false) × SameStates db.skills critical_effect.db.skills)
unfolding record_canary_result insertable after_canary set_skill_lifecycle moved canary_calls
    ensure_workspace
record_canary_result-skills_example =
    record_canary_result-skills refs 50 90 true (canary_of true) db critical_effect refl

perform-IsFrozenSince_example :
    OnDone EffectIsValid (perform 50 90 true (canary refs (canary_of true)) db)
perform-IsFrozenSince_example =
    perform-IsFrozenSince 50 90 true (canary refs (canary_of true)) db (refl, tt)

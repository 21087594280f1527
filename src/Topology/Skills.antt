-- ===== src/Topology/Skills.antt =====
-- `EffectSignature` of sidecar/autoskill/core/skillir.py, and `TopologySkill`, `_effect_terms` and
-- `_union_effect_terms` of sidecar/autoskill/services/topology.py.
use skill_kernel.Base.{
  ℕ, String, str_eq, not, List, [], ◌++◌, map, Option, filterb, concat_map, distinct_from, strip,
  is_blank,
}

pub data Idempotency : Type 0 where
  idempotent retry_safe not_retry_safe unknown : Idempotency

pub record EffectSignature : Type 0 where
  pub outputs : List String
  pub effects : List String
  pub state_delta : List String
  pub side_effects : List String
  pub termination : List String
  pub idempotency : Idempotency
  pub unsafe_when : List String
  pub failure_modes : List String

pub record TopologySkill : Type 0 where
  pub slug : String
  pub effects : EffectSignature
  pub skill_id : Option ℕ

-- `{value.strip() for value in values if value.strip()}`
unfoldable pub stripped : List String → List String
stripped values = distinct_from str_eq [] (filterb (λ t. not (is_blank t)) (map strip values))

unfoldable pub effect_terms : EffectSignature → List String
effect_terms e = stripped (e.outputs ++ (e.effects ++ (e.state_delta ++ e.termination)))

-- The terms of a skill.
abbrev pub terms : TopologySkill → List String
terms skill = effect_terms skill.effects

unfoldable pub union_effect_terms : List TopologySkill → List String
union_effect_terms skills = distinct_from str_eq [] (concat_map terms skills)

-- ===== src/Topology/Blockers.antt =====
-- sidecar/autoskill/services/topology.py: what blocks a proposal, the helpers from
-- `_canonical_evidence_fidelity` to `_composition_contract_blockers` and `_rollback_blockers`.
use Prim.Native.String.{◌++◌ as append_text}
use skill_kernel.Base.{
  ℕ, String, str_eq, List, [], ◌∷◌, ◌++◌, map, Option, none, some, ltb, if◌then◌else◌, length,
  find?, filterb, countb, concat_map, distinct_from, member, minus, sorted, is_blank, is_some, not,
}
use skill_kernel.Topology.Skills.{EffectSignature, TopologySkill, stripped}

-- The fields that `_composition_contract_blockers` compares.
pub data ContractField : Type 0 where
  state_delta side_effects unsafe_when termination : ContractField

-- The messages, each by its place in the code and what it is formatted with.
pub data Blocker : Type 0 where
  lacks_effect lacks_evidence lacks_reason too_few lacks_overlap : Blocker
  too_many : ℕ → Blocker
  duplicate : String → Blocker
  low_fidelity : String → String → Blocker
  effect_lost : String → Blocker
  effect_uncovered : String → Blocker
  unresolved : String → String → Blocker
  undisclosed : String → ContractField → String → Blocker

abbrev pub low_topology_evidence_fidelity : List String
low_topology_evidence_fidelity = "metadata_only" ∷ "hash_only" ∷ "unavailable" ∷ []

abbrev pub other_topology_evidence_fidelity : List String
other_topology_evidence_fidelity =
    "raw_vault_linked" ∷ "declassified_summary" ∷ "redacted_derivative" ∷ []

-- `str(value or "unavailable")`, if it is one of the six.
unfoldable pub canonical_evidence_fidelity : String → String
canonical_evidence_fidelity value =
    let fidelity : String = if is_blank value then "unavailable" else value in
    if member fidelity (low_topology_evidence_fidelity ++ other_topology_evidence_fidelity)
    then fidelity
    else "unavailable"

-- The dict of the request, None included. A dict is looked up, so its order is left as it is.
unfoldable pub canonical_evidence_fidelity_map :
    Option (List (String × String)) → List (String × String)
canonical_evidence_fidelity_map none = []
canonical_evidence_fidelity_map (some m) = map (λ kv. (kv.0, canonical_evidence_fidelity kv.1)) m

-- `fidelity_by_id.get(evidence_id, "unavailable")`
unfoldable pub fidelity_of : String → List (String × String) → String
fidelity_of evidence_id m = elim (find? (λ kv. str_eq kv.0 evidence_id) m) [
  | none ↦ "unavailable"
  | some kv ↦ kv.1
]

unfoldable pub evidence_fidelity_blockers :
    List String → Option (List (String × String)) → List Blocker
evidence_fidelity_blockers evidence_ids m =
    let fidelity_by_id = canonical_evidence_fidelity_map m in
    map (λ i. low_fidelity i (fidelity_of i fidelity_by_id))
      (filterb (λ i. member (fidelity_of i fidelity_by_id) low_topology_evidence_fidelity)
        evidence_ids)

abbrev pub slugs : List TopologySkill → List String
slugs skills = map (λ s. s.slug) skills

unfoldable pub bounded_component_blockers : List TopologySkill → ℕ → List Blocker
bounded_component_blockers skills max_count =
    (if ltb (length skills) 2 then too_few ∷ [] else [])
    ++ ((if ltb max_count (length skills) then too_many max_count ∷ [] else [])
        ++ map duplicate (
            sorted (
              distinct_from str_eq []
                (filterb (λ s. ltb 1 (countb (λ t. str_eq t s) (slugs skills))) (slugs skills)))))

-- `getattr(effects, field_name)`
abbrev pub field_of : ContractField → EffectSignature → List String
field_of ContractField.state_delta e = e.state_delta
field_of ContractField.side_effects e = e.side_effects
field_of ContractField.unsafe_when e = e.unsafe_when
field_of ContractField.termination e = e.termination

abbrev pub checks : List ContractField
checks =
    ContractField.state_delta ∷ ContractField.side_effects ∷ ContractField.unsafe_when
    ∷ ContractField.termination ∷ []

-- What the component does and the composed output does not say, of one field.
unfoldable pub hidden_values : ContractField → TopologySkill → TopologySkill → List String
hidden_values f component output =
    sorted (minus (stripped (field_of f component.effects)) (stripped (field_of f output.effects)))

unfoldable pub composition_contract_blockers : List TopologySkill → TopologySkill → List Blocker
composition_contract_blockers components composed_output =
    concat_map
      (λ c. concat_map (λ f. map (undisclosed c.slug f) (hidden_values f c composed_output)) checks)
      components

unfoldable pub rollback_blockers : List TopologySkill → List String
rollback_blockers skills =
    map (λ s. append_text s.slug " has no stable skill_id for rollback anchoring")
      (filterb (λ s. not (is_some s.skill_id)) skills)

-- ===== src/Topology/Compositions.antt =====
-- What a composition that is a candidate satisfies.
use skill_kernel.Base.{
  String, true, not, List, [], ◌∷◌, ◌++◌, map, ◌≡◌, refl, sym, subst, ap, inl, inr, ◌≤◌, length, In,
  here, there, All, All-append, All-of-In, is_empty, member, member-In, common, sorted, In-sorted,
  In-filterb, In-map, map-In, In-append-left, In-append-right, In-concat_map, concat_map,
  is_empty-append-left, is_empty-append-right, is_empty→nil, Bool-cases, returned, is_some,
}
use skill_kernel.Topology.Skills.{TopologySkill, terms, stripped, union_effect_terms}
use skill_kernel.Topology.Graph.{
  SkillGraphEdge, SkillGraphIr, SkillGraphNode, OperationKind, OperationRole, node, slugs_of,
}
use skill_kernel.Topology.Blockers.{
  Blocker, ContractField, checks, field_of, hidden_values, undisclosed, lacks_overlap,
  composition_contract_blockers, bounded_component_blockers, rollback_blockers,
}
use skill_kernel.Topology.Requests.{ComposeTopologyRequest, TopologyProposalResult, candidate}
use skill_kernel.Topology.Proposals.{
  block_if, evidence_blockers, propose_composition, component_edge, covering,
}
use skill_kernel.Topology.Links.{IsLinked, AreProvided, link_components-returned}
use skill_kernel.Topology.Evidence.{
  IsAdequate, AreDistinct, evidence_blockers-Adequate, bounded-Distinct,
}
use skill_kernel.Topology.Candidates.{
  validate-linked, proposal-answer, answer-candidate, answer-graph, answer,
}

-- The output states what the components change, their side effects, when they are unsafe and how
-- they end.
abbrev pub Discloses : TopologySkill → TopologySkill → Type 0
Discloses output component =
    (f : ContractField) (v : String)
    → In v (stripped (field_of f component.effects))
    → In v (stripped (field_of f output.effects))

abbrev pub IsSafeComposition : ComposeTopologyRequest → Type 0
IsSafeComposition r =
    (2 ≤ length r.components)
    × (length r.components ≤ r.max_components)
    × AreDistinct r.components
    × IsAdequate r.evidence_ids r.evidence_fidelity_by_id
    × All (Discloses r.composed_output) r.components
    × AreProvided r [] r.components

In-checks : (f : ContractField) → In f checks
In-checks ContractField.state_delta = here
In-checks ContractField.side_effects = there here
In-checks ContractField.unsafe_when = there (there here)
In-checks ContractField.termination = there (there (there here))

contract-Discloses :
    (cs : List TopologySkill) (output : TopologySkill)
    → composition_contract_blockers cs output ≡ []
    → All (Discloses output) cs
unfolding composition_contract_blockers hidden_values
contract-Discloses cs output h = All-of-In (Discloses output) cs (λ c m f v n.
    elim (Bool-cases (member v (stripped (field_of f output.effects)))) [
      | inl has ↦ member-In v _ has
      | inr lacks ↦
          let hidden : In v (hidden_values f c output) = In-sorted v _ (
            In-filterb (λ x. not (member x (stripped (field_of f output.effects)))) v _ n
              (ap not lacks)) in
          let listed : In (undisclosed c.slug f v) (composition_contract_blockers cs output) =
            In-concat_map
              (λ d. concat_map (λ g. map (undisclosed d.slug g) (hidden_values g d output)) checks)
              c (undisclosed c.slug f v) cs m
              (In-concat_map (λ g. map (undisclosed c.slug g) (hidden_values g c output)) f
                (undisclosed c.slug f v) checks (In-checks f)
                (In-map (undisclosed c.slug f) v _ hidden)) in
          elim (subst (In (undisclosed c.slug f v)) h listed) [ ]
    ])

abbrev compose_nodes : ComposeTopologyRequest → List SkillGraphNode
compose_nodes r =
    map (node OperationRole.component) r.components
    ++ node OperationRole.composed_output r.composed_output ∷ []

component_slug-In :
    (r : ComposeTopologyRequest) (c : TopologySkill)
    → In c r.components
    → In c.slug (slugs_of (compose_nodes r))
component_slug-In r c m =
    In-map (λ n. n.slug) (node OperationRole.component c) (compose_nodes r)
      (In-append-left _ _ _ (In-map (node OperationRole.component) c r.components m))

output_slug-In :
    (r : ComposeTopologyRequest) → In r.composed_output.slug (slugs_of (compose_nodes r))
output_slug-In r =
    In-map (λ n. n.slug) (node OperationRole.composed_output r.composed_output) (compose_nodes r)
      (In-append-right _ (map (node OperationRole.component) r.components) _ here)

component_edges-Linked :
    (r : ComposeTopologyRequest)
    → All
        (IsLinked (slugs_of (compose_nodes r)))
        (map (component_edge r.composed_output) r.components)
component_edges-Linked r = All-of-In (IsLinked (slugs_of (compose_nodes r))) _ (λ e m.
    let (c, n, same) = map-In (component_edge r.composed_output) e r.components m in
    subst (IsLinked (slugs_of (compose_nodes r))) (sym same)
      (component_slug-In r c n, output_slug-In r, refl))

abbrev compose_blockers : ComposeTopologyRequest → List Blocker → List Blocker
compose_blockers r linked =
    bounded_component_blockers r.components r.max_components
    ++ (evidence_blockers r.evidence_ids r.evidence_fidelity_by_id
        ++ (composition_contract_blockers r.components r.composed_output
            ++ (linked
                ++ block_if
                    (is_empty (common (terms r.composed_output) (union_effect_terms r.components)))
                    lacks_overlap)))

abbrev compose_graph : ComposeTopologyRequest → List SkillGraphEdge → SkillGraphIr
compose_graph r linked = record {
  operation_kind = OperationKind.compose;
  nodes = compose_nodes r;
  edges = map (component_edge r.composed_output) r.components ++ linked;
  effect_coverage =
      map (λ t. (t, covering r.components t))
        (sorted (common (terms r.composed_output) (union_effect_terms r.components)));
  rollback_blockers = rollback_blockers r.components;
}

compose-Safe :
    (r : ComposeTopologyRequest) (linked : List Blocker)
    → (is_empty linked ≡ true → AreProvided r [] r.components)
    → is_empty (compose_blockers r linked) ≡ true
    → IsSafeComposition r
compose-Safe r linked provided h =
    let bounded = bounded_component_blockers r.components r.max_components in
    let evidence = evidence_blockers r.evidence_ids r.evidence_fidelity_by_id in
    let contract = composition_contract_blockers r.components r.composed_output in
    let h₁ = is_empty-append-right bounded _ h in
    let h₂ = is_empty-append-right evidence _ h₁ in
    let h₃ = is_empty-append-right contract _ h₂ in
    let (two, most, distinct) =
      bounded-Distinct r.components r.max_components (is_empty-append-left bounded _ h) in
    (
      two,
      most,
      distinct,
      (evidence_blockers-Adequate r.evidence_ids r.evidence_fidelity_by_id).0
          (is_empty-append-left evidence _ h₁),
      contract-Discloses r.components r.composed_output
          (is_empty→nil _ (is_empty-append-left contract _ h₂)),
      provided (is_empty-append-left linked _ h₃),
    )

-- Proposing a composition never raises: the graph that it builds for a candidate always validates,
-- and the candidate carries that graph. A candidate has two components at least, `max_components`
-- at most and no slug twice; its evidence is there and none of low fidelity; its output discloses
-- the state changes, the side effects, the unsafe conditions and the termination of every
-- component; and whatever a component requires, a component before it has.
pub propose_composition-safe :
    (r : ComposeTopologyRequest)
    → (p : TopologyProposalResult) × (propose_composition r ≡ returned p)
      × (p.status ≡ candidate → (is_some p.skill_graph_ir ≡ true) × IsSafeComposition r)
unfolding propose_composition
propose_composition-safe r =
    let slugs = slugs_of (compose_nodes r) in
    let (bs, es, e, linked, provided) =
      link_components-returned r slugs [] r.components (λ s m. elim m [ ])
        (All-of-In (λ c. In c.slug slugs) r.components (λ c m. component_slug-In r c m)) in
    let g : SkillGraphIr = compose_graph r es in
    let valid =
      validate-linked g (All-append (IsLinked slugs) _ es (component_edges-Linked r) linked)
        (inl refl) in
    let blockers : List Blocker = compose_blockers r bs in
    (
      answer blockers r.evidence_ids g,
      rw (e, propose_composition) (proposal-answer blockers r.evidence_ids g valid),
      λ chosen.
          let free = (answer-candidate blockers r.evidence_ids g).0 chosen in
          (answer-graph blockers r.evidence_ids g free, compose-Safe r bs provided free),
    )

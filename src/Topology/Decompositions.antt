-- ===== src/Topology/Decompositions.antt =====
-- When a decomposition is a candidate, and when proposing it raises.
use skill_kernel.Base.{
  String, true, false, List, [], ◌∷◌, ◌++◌, map, ◌≡◌, is_empty-sorted, is_empty-map, none, refl,
  sym, subst, ap, ◌∙◌, inl, inr, ◌≤◌, if◌then◌else◌, length, In, here, there, All, All-of-In,
  filterb, nil-filterb, All-In, is_empty, member, member-In, In-sorted, map-nil, In-map, map-In,
  is_empty-append-left, is_empty-append-right, is_empty→nil, Bool-cases, Py, raised, returned,
  value_error,
}
use skill_kernel.Topology.Skills.{TopologySkill, terms}
use skill_kernel.Topology.Graph.{
  SkillGraphIr, SkillGraphNode, OperationKind, OperationRole, node, slugs_of,
}
use skill_kernel.Topology.Blockers.{
  Blocker, effect_uncovered, bounded_component_blockers, rollback_blockers,
}
use skill_kernel.Topology.Requests.{DecomposeTopologyRequest, TopologyProposalResult, candidate}
use skill_kernel.Topology.Proposals.{
  evidence_blockers, covering, proposal_result, required_coverage, coverage_of, successor_edge,
  propose_decomposition,
}
use skill_kernel.Topology.Links.{IsLinked}
use skill_kernel.Topology.Evidence.{
  IsAdequate, AreDistinct, evidence_blockers-Adequate, bounded-Distinct,
}
use skill_kernel.Topology.Candidates.{
  validate-linked, proposal-raised, validate-uncovered, proposal-answer, answer-candidate, answer,
}

abbrev pub IsSafeDecomposition : DecomposeTopologyRequest → Type 0
IsSafeDecomposition r =
    (2 ≤ length r.successors)
    × (length r.successors ≤ r.max_successors)
    × AreDistinct r.successors
    × IsAdequate r.evidence_ids r.evidence_fidelity_by_id
    × ((t : String)
        → In t (required_coverage r)
        → (s : TopologySkill) × In s r.successors × In t (terms s))

abbrev uncovered : DecomposeTopologyRequest → List (String × List String)
uncovered r = filterb (λ c. is_empty c.1) (coverage_of r)

abbrev pub gate_blockers : DecomposeTopologyRequest → List Blocker → List Blocker
gate_blockers r after =
    bounded_component_blockers r.successors r.max_successors
    ++ (evidence_blockers r.evidence_ids r.evidence_fidelity_by_id ++ after)

abbrev decompose_blockers : DecomposeTopologyRequest → List Blocker
decompose_blockers r = gate_blockers r (map (λ c. effect_uncovered c.0) (uncovered r))

abbrev decompose_nodes : DecomposeTopologyRequest → List SkillGraphNode
decompose_nodes r =
    node OperationRole.subject r.subject ∷ map (node OperationRole.successor) r.successors

abbrev decompose_graph : DecomposeTopologyRequest → SkillGraphIr
decompose_graph r = record {
  operation_kind = OperationKind.decompose;
  nodes = decompose_nodes r;
  edges = map (successor_edge r.subject (required_coverage r)) r.successors;
  effect_coverage = coverage_of r;
  rollback_blockers = rollback_blockers (r.subject ∷ []);
}

successor_edges-Linked :
    (r : DecomposeTopologyRequest)
    → All (IsLinked (slugs_of (decompose_nodes r))) (decompose_graph r).edges
successor_edges-Linked r = All-of-In (IsLinked (slugs_of (decompose_nodes r))) _ (λ e m.
    let (s, n, same) = map-In (successor_edge r.subject (required_coverage r)) e r.successors m in
    subst (IsLinked (slugs_of (decompose_nodes r))) (sym same) (
      here,
      there (
          In-map (λ x. x.slug) (node OperationRole.successor s)
            (map (node OperationRole.successor) r.successors)
            (In-map (node OperationRole.successor) s r.successors n)),
      refl,
    ))

-- A term that some skill covers, the skill has.
covering-In :
    (skills : List TopologySkill) (t : String)
    → is_empty (covering skills t) ≡ false
    → (s : TopologySkill) × In s skills × In t (terms s)
covering-In [] t h = cc
covering-In (s ∷ ss) t h = elim (Bool-cases (member t (terms s))) [
  | inl has ↦ (s, here, member-In t (terms s) has)
  | inr lacks ↦ let (p, m, n) = covering-In ss t (rw lacks at h) in (p, there m, n)
]

uncovered-none :
    (r : DecomposeTopologyRequest)
    → uncovered r ≡ []
    → (t : String) → In t (required_coverage r)
    → (s : TopologySkill) × In s r.successors × In t (terms s)
unfolding coverage_of
uncovered-none r h t m = covering-In r.successors t (
    All-In (λ c. is_empty c.1 ≡ false)
      (In-map (λ t. (t, covering r.successors t)) t _ (In-sorted t (required_coverage r) m))
      (nil-filterb (λ c. is_empty c.1) (coverage_of r) h))

decompose-Safe :
    (r : DecomposeTopologyRequest) → is_empty (decompose_blockers r) ≡ true → IsSafeDecomposition r
decompose-Safe r h =
    let bounded = bounded_component_blockers r.successors r.max_successors in
    let cited = evidence_blockers r.evidence_ids r.evidence_fidelity_by_id in
    let after = is_empty-append-right bounded _ h in
    let (two, most, distinct) =
      bounded-Distinct r.successors r.max_successors (is_empty-append-left bounded _ h) in
    (
      two,
      most,
      distinct,
      (evidence_blockers-Adequate r.evidence_ids r.evidence_fidelity_by_id).0
          (is_empty-append-left cited _ after),
      uncovered-none r (
          map-nil (λ c. effect_uncovered c.0) (uncovered r)
            (is_empty→nil _ (is_empty-append-right cited _ after))),
    )

covered :
    (r : DecomposeTopologyRequest)
    → is_empty (required_coverage r) ≡ false
    → is_empty (coverage_of r) ≡ false
unfolding coverage_of
covered r h = is_empty-map _ _ (is_empty-sorted (required_coverage r) ∙ h)

uncovers : (r : DecomposeTopologyRequest) → required_coverage r ≡ [] → coverage_of r ≡ []
unfolding coverage_of
uncovers r h =
    is_empty→nil _ (is_empty-map _ _ (is_empty-sorted (required_coverage r) ∙ ap is_empty h))

-- With an effect to cover, proposing a decomposition does not raise, and a candidate has two
-- successors at least, `max_successors` at most and no slug twice, evidence that is not of low
-- fidelity, and for every effect to cover a successor that has it.
pub propose_decomposition-safe :
    (r : DecomposeTopologyRequest)
    → is_empty (required_coverage r) ≡ false
    → (p : TopologyProposalResult) × (propose_decomposition r ≡ returned p)
      × (p.status ≡ candidate → IsSafeDecomposition r)
unfolding propose_decomposition
propose_decomposition-safe r h =
    let g = decompose_graph r in
    let valid = validate-linked g (successor_edges-Linked r) (inr (covered r h)) in
    let blockers = decompose_blockers r in
    (
      answer blockers r.evidence_ids g,
      proposal-answer blockers r.evidence_ids g valid,
      λ chosen. decompose-Safe r ((answer-candidate blockers r.evidence_ids g).0 chosen),
    )

abbrev stopped : DecomposeTopologyRequest → List Blocker → Py TopologyProposalResult
stopped r bs =
    if is_empty bs
    then raised value_error
    else returned (proposal_result OperationKind.decompose bs r.evidence_ids none)

-- With no effect to cover, proposing a decomposition raises ValueError exactly if nothing blocks
-- it: there is no candidate that covers nothing.
pub propose_decomposition-uncovered :
    (r : DecomposeTopologyRequest)
    → required_coverage r ≡ []
    → propose_decomposition r ≡ (
        if is_empty (gate_blockers r [])
        then raised value_error
        else returned
            (proposal_result OperationKind.decompose (gate_blockers r []) r.evidence_ids none))
unfolding propose_decomposition
propose_decomposition-uncovered r h =
    let fails =
      validate-uncovered (decompose_graph r) (successor_edges-Linked r) refl
        (ap is_empty (uncovers r h)) in
    proposal-raised (decompose_blockers r) r.evidence_ids (decompose_graph r) fails
    ∙ ap
        (λ c.
          stopped r
            (gate_blockers r (map (λ c. effect_uncovered c.0) (filterb (λ c. is_empty c.1) c))))
        (uncovers r h)

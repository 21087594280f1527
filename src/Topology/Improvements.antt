-- ===== src/Topology/Improvements.antt =====
-- When an improvement is a candidate.
use skill_kernel.Base.{
  String, true, false, not, List, [], ◌∷◌, ◌++◌, map, ◌≡◌, ◌∙◌, is_empty-sorted, is_empty-map, refl,
  subst, ap, inl, inr, ◌↔◌, In, here, there, All-of-In, filterb-nil, is_empty, member, member-In,
  In-member, minus, sorted, In-sorted, filterb, In-filterb, map-nil, is_empty-append-left,
  is_empty-append-right, is_empty→nil, Bool-cases, returned, arith,
}
use skill_kernel.Topology.Skills.{TopologySkill, terms}
use skill_kernel.Topology.Graph.{SkillGraphIr, OperationKind, OperationRole, EdgeKind, node}
use skill_kernel.Topology.Blockers.{Blocker, effect_lost, lacks_reason, rollback_blockers}
use skill_kernel.Topology.Requests.{ImproveTopologyRequest, TopologyProposalResult, candidate}
use skill_kernel.Topology.Proposals.{block_if, evidence_blockers, propose_improvement}
use skill_kernel.Topology.Evidence.{IsAdequate, evidence_blockers-Adequate}
use skill_kernel.Topology.Candidates.{validate-linked, proposal-answer, answer-candidate, answer}

-- Every effect of the subject is one of the proposed skill.
abbrev pub Preserves : TopologySkill → TopologySkill → Type 0
Preserves subject proposed = (t : String) → In t (terms subject) → In t (terms proposed)

abbrev lost : ImproveTopologyRequest → List String
lost r = sorted (minus (terms r.subject) (terms r.proposed))

lost-Preserves :
    (r : ImproveTopologyRequest)
    → (is_empty (map effect_lost (lost r)) ≡ true) ↔ Preserves r.subject r.proposed
lost-Preserves r = (
  λ h t m. elim (Bool-cases (member t (terms r.proposed))) [
    | inl has ↦ member-In t (terms r.proposed) has
    | inr lacks ↦
        let listed : In t (lost r) =
          In-sorted t _
            (In-filterb (λ x. not (member x (terms r.proposed))) t _ m (ap not lacks)) in
        elim (subst (In t) (map-nil effect_lost (lost r) (is_empty→nil _ h)) listed) [ ]
  ],
  λ keeps.
      let none_lost : minus (terms r.subject) (terms r.proposed) ≡ [] =
        filterb-nil _ (terms r.subject) (
          All-of-In (λ t. not (member t (terms r.proposed)) ≡ false) (terms r.subject)
            (λ t m. ap not (In-member t (terms r.proposed) (keeps t m)))) in
      is_empty-map effect_lost (lost r)
        (is_empty-sorted (minus (terms r.subject) (terms r.proposed)) ∙ ap is_empty none_lost),
)

abbrev improve_blockers : ImproveTopologyRequest → List Blocker
improve_blockers r =
    map effect_lost (lost r)
    ++ (evidence_blockers r.evidence_ids r.evidence_fidelity_by_id
        ++ block_if (is_empty r.improvement_reasons) lacks_reason)

abbrev improve_graph : ImproveTopologyRequest → SkillGraphIr
improve_graph r = record {
  operation_kind = OperationKind.improve;
  nodes = node OperationRole.subject r.subject ∷ node OperationRole.successor r.proposed ∷ [];
  edges =
      record {
        from_slug = r.subject.slug;
        to_slug = r.proposed.slug;
        edge_kind = EdgeKind.supersedes;
        required_effects = sorted (terms r.subject);
        produced_effects = sorted (terms r.proposed);
        unresolved_gaps = [];
      }
      ∷ [];
  effect_coverage =
      map (λ t. (t, r.proposed.slug ∷ []))
        (filterb (λ t. member t (terms r.proposed)) (sorted (terms r.subject)));
  rollback_blockers = rollback_blockers (r.subject ∷ []);
}

all_empty :
    (xs ys zs : List Blocker)
    → is_empty xs ≡ true
    → is_empty ys ≡ true
    → is_empty zs ≡ true
    → is_empty (xs ++ (ys ++ zs)) ≡ true
all_empty xs ys zs h k l = rw (is_empty→nil xs h, is_empty→nil ys k, is_empty→nil zs l) refl

-- Proposing an improvement never raises, and it is a candidate exactly if the proposed skill has
-- every effect of the subject, there is evidence and none of it of low fidelity, and a reason is
-- given.
pub propose_improvement_iff :
    (r : ImproveTopologyRequest)
    → (p : TopologyProposalResult) × (propose_improvement r ≡ returned p)
      × ((p.status ≡ candidate) ↔ (
          Preserves r.subject r.proposed
          × IsAdequate r.evidence_ids r.evidence_fidelity_by_id
          × (is_empty r.improvement_reasons ≡ false)))
unfolding propose_improvement
propose_improvement_iff r =
    let blockers = improve_blockers r in
    let g = improve_graph r in
    let valid = validate-linked g ((here, there here, refl), tt) (inl refl) in
    let status = answer-candidate blockers r.evidence_ids g in
    let evidence = evidence_blockers-Adequate r.evidence_ids r.evidence_fidelity_by_id in
    let kept = map effect_lost (lost r) in
    let cited = evidence_blockers r.evidence_ids r.evidence_fidelity_by_id in
    (
      answer blockers r.evidence_ids g,
      proposal-answer blockers r.evidence_ids g valid,
      (
        λ chosen.
            let free = status.0 chosen in
            let after = is_empty-append-right kept _ free in
            (
              (lost-Preserves r).0 (is_empty-append-left kept _ free),
              evidence.0 (is_empty-append-left cited _ after),
              ground (arith, is_empty-append-right cited _ after),
            ),
        λ h.
            status.1
              (all_empty kept cited _ ((lost-Preserves r).1 h.0) (evidence.1 h.1) (rw h.2 refl)),
      ),
    )

-- ===== src/Topology/Candidates.antt =====
-- When a proposal is a candidate, and what its skills then satisfy.
use skill_kernel.Base.{
  String, true, false, List, [], none, some, ◌≡◌, refl, ◌⊎◌, inl, inr, ◌↔◌, if◌then◌else◌, All,
  All-In, All-of-In, filterb, is_empty, In-member, filterb-nil, concat_map, concat_map-nil,
  Bool-cases, is_some, raised, returned, value_error, arith,
}
use skill_kernel.Topology.Graph.{
  SkillGraphEdge, SkillGraphIr, slugs_of, is_missing, is_decompose, validate_graph_effects,
}
use skill_kernel.Topology.Blockers.{Blocker}
use skill_kernel.Topology.Requests.{TopologyProposalResult, candidate}
use skill_kernel.Topology.Proposals.{proposal_result, proposal}
use skill_kernel.Topology.Links.{IsLinked}

abbrev Unmissing : List String → SkillGraphEdge → Type 0
Unmissing slugs e = is_missing slugs e ≡ false

linked-Unmissing : (slugs : List String) (e : SkillGraphEdge) → IsLinked slugs e → Unmissing slugs e
linked-Unmissing slugs e (m, n, g) =
    ground (arith, In-member e.from_slug slugs m, In-member e.to_slug slugs n)

linked-none :
    (g : SkillGraphIr)
    → All (IsLinked (slugs_of g.nodes)) g.edges
    → (filterb (is_missing (slugs_of g.nodes)) g.edges ≡ [])
      × (concat_map (λ e. e.unresolved_gaps) g.edges ≡ [])
linked-none g linked = (
  filterb-nil _ g.edges (
      All-of-In (Unmissing (slugs_of g.nodes)) g.edges
        (λ e m. linked-Unmissing _ e (All-In (IsLinked (slugs_of g.nodes)) m linked))),
  concat_map-nil _ g.edges (
      All-of-In (λ e. e.unresolved_gaps ≡ []) g.edges
        (λ e m. (All-In (IsLinked (slugs_of g.nodes)) m linked).2)),
)

-- A graph with linked edges passes, unless it decomposes and covers nothing.
pub validate-linked :
    (g : SkillGraphIr)
    → All (IsLinked (slugs_of g.nodes)) g.edges
    → is_decompose g.operation_kind ≡ false ⊎ (is_empty g.effect_coverage ≡ false)
    → validate_graph_effects g ≡ returned g
unfolding validate_graph_effects
validate-linked g linked covered =
    let (none_missing, no_gaps) = linked-none g linked in rw (none_missing, no_gaps) (ground arith)

pub validate-uncovered :
    (g : SkillGraphIr)
    → All (IsLinked (slugs_of g.nodes)) g.edges
    → is_decompose g.operation_kind ≡ true
    → is_empty g.effect_coverage ≡ true
    → validate_graph_effects g ≡ raised value_error
unfolding validate_graph_effects
validate-uncovered g linked decomposes covers_none =
    let (none_missing, no_gaps) = linked-none g linked in rw (none_missing, no_gaps) (ground arith)

-- The answer of a proposal whose graph passes: a candidate with its graph if nothing blocks it,
-- or else blocked, with no graph.
abbrev pub answer : List Blocker → List String → SkillGraphIr → TopologyProposalResult
answer blockers evidence_ids g =
    proposal_result g.operation_kind blockers evidence_ids
      (if is_empty blockers then some g else none)

pub proposal-answer :
    (bs : List Blocker) (ids : List String) (g : SkillGraphIr)
    → validate_graph_effects g ≡ returned g
    → proposal bs ids g ≡ returned (answer bs ids g)
unfolding proposal
proposal-answer bs ids g e = elim (Bool-cases (is_empty bs)) [
  | inl free ↦ rw (free, e, proposal) refl
  | inr stopped ↦ rw (stopped, proposal) refl
]

pub proposal-raised :
    (bs : List Blocker) (ids : List String) (g : SkillGraphIr)
    → validate_graph_effects g ≡ raised value_error
    → proposal bs ids g ≡ (
        if is_empty bs
        then raised value_error
        else returned (proposal_result g.operation_kind bs ids none))
unfolding proposal
proposal-raised bs ids g e = elim (Bool-cases (is_empty bs)) [
  | inl free ↦ rw (free, e, proposal) refl
  | inr stopped ↦ rw (stopped, proposal) refl
]

pub answer-candidate :
    (bs : List Blocker) (ids : List String) (g : SkillGraphIr)
    → ((answer bs ids g).status ≡ candidate) ↔ (is_empty bs ≡ true)
unfolding proposal_result
answer-candidate bs ids g = ground arith

pub answer-graph :
    (bs : List Blocker) (ids : List String) (g : SkillGraphIr)
    → is_empty bs ≡ true
    → is_some (answer bs ids g).skill_graph_ir ≡ true
unfolding proposal_result
answer-graph bs ids g h = rw h refl

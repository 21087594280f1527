-- ===== src/Topology/Graph.antt =====
-- sidecar/autoskill/core/skillgraph.py: the graph of skills and what its construction checks.
use skill_kernel.Base.{
  ℕ, String, Bool, true, false, not, ◌&&◌, ◌||◌, List, map, Option, if◌then◌else◌, filterb,
  concat_map, is_empty, member, Py, raised, returned, value_error,
}
use skill_kernel.Topology.Skills.{EffectSignature, TopologySkill}

pub data OperationRole : Type 0 where
  subject component successor composed_output : OperationRole

pub record SkillGraphNode : Type 0 where
  pub skill_id : Option ℕ
  pub slug : String
  pub operation_role : OperationRole
  pub effects : EffectSignature

pub data EdgeKind : Type 0 where
  component_of composes_with composed_by decomposes_to specializes generalizes : EdgeKind
  supersedes shadows requires conflicts_with : EdgeKind

pub record SkillGraphEdge : Type 0 where
  pub from_slug : String
  pub to_slug : String
  pub edge_kind : EdgeKind
  pub required_effects : List String
  pub produced_effects : List String
  pub unresolved_gaps : List String

pub data OperationKind : Type 0 where
  create improve compose decompose merge archive promote : OperationKind

pub record SkillGraphIr : Type 0 where
  pub operation_kind : OperationKind
  pub nodes : List SkillGraphNode
  pub edges : List SkillGraphEdge
  -- A dict, in its order.
  pub effect_coverage : List (String × List String)
  pub rollback_blockers : List String

-- `TopologySkill.node`
abbrev pub node : OperationRole → TopologySkill → SkillGraphNode
node role skill = record {
  skill_id = skill.skill_id;
  slug = skill.slug;
  operation_role = role;
  effects = skill.effects;
}

abbrev pub slugs_of : List SkillGraphNode → List String
slugs_of nodes = map (λ n. n.slug) nodes

-- An end of the edge is no node.
abbrev pub is_missing : List String → SkillGraphEdge → Bool
is_missing slugs edge = not (member edge.from_slug slugs) || not (member edge.to_slug slugs)

abbrev pub is_compose : OperationKind → Bool
is_compose OperationKind.compose = true
is_compose _ = false

abbrev pub is_decompose : OperationKind → Bool
is_decompose OperationKind.decompose = true
is_decompose _ = false

-- The validator that runs when a graph is built: ValueError, or the graph.
unfoldable pub validate_graph_effects : SkillGraphIr → Py SkillGraphIr
validate_graph_effects g =
    if not (is_empty (filterb (is_missing (slugs_of g.nodes)) g.edges))
    then raised value_error
    else if is_compose g.operation_kind
        && not (is_empty (concat_map (λ e. e.unresolved_gaps) g.edges))
    then raised value_error
    else if is_decompose g.operation_kind && is_empty g.effect_coverage
    then raised value_error
    else returned g

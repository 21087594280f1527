-- ===== src/Topology/Requests.antt =====
-- The requests for proposals of sidecar/autoskill/services/topology.py and their result, which
-- keeps the status, the blockers and the graph.
use skill_kernel.Base.{ℕ, String, List, Option}
use skill_kernel.Topology.Skills.{TopologySkill}
use skill_kernel.Topology.Graph.{SkillGraphIr, OperationKind}
use skill_kernel.Topology.Blockers.{Blocker}

pub record ImproveTopologyRequest : Type 0 where
  pub subject : TopologySkill
  pub proposed : TopologySkill
  pub evidence_ids : List String
  pub improvement_reasons : List String
  pub evidence_fidelity_by_id : Option (List (String × String))

pub record CreateTopologyRequest : Type 0 where
  pub proposed : TopologySkill
  pub evidence_ids : List String
  pub creation_reasons : List String
  pub evidence_fidelity_by_id : Option (List (String × String))

pub record ComposeTopologyRequest : Type 0 where
  pub components : List TopologySkill
  pub composed_output : TopologySkill
  pub evidence_ids : List String
  pub evidence_fidelity_by_id : Option (List (String × String))
  pub required_effects_by_component : Option (List (String × List String))
  pub max_components : ℕ

pub record DecomposeTopologyRequest : Type 0 where
  pub subject : TopologySkill
  pub successors : List TopologySkill
  pub evidence_ids : List String
  pub evidence_fidelity_by_id : Option (List (String × String))
  pub coverage_requirements : Option (List String)
  pub max_successors : ℕ

pub data ProposalStatus : Type 0 where
  candidate blocked : ProposalStatus

pub record TopologyProposalResult : Type 0 where
  pub operation_kind : OperationKind
  pub status : ProposalStatus
  pub blockers : List Blocker
  pub evidence_ids : List String
  pub skill_graph_ir : Option SkillGraphIr

-- ===== src/Topology/Tests.antt =====
-- Proposals on small skills.
use skill_kernel.Base.{
  String, Bool, true, false, List, [], ◌∷◌, Option, none, some, ◌≡◌, refl, ◌↔◌, is_empty, is_some,
  if◌then◌else◌, Py, raised, returned, value_error, strip, rstrip, lstrip, sorted, insert,
}
use skill_kernel.Topology.Skills.{
  TopologySkill, Idempotency, stripped, effect_terms, union_effect_terms,
}
use skill_kernel.Topology.Graph.{OperationKind, validate_graph_effects}
use skill_kernel.Topology.Blockers.{
  bounded_component_blockers, evidence_fidelity_blockers, canonical_evidence_fidelity,
  canonical_evidence_fidelity_map, composition_contract_blockers, fidelity_of, hidden_values,
  rollback_blockers,
}
use skill_kernel.Topology.Requests.{
  ImproveTopologyRequest, ComposeTopologyRequest, DecomposeTopologyRequest, TopologyProposalResult,
  candidate, blocked,
}
use skill_kernel.Topology.Proposals.{
  proposal_result, required_coverage, proposal, link_components, requires_edges_for_component,
  provider_edges, by_provider, required_of, add_term, propose_improvement, propose_composition,
  propose_decomposition,
}
use skill_kernel.Topology.Evidence.{IsAdequate}
use skill_kernel.Topology.Compositions.{IsSafeComposition, propose_composition-safe}
use skill_kernel.Topology.Improvements.{Preserves, propose_improvement_iff}
use skill_kernel.Topology.Decompositions.{
  IsSafeDecomposition, gate_blockers, propose_decomposition-safe, propose_decomposition-uncovered,
}

abbrev skill : String → List String → TopologySkill
skill slug outputs = record {
  slug = slug;
  effects = record {
    outputs = outputs;
    effects = [];
    state_delta = [];
    side_effects = [];
    termination = [];
    idempotency = Idempotency.unknown;
    unsafe_when = [];
    failure_modes = [];
  };
  skill_id = some 1;
}

abbrev fetch : TopologySkill
fetch = skill "fetch" ("page" ∷ [])

abbrev parse : TopologySkill
parse = skill "parse" (" table " ∷ [])

abbrev report : TopologySkill
report = skill "report" ("table" ∷ "page" ∷ [])

abbrev idle : TopologySkill
idle = skill "idle" []

abbrev fidelities : Option (List (String × String))
fidelities = some (("e1", "raw_vault_linked") ∷ [])

abbrev composing : ComposeTopologyRequest
composing = record {
  components = fetch ∷ parse ∷ [];
  composed_output = report;
  evidence_ids = "e1" ∷ [];
  evidence_fidelity_by_id = fidelities;
  required_effects_by_component = some (("parse", "page" ∷ []) ∷ []);
  max_components = 8;
}

abbrev splitting : TopologySkill → DecomposeTopologyRequest
splitting subject = record {
  subject = subject;
  successors = fetch ∷ parse ∷ [];
  evidence_ids = "e1" ∷ [];
  evidence_fidelity_by_id = fidelities;
  coverage_requirements = none;
  max_successors = 8;
}

abbrev improving : ImproveTopologyRequest
improving = record {
  subject = fetch;
  proposed = report;
  evidence_ids = "e1" ∷ [];
  improvement_reasons = "broader" ∷ [];
  evidence_fidelity_by_id = fidelities;
}

abbrev is_candidate : Py TopologyProposalResult → Bool
is_candidate (raised e) = false
is_candidate (returned p) = elim p.status [ candidate ↦ is_some p.skill_graph_ir | blocked ↦ false ]

strip_test : strip "  a b " ≡ "a b"
unfolding strip rstrip lstrip
strip_test = refl

composing_test : is_candidate (propose_composition composing) ≡ true
unfolding propose_composition link_components requires_edges_for_component provider_edges
    by_provider sorted insert required_of union_effect_terms effect_terms stripped strip rstrip
    lstrip add_term proposal bounded_component_blockers evidence_fidelity_blockers
    canonical_evidence_fidelity canonical_evidence_fidelity_map composition_contract_blockers
    fidelity_of hidden_values rollback_blockers validate_graph_effects proposal_result
composing_test = refl

out_of_order_test :
    is_candidate (propose_composition (record composing { components = parse ∷ fetch ∷ [] }))
    ≡ false
unfolding propose_composition link_components requires_edges_for_component provider_edges
    by_provider sorted insert required_of union_effect_terms effect_terms stripped strip rstrip
    lstrip add_term proposal bounded_component_blockers evidence_fidelity_blockers
    canonical_evidence_fidelity canonical_evidence_fidelity_map composition_contract_blockers
    fidelity_of hidden_values rollback_blockers validate_graph_effects proposal_result
out_of_order_test = refl

propose_composition-safe_example :
    (p : TopologyProposalResult) × (propose_composition composing ≡ returned p)
    × (p.status ≡ candidate → (is_some p.skill_graph_ir ≡ true) × IsSafeComposition composing)
propose_composition-safe_example = propose_composition-safe composing

propose_improvement_iff_example :
    (p : TopologyProposalResult) × (propose_improvement improving ≡ returned p)
    × ((p.status ≡ candidate) ↔ (
        Preserves fetch report
        × IsAdequate ("e1" ∷ []) fidelities
        × (is_empty improving.improvement_reasons ≡ false)))
propose_improvement_iff_example = propose_improvement_iff improving

propose_decomposition-safe_example :
    (p : TopologyProposalResult) × (propose_decomposition (splitting report) ≡ returned p)
    × (p.status ≡ candidate → IsSafeDecomposition (splitting report))
unfolding required_coverage effect_terms stripped strip rstrip lstrip
propose_decomposition-safe_example = propose_decomposition-safe (splitting report) refl

propose_decomposition-uncovered_example : propose_decomposition (splitting idle) ≡ (
    if is_empty (gate_blockers (splitting idle) [])
    then raised value_error
    else returned (
        proposal_result OperationKind.decompose
          (gate_blockers (splitting idle) [])
          (splitting idle).evidence_ids
          none))
unfolding required_coverage effect_terms stripped strip rstrip lstrip
propose_decomposition-uncovered_example = propose_decomposition-uncovered (splitting idle) refl

-- ===== src/Topology/Proposals.antt =====
-- `propose_creation`, `propose_improvement`, `propose_composition`, `propose_decomposition`,
-- `_requires_edges_for_component` and `_result` of sidecar/autoskill/services/topology.py. A
-- proposal keeps its status, its blockers and its graph; the hash, the plan of trials and the
-- rollback actions, which describe the request, are left out.
use skill_kernel.Base.{
  String, str_eq, Bool, true, false, List, [], ◌∷◌, ◌++◌, map, Option, none, some, if◌then◌else◌,
  find?, filterb, reversed, is_empty, distinct_from, member, minus, common, sorted, Py, raised,
  returned, ◌>>=◌, key_error,
}
use skill_kernel.Topology.Skills.{TopologySkill, terms, union_effect_terms}
use skill_kernel.Topology.Graph.{
  SkillGraphEdge, SkillGraphIr, EdgeKind, OperationKind, OperationRole, node,
  validate_graph_effects,
}
use skill_kernel.Topology.Blockers.{
  Blocker, lacks_effect, lacks_evidence, lacks_reason, lacks_overlap, effect_lost, effect_uncovered,
  unresolved, evidence_fidelity_blockers, bounded_component_blockers, composition_contract_blockers,
  rollback_blockers,
}
use skill_kernel.Topology.Requests.{
  ImproveTopologyRequest, CreateTopologyRequest, ComposeTopologyRequest, DecomposeTopologyRequest,
  candidate, blocked, TopologyProposalResult,
}

-- `_result`
unfoldable pub proposal_result :
    OperationKind → List Blocker → List String → Option SkillGraphIr → TopologyProposalResult
proposal_result kind blockers evidence_ids graph = record {
  operation_kind = kind;
  status = if is_empty blockers then candidate else blocked;
  blockers = blockers;
  evidence_ids = evidence_ids;
  skill_graph_ir = graph;
}

-- `if not blockers: graph = SkillGraphIR(...)`, and the result.
unfoldable pub proposal : List Blocker → List String → SkillGraphIr → Py TopologyProposalResult
proposal blockers evidence_ids graph = elim (is_empty blockers) [
  | true ↦ validate_graph_effects graph >>= λ g.
      returned (proposal_result graph.operation_kind blockers evidence_ids (some g))
  | false ↦ returned (proposal_result graph.operation_kind blockers evidence_ids none)
]

-- `if flag: blockers.append(blocker)`, as the list to append.
abbrev pub block_if : Bool → Blocker → List Blocker
block_if flag b = if flag then b ∷ [] else []

abbrev pub evidence_blockers : List String → Option (List (String × String)) → List Blocker
evidence_blockers ids m = block_if (is_empty ids) lacks_evidence ++ evidence_fidelity_blockers ids m

unfoldable pub propose_creation : CreateTopologyRequest → Py TopologyProposalResult
propose_creation r =
    let proposed_terms = terms r.proposed in
    proposal
      (block_if (is_empty proposed_terms) lacks_effect
        ++ (evidence_blockers r.evidence_ids r.evidence_fidelity_by_id
            ++ block_if (is_empty r.creation_reasons) lacks_reason))
      r.evidence_ids
      (record {
        operation_kind = OperationKind.create;
        nodes = node OperationRole.successor r.proposed ∷ [];
        edges = [];
        effect_coverage = map (λ t. (t, r.proposed.slug ∷ [])) (sorted proposed_terms);
        rollback_blockers = [];
      })

unfoldable pub propose_improvement : ImproveTopologyRequest → Py TopologyProposalResult
propose_improvement r =
    let subject_terms = terms r.subject in
    let proposed_terms = terms r.proposed in
    proposal
      (map effect_lost (sorted (minus subject_terms proposed_terms))
        ++ (evidence_blockers r.evidence_ids r.evidence_fidelity_by_id
            ++ block_if (is_empty r.improvement_reasons) lacks_reason))
      r.evidence_ids
      (record {
        operation_kind = OperationKind.improve;
        nodes = node OperationRole.subject r.subject ∷ node OperationRole.successor r.proposed ∷ [];
        edges =
            record {
              from_slug = r.subject.slug;
              to_slug = r.proposed.slug;
              edge_kind = EdgeKind.supersedes;
              required_effects = sorted subject_terms;
              produced_effects = sorted proposed_terms;
              unresolved_gaps = [];
            }
            ∷ [];
        effect_coverage =
            map (λ t. (t, r.proposed.slug ∷ []))
              (filterb (λ t. member t proposed_terms) (sorted subject_terms));
        rollback_blockers = rollback_blockers (r.subject ∷ []);
      })

-- `d.get(key, [])`, for the dict or None of a request.
unfoldable pub required_of : String → Option (List (String × List String)) → List String
required_of key none = []
required_of key (some m) = elim (find? (λ kv. str_eq kv.0 key) m) [ none ↦ [] | some kv ↦ kv.1 ]

-- `required_by_provider.setdefault(slug, set()).add(term)`
unfoldable pub add_term :
    String → String → List (String × List String) → List (String × List String)
add_term slug term [] = (slug, term ∷ []) ∷ []
add_term slug term (g ∷ gs) =
    let rest = add_term slug term gs in
    if str_eq g.0 slug
    then (g.0, if member term g.1 then g.1 else g.1 ++ term ∷ []) ∷ gs
    else g ∷ rest

-- The last of the earlier components that has the term.
abbrev pub provider_of : List TopologySkill → String → Option TopologySkill
provider_of previous term = find? (λ c. member term (terms c)) (reversed previous)

unfoldable pub by_provider :
    List TopologySkill → List String → List (String × List String) → List (String × List String)
by_provider previous [] groups = groups
by_provider previous (t ∷ ts) groups =
    by_provider previous ts
      (elim (provider_of previous t) [ none ↦ groups | some p ↦ add_term p.slug t groups ])

-- The edges of the groups: `providers_by_slug` keeps the last skill with a slug, and raises
-- KeyError without one.
unfoldable pub provider_edges :
    TopologySkill → List TopologySkill → List (String × List String) → Py (List SkillGraphEdge)
provider_edges component previous [] = returned []
provider_edges component previous (g ∷ gs) =
    let rest = provider_edges component previous gs in
    elim (find? (λ c. str_eq c.slug g.0) (reversed previous)) [
      | none ↦ raised key_error
      | some p ↦ rest >>= λ es. returned (
          record {
            from_slug = g.0;
            to_slug = component.slug;
            edge_kind = EdgeKind.requires;
            required_effects = sorted g.1;
            produced_effects = sorted (terms p);
            unresolved_gaps = [];
          }
          ∷ es)
    ]

unfoldable pub requires_edges_for_component :
    TopologySkill → List TopologySkill → List String → Py (List SkillGraphEdge)
requires_edges_for_component component previous required =
    provider_edges component previous (by_provider previous (sorted required) [])

-- What a component requires of the earlier ones, and the part of it that none of them has.
abbrev pub required_effects : ComposeTopologyRequest → TopologySkill → List String
required_effects r c = distinct_from str_eq [] (required_of c.slug r.required_effects_by_component)

abbrev pub gaps : ComposeTopologyRequest → List TopologySkill → TopologySkill → List String
gaps r previous c = sorted (minus (required_effects r c) (union_effect_terms previous))

-- The loop over the components: what it appends to `blockers` and to `edges`.
unfoldable pub link_components :
    ComposeTopologyRequest
    → List TopologySkill
    → List TopologySkill
    → Py (List Blocker × List SkillGraphEdge)
link_components r previous [] = returned ([], [])
link_components r previous (c ∷ cs) =
    let rest = link_components r (previous ++ c ∷ []) cs in
    requires_edges_for_component c previous (minus (required_effects r c) (gaps r previous c))
    >>= λ es. rest >>= λ after.
        returned (map (unresolved c.slug) (gaps r previous c) ++ after.0, es ++ after.1)

abbrev pub component_edge : TopologySkill → TopologySkill → SkillGraphEdge
component_edge output c = record {
  from_slug = c.slug;
  to_slug = output.slug;
  edge_kind = EdgeKind.component_of;
  required_effects = sorted (common (terms output) (terms c));
  produced_effects = sorted (terms c);
  unresolved_gaps = [];
}

-- The slugs of the skills that have the term.
abbrev pub covering : List TopologySkill → String → List String
covering skills t = map (λ s. s.slug) (filterb (λ s. member t (terms s)) skills)

unfoldable pub propose_composition : ComposeTopologyRequest → Py TopologyProposalResult
propose_composition r =
    let overlap = common (terms r.composed_output) (union_effect_terms r.components) in
    link_components r [] r.components >>= λ linked.
    proposal
      (bounded_component_blockers r.components r.max_components
        ++ (evidence_blockers r.evidence_ids r.evidence_fidelity_by_id
            ++ (composition_contract_blockers r.components r.composed_output
                ++ (linked.0 ++ block_if (is_empty overlap) lacks_overlap))))
      r.evidence_ids
      (record {
        operation_kind = OperationKind.compose;
        nodes =
            map (node OperationRole.component) r.components
            ++ node OperationRole.composed_output r.composed_output ∷ [];
        edges = map (component_edge r.composed_output) r.components ++ linked.1;
        effect_coverage = map (λ t. (t, covering r.components t)) (sorted overlap);
        rollback_blockers = rollback_blockers r.components;
      })

-- `set(request.coverage_requirements or sorted(_effect_terms(request.subject.effects)))`
unfoldable pub required_coverage : DecomposeTopologyRequest → List String
required_coverage r = elim r.coverage_requirements [
  | none ↦ terms r.subject
  | some ts ↦ if is_empty ts then terms r.subject else distinct_from str_eq [] ts
]

abbrev pub successor_edge : TopologySkill → List String → TopologySkill → SkillGraphEdge
successor_edge subject required s = record {
  from_slug = subject.slug;
  to_slug = s.slug;
  edge_kind = EdgeKind.decomposes_to;
  required_effects = sorted (common required (terms s));
  produced_effects = sorted (terms s);
  unresolved_gaps = [];
}

unfoldable pub coverage_of : DecomposeTopologyRequest → List (String × List String)
coverage_of r = map (λ t. (t, covering r.successors t)) (sorted (required_coverage r))

unfoldable pub propose_decomposition : DecomposeTopologyRequest → Py TopologyProposalResult
propose_decomposition r =
    proposal
      (bounded_component_blockers r.successors r.max_successors
        ++ (evidence_blockers r.evidence_ids r.evidence_fidelity_by_id
            ++ map (λ c. effect_uncovered c.0) (filterb (λ c. is_empty c.1) (coverage_of r))))
      r.evidence_ids
      (record {
        operation_kind = OperationKind.decompose;
        nodes =
            node OperationRole.subject r.subject ∷ map (node OperationRole.successor) r.successors;
        edges = map (successor_edge r.subject (required_coverage r)) r.successors;
        effect_coverage = coverage_of r;
        rollback_blockers = rollback_blockers (r.subject ∷ []);
      })

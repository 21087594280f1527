-- ===== src/Broker/Serve.antt =====
-- `build_context_hint` of sidecar/autoskill/services/broker.py, with the cache.
use skill_kernel.Base.{
  ℕ, String, List, [], ◌∷◌, ◌++◌, Option, none, some, if◌then◌else◌, length, is_empty, is_blank,
  distinct_from, strip,
}
use skill_kernel.Jobs.Enqueue.{or_else}
use skill_kernel.Evaluator.Runtime.{Runtime}
use skill_kernel.Broker.Types.{
  Formats, RetrievalCandidate, Suppression, BrokerPolicy, ContextHintRequest, no_skill,
  ContextHintResponse, policy_response,
}
use skill_kernel.Broker.Select.{
  is_same_id, skill_ids_of, select_skill_candidates, apply_executor_compatibility,
  rerank_candidates,
}
use skill_kernel.Broker.Cache.{CachedContextHint, key, cache_get, cache_set}
use skill_kernel.Broker.Hint.{
  Call, record_context_hint, record_broker_calibration, record_context_governance,
  record_memory_influence, Stores, RetrievalResult, validate_memory_influence, response_log_id,
  semantic_candidates, answer_selection,
}

abbrev pub some_result :
    Option (ContextHintRequest → String → ℕ → RetrievalResult)
    → ContextHintRequest
    → String
    → ℕ
    → Option RetrievalResult
some_result none request query limit = none
some_result (some ask) request query limit = some (ask request query limit)

-- What a call of `build_context_hint` gives: the response, the entries of the cache if there is
-- one, and the calls that record the response.
pub record Served : Type 0 where
  pub response : ContextHintResponse
  pub cache : Option (List CachedContextHint)
  pub calls : List Call

abbrev pub recording_calls : ℕ → List Call
recording_calls candidate_count =
    record_context_hint
    ∷ record_broker_calibration candidate_count
    ∷ record_context_governance
    ∷ record_memory_influence
    ∷ []

module _ (rt : Runtime) (formats : Formats) (stores : Stores) (policy : BrokerPolicy) where
  -- The candidates with those that the graph adds, ranked, and those that the executor cannot use.
  abbrev pub ranked_candidates :
      ContextHintRequest
      → String
      → List RetrievalCandidate
      → List RetrievalCandidate × List Suppression
  ranked_candidates request query candidates =
      let graph_candidates =
        stores.expand_skill_graph request.workspace_id
          (distinct_from is_same_id [] (skill_ids_of candidates)) policy.graph_edge_kinds
          policy.graph_limit in
      apply_executor_compatibility rt formats stores.list_statuses request
        (rerank_candidates rt formats (candidates ++ graph_candidates) query)

  -- The response to a query that the cache does not answer, with the count of the candidates.
  unfoldable pub answer_query : ContextHintRequest → String → ContextHintResponse × ℕ
  answer_query request query =
      let lexical = stores.lexical_query request query policy.lexical_limit in
      let semantic = some_result stores.semantic_query request query policy.semantic_limit in
      let candidates = lexical.candidates ++ semantic_candidates semantic in
      let log_id = response_log_id lexical semantic in
      if is_empty candidates
      then (
        record (policy_response policy no_skill "retrieval-empty") {
          retrieval_log_id = log_id;
          reason_codes = "retrieval-empty" ∷ [];
        },
        0,
      )
      else let (ranked, incompatible) = ranked_candidates request query candidates in
        (
          answer_selection rt formats policy request log_id incompatible
              (select_skill_candidates rt ranked),
          length candidates,
        )

  -- `ttl_seconds` is that of the cache, `now_get` and `now_set` are what its calls read.
  unfoldable pub build_context_hint :
      ℕ → ℕ → ℕ → ContextHintRequest → Option (List CachedContextHint) → Served
  build_context_hint ttl_seconds now_get now_set request cache =
      let query = strip (or_else request.user_intent "") in
      let k = key formats.show_uuid rt.lower request query policy in
      let fresh = answer_query request query in
      if is_blank query
      then record {
        response = policy_response policy no_skill "empty-intent";
        cache = cache;
        calls = [];
      }
      else elim (validate_memory_influence stores.memory_status request policy) [
        | some blocked ↦ record { response = blocked.0; cache = cache; calls = blocked.1 }
        | none ↦ elim cache [
          | none ↦ record { response = fresh.0; cache = none; calls = recording_calls fresh.1 }
          | some entries ↦
              let looked = cache_get now_get k entries in
              elim looked.0 [
                | some hit ↦ record {
                  response = hit;
                  cache = some looked.1;
                  calls = record_memory_influence ∷ [];
                }
                | none ↦ record {
                  response = fresh.0;
                  cache = some (cache_set ttl_seconds now_set k fresh.0 looked.1);
                  calls = recording_calls fresh.1;
                }
              ]
        ]
      ]

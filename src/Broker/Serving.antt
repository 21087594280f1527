-- ===== src/Broker/Serving.antt =====
-- What a response that hints at skills satisfies.
use skill_kernel.Base.{
  ℕ, String, List, ◌++◌, none, some, ◌≡◌, refl, sym, subst, ap, inl, inr, leb, arith, All, All-In,
  All-of-In, find?, find?-In, filterb-In, is_empty, is_blank, strip, Bool-cases, Option-cases,
  ==_iff, All-append, str_eq_iff, true,
}
use skill_kernel.Jobs.Enqueue.{or_else}
use skill_kernel.Evaluator.Runtime.{Runtime}
use skill_kernel.Broker.Types.{
  Formats, RetrievalCandidate, BrokerPolicy, ContextHintRequest, no_skill, ContextHintResponse,
  policy_response,
}
use skill_kernel.Broker.Select.{rerank_candidates, select_skill_candidates}
use skill_kernel.Broker.Retrieved.{
  Within, select_skill_candidates-Within, apply_executor_compatibility-Within,
  rerank_candidates-Within,
}
use skill_kernel.Broker.Selection.{select_skill_candidates-split}
use skill_kernel.Broker.Cache.{
  CacheKey, CachedContextHint, key, same_key, is_under, pop, cache_get, cache_set,
}
use skill_kernel.Broker.Hint.{
  Stores, Call, semantic_candidates, validate_memory_influence, memory_ids, is_unapproved,
}
use skill_kernel.Broker.Serve.{
  Served, some_result, ranked_candidates, answer_query, build_context_hint,
}
use skill_kernel.Broker.Rendering.{answered, IsServable, unhinted, answer_selection-Servable}

some_injective {ℓ} : {A : Type ℓ} {a b : A} → some a ≡ some b → a ≡ b
some_injective e = cc

same_fields :
    {workspace workspace' profile profile' query query' policy policy' : String} {n n' : ℕ}
    → workspace ≡ workspace'
    → profile ≡ profile'
    → query ≡ query'
    → n ≡ n'
    → policy ≡ policy'
    → ◌≡◌ {A = CacheKey}
        (record {
          workspace_id = workspace;
          executor_profile_id = profile;
          query = query;
          max_tokens = n;
          policy_key = policy;
        })
        (record {
          workspace_id = workspace';
          executor_profile_id = profile';
          query = query';
          max_tokens = n';
          policy_key = policy';
        })
same_fields a b c d e = cc

-- Keys that are the same to the dict are equal.
same_key-eq : (a b : CacheKey) → same_key a b ≡ true → a ≡ b
unfolding same_key
same_key-eq a b h =
    same_fields ((str_eq_iff a.workspace_id b.workspace_id).0 (ground arith))
      ((str_eq_iff a.executor_profile_id b.executor_profile_id).0 (ground arith))
      ((str_eq_iff a.query b.query).0 (ground arith))
      (ground (arith, ==_iff a.max_tokens b.max_tokens))
      ((str_eq_iff a.policy_key b.policy_key).0 (ground arith))

module _ (rt : Runtime) (formats : Formats) (Asked : Stores → BrokerPolicy → Type 0) where
  -- No entry of the cache is a hint that may not be shown.
  abbrev pub AreServable : List CachedContextHint → Type 0
  AreServable entries = All (λ e. IsServable rt formats Asked e.key_of e.response) entries

  pop-Servable :
      (k : CacheKey) (entries : List CachedContextHint)
      → AreServable entries
      → AreServable (pop k entries)
  pop-Servable k entries h =
      All-of-In (λ e. IsServable rt formats Asked e.key_of e.response) _
        (λ e m.
          All-In (λ e. IsServable rt formats Asked e.key_of e.response) (filterb-In _ e entries m).0
            h)

  cache_get-Servable :
      (now : ℕ) (k : CacheKey) (entries : List CachedContextHint)
      → AreServable entries
      → AreServable (cache_get now k entries).1
        × ((hit : ContextHintResponse)
            → (cache_get now k entries).0 ≡ some hit
            → IsServable rt formats Asked k hit)
  unfolding cache_get same_key
  cache_get-Servable now k entries h = elim (Option-cases (find? (is_under k) entries)) [
    | inl e ↦ rw (e, cache_get) (h, λ hit missed. cc)
    | inr s ↦
        let (m, same) = find?-In (is_under k) entries s.0 s.1 in
        let same_keys : s.0.key_of ≡ k = sym (same_key-eq k s.0.key_of same) in
        let fits : IsServable rt formats Asked k s.0.response =
          subst (λ l. IsServable rt formats Asked l s.0.response) same_keys
            (All-In (λ e. IsServable rt formats Asked e.key_of e.response) m h) in
        elim (Bool-cases (leb s.0.expires_at now)) [
          | inl expired ↦ rw (s.1, expired, cache_get) (pop-Servable k entries h, λ hit missed. cc)
          | inr current ↦
              rw (s.1, current, cache_get)
                (h, λ hit e. subst (IsServable rt formats Asked k) (some_injective e) fits)
        ]
  ]

  -- The response may be given for the key, and the entries of the cache may be kept.
  abbrev pub IsSafe : CacheKey → Served → Type 0
  IsSafe k served =
      IsServable rt formats Asked k served.response
      × ((after : List CachedContextHint) → served.cache ≡ some after → AreServable after)

  cache_set-Servable :
      (ttl_seconds now : ℕ) (k : CacheKey) (res : ContextHintResponse)
      (entries : List CachedContextHint)
      → AreServable entries
      → IsServable rt formats Asked k res
      → AreServable (cache_set ttl_seconds now k res entries)
  unfolding cache_set
  cache_set-Servable ttl_seconds now k res entries h fits =
      All-append (λ e. IsServable rt formats Asked e.key_of e.response) _ _
        (pop-Servable k entries h) (fits, tt)

  module _ (stores : Stores) (policy : BrokerPolicy) (asked : Asked stores policy) where
    answer_query-Servable :
        (request : ContextHintRequest) (query : String)
        → IsServable rt formats Asked
            (key formats.show_uuid rt.lower request query policy)
            (answer_query rt formats stores policy request query).0
    unfolding answer_query policy_response
    answer_query-Servable request query =
        let lexical = stores.lexical_query request query policy.lexical_limit in
        let semantic = some_result stores.semantic_query request query policy.semantic_limit in
        let candidates = lexical.candidates ++ semantic_candidates semantic in
        let everything = answered rt formats stores policy request query in
        let ranked : List RetrievalCandidate =
          (ranked_candidates rt formats stores policy request query candidates).0 in
        let h = select_skill_candidates-split rt ranked in
        let within : Within (select_skill_candidates rt ranked).selected everything = λ c m.
          rerank_candidates-Within rt formats everything query c (
            apply_executor_compatibility-Within rt formats stores.list_statuses request
              (rerank_candidates rt formats everything query) c
              (select_skill_candidates-Within rt ranked c m)) in
        elim (Bool-cases (is_empty candidates)) [
          | inl nothing ↦ rw (nothing, answer_query) (λ hinted. cc)
          | inr something ↦
              rw (something, answer_query)
                (answer_selection-Servable rt formats Asked stores policy asked request query _ _
                  (select_skill_candidates rt ranked) within h.0 h.1)
        ]

    -- A blocked request gets no skill.
    validate-unhinted :
        (request : ContextHintRequest) (blocked : ContextHintResponse × List Call)
        → validate_memory_influence stores.memory_status request policy ≡ some blocked
        → blocked.0.decision ≡ no_skill
    unfolding validate_memory_influence policy_response
    validate-unhinted request blocked h = elim (Bool-cases (is_empty (memory_ids request))) [
      | inl nothing ↦
          let e : none ≡ some blocked = rw (nothing, validate_memory_influence) at h in cc
      | inr something ↦ elim (Option-cases stores.memory_status) [
        | inl e ↦
            let f = rw (something, e, validate_memory_influence) at h in
            sym (ap (λ b. b.0.decision) (some_injective f))
        | inr s ↦ elim (Option-cases (find? (is_unapproved s.0) (memory_ids request))) [
          | inl e ↦
              let f : none ≡ some blocked =
                rw (something, s.1, e, validate_memory_influence) at h in
              cc
          | inr i ↦
              let f = rw (something, s.1, i.1, validate_memory_influence) at h in
              sym (ap (λ b. b.0.decision) (some_injective f))
        ]
      ]
    ]

    -- Let `Asked` hold of the stores and the policy of this call and of the earlier ones. A response
    -- hints at skills only if its hint renders candidates that such stores answered, under such a
    -- policy, to a request with the same key of the cache (workspace, executor, lower-case query,
    -- token limit and policy). Each of them has a runtime state and a passed secret scan, no two are the same, none is
    -- there by a conflict edge, the scanner finds nothing that blocks in their summaries with the
    -- hint, and the hint has at most four characters for each token of the request (one token at
    -- least). So it is for a response from the cache, if it is for the entries of the cache before;
    -- and so it is for the entries after.
    pub build_context_hint-IsSafe :
        (ttl_seconds now_get now_set : ℕ) (request : ContextHintRequest)
        (entries : List CachedContextHint)
        → AreServable entries
        → IsSafe
            (key formats.show_uuid rt.lower request (strip (or_else request.user_intent "")) policy)
            (build_context_hint rt formats stores policy ttl_seconds now_get now_set request
              (some entries))
    unfolding build_context_hint policy_response
    build_context_hint-IsSafe ttl_seconds now_get now_set request entries h =
        let query = strip (or_else request.user_intent "") in
        let k = key formats.show_uuid rt.lower request query policy in
        let (kept, hits) = cache_get-Servable now_get k entries h in
        elim (Bool-cases (is_blank query)) [
          | inl blank ↦
              rw (blank, build_context_hint)
                (
                  unhinted rt formats Asked k (policy_response policy no_skill "empty-intent")
                      (inl refl),
                  λ after e. subst AreServable (some_injective e) h,
                )
          | inr stated ↦
              elim (Option-cases (validate_memory_influence stores.memory_status request policy)) [
                | inr blocked ↦
                    rw (stated, blocked.1, build_context_hint)
                      (
                        unhinted rt formats Asked k blocked.0.0
                            (inl (validate-unhinted request blocked.0 blocked.1)),
                        λ after e. subst AreServable (some_injective e) h,
                      )
                | inl free ↦ elim (Option-cases (cache_get now_get k entries).0) [
                  | inr hit ↦
                      rw (stated, free, hit.1, build_context_hint)
                        (hits hit.0 hit.1, λ after e. subst AreServable (some_injective e) kept)
                  | inl missed ↦
                      rw (stated, free, missed, build_context_hint)
                        (
                          answer_query-Servable request query,
                          λ after e. subst AreServable (some_injective e) (
                              cache_set-Servable ttl_seconds now_set k _ _ kept
                                (answer_query-Servable request query)),
                        )
                ]
              ]
        ]

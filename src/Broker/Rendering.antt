-- ===== src/Broker/Rendering.antt =====
-- What a rendered selection satisfies.
use Prim.Native.String.{count, ◌++◌ as append_text}
use text.Mathlib.TextLemmas.{length-append}
use skill_kernel.Base.{
  ℕ, zero, suc, String, Bool, false, ◌||◌, List, [], ◌∷◌, ◌++◌, Option, ◌≡◌, ◌≢◌, refl, sym, subst,
  ◌∙◌, ◌⊎◌, inl, inr, ◌-◌, ◌*◌, ◌≤◌, max, arith, if◌then◌else◌, take, In, In-cons, here, there, All,
  All-In, All-of-In, Apart, any, is_empty, rstrip, text_take, join, count-text_take, count-rstrip,
  Bool-cases, Option-cases, distinct_from,
}
use skill_kernel.Evaluator.Runtime.{Runtime}
use skill_kernel.Scanner.Scan.{ScannerFinding, is_blocking, has_blocking_findings, scan_text_bundle}
use skill_kernel.Broker.Types.{
  Formats, RetrievalCandidate, BrokerPolicy, ContextHintRequest, no_skill, defer_skill, skill_hint,
  ContextHintResponse, Suppression, policy_response,
}
use skill_kernel.Broker.Select.{Selection, is_same_id, skill_ids_of}
use skill_kernel.Broker.Retrieved.{Within}
use skill_kernel.Broker.Cache.{CacheKey, key}
use skill_kernel.Broker.Serve.{some_result}
use skill_kernel.Broker.Selection.{IsRuntimeSkill}
use skill_kernel.Broker.Hint.{
  conflict_finding, header_lines, footer_line, candidate_lines, render_hint, is_conflict,
  bundle_parts, scan_rendered_bundle, answer_selection, Stores, semantic_candidates,
}

module _ (rt : Runtime) (formats : Formats) (stores : Stores) (policy : BrokerPolicy) where
  -- What the stores answer to a request: the candidates of both queries, and those that the graph
  -- gives for their skills.
  abbrev pub answered : ContextHintRequest → String → List RetrievalCandidate
  answered request query =
      let lexical = stores.lexical_query request query policy.lexical_limit in
      let semantic = some_result stores.semantic_query request query policy.semantic_limit in
      let candidates = lexical.candidates ++ semantic_candidates semantic in
      candidates
      ++ stores.expand_skill_graph request.workspace_id
          (distinct_from is_same_id [] (skill_ids_of candidates)) policy.graph_edge_kinds
          policy.graph_limit

-- `Asked` holds of the stores, with what they answered, and the policies that the broker was called
-- with so far. The hint renders candidates that such stores answered to a request with the key. They
-- are runtime skills, none is there twice and none by a conflict edge; the scanner, which reads their
-- summaries and the hint together, finds nothing that blocks; and the hint has at most four
-- characters for each token of the limit.
abbrev pub IsServable :
    Runtime → Formats → (Stores → BrokerPolicy → Type 0) → CacheKey → ContextHintResponse → Type 0
IsServable rt formats Asked k res =
    res.decision ≡ skill_hint
    → (stores : Stores) × (policy : BrokerPolicy) × (request : ContextHintRequest)
      × (query : String) × (shown : List RetrievalCandidate) × Asked stores policy
      × (key formats.show_uuid rt.lower request query policy ≡ k)
      × Within shown (answered rt formats stores policy request query)
      × (res.hint ≡ render_hint rt formats shown k.max_tokens)
      × All (IsRuntimeSkill rt) shown
      × (res.skill_ids ≡ skill_ids_of shown)
      × Apart (λ i j. ◌≢◌ i j) (skill_ids_of shown)
      × (has_blocking_findings (scan_text_bundle rt.matcher (bundle_parts shown res.hint)) ≡ false)
      × (any (is_conflict rt) shown ≡ false)
      × (count res.hint ≤ k.max_tokens * 4)

cut-count :
    (n : ℕ) (s : String) → 3 ≤ n → count (append_text (rstrip (text_take (n - 3) s)) "...") ≤ n
cut-count n s h = omega (
  arith,
  length-append (rstrip (text_take (n - 3) s)) "...",
  count-rstrip (text_take (n - 3) s),
  count-text_take (n - 3) s,
)

-- Shortened or not, the hint keeps to its budget.
render_hint-count :
    (rt : Runtime) (formats : Formats) (cs : List RetrievalCandidate) (limit : ℕ)
    → 1 ≤ limit
    → count (render_hint rt formats cs limit) ≤ limit * 4
unfolding render_hint
render_hint-count rt formats cs limit h =
    let whole : String =
      join "\n" (header_lines ++ (candidate_lines rt formats cs ++ footer_line ∷ [])) in
    ground (arith, cut-count (limit * 4) whole)

any-append :
    (p : ScannerFinding → Bool) (xs ys : List ScannerFinding)
    → any p (xs ++ ys) ≡ (any p xs || any p ys)
any-append p [] ys = refl
any-append p (x ∷ xs) ys = ground (arith, any-append p xs ys)

-- A rendered bundle without a blocking finding has none in its texts, and no conflict edge.
scan_rendered_bundle-clear :
    (rt : Runtime) (cs : List RetrievalCandidate) (hint : String)
    → has_blocking_findings (scan_rendered_bundle rt cs hint) ≡ false
    → (has_blocking_findings (scan_text_bundle rt.matcher (bundle_parts cs hint)) ≡ false)
      × (any (is_conflict rt) cs ≡ false)
unfolding has_blocking_findings scan_rendered_bundle
scan_rendered_bundle-clear rt cs hint h =
    let found = scan_text_bundle rt.matcher (bundle_parts cs hint) in
    let tail = if any (is_conflict rt) cs then conflict_finding ∷ [] else [] in
    let e : (any is_blocking found || any is_blocking tail) ≡ false =
      sym (any-append is_blocking found tail) ∙ h in
    ground arith

take-In {ℓ} : {A : Type ℓ} (n : ℕ) (a : A) (xs : List A) → In a (take n xs) → In a xs
take-In zero a xs m = elim m [ ]
take-In (suc n) a [] m = m
take-In (suc n) a (x ∷ xs) here = here
take-In (suc n) a (x ∷ xs) (there m) = there (take-In n a xs m)

taken_ids :
    (n i : ℕ) (cs : List RetrievalCandidate)
    → In i (skill_ids_of (take n cs))
    → In i (skill_ids_of cs)
taken_ids zero i cs m = elim m [ ]
taken_ids (suc n) i [] m = m
taken_ids (suc n) i (c ∷ cs) m = elim (Option-cases c.skill_id) [
  | inl e ↦ rw e (taken_ids n i cs (rw e at m))
  | inr s ↦
      let k : In i (s.0 ∷ skill_ids_of (take n cs)) = rw s.1 at m in
      rw s.1 (elim (In-cons k) [
        | inl same ↦ subst (λ j. In j (s.0 ∷ skill_ids_of cs)) (sym same) here
        | inr j ↦ there (taken_ids n i cs j)
      ])
]

taken-Apart :
    (n : ℕ) (cs : List RetrievalCandidate)
    → Apart (λ i j. ◌≢◌ i j) (skill_ids_of cs)
    → Apart (λ i j. ◌≢◌ i j) (skill_ids_of (take n cs))
taken-Apart zero cs h = tt
taken-Apart (suc n) [] h = tt
taken-Apart (suc n) (c ∷ cs) h = elim (Option-cases c.skill_id) [
  | inl e ↦ rw e (taken-Apart n cs (rw e at h))
  | inr s ↦
      let k : Apart (λ i j. ◌≢◌ i j) (s.0 ∷ skill_ids_of cs) = rw s.1 at h in
      rw s.1 (
        All-of-In (λ j. ◌≢◌ s.0 j) _ (λ j m. All-In (λ j. ◌≢◌ s.0 j) (taken_ids n j cs m) k.0),
        taken-Apart n cs k.1,
      )
]

module _ (rt : Runtime) (formats : Formats) (Asked : Stores → BrokerPolicy → Type 0) where
  pub unhinted :
      (k : CacheKey) (res : ContextHintResponse)
      → res.decision ≡ no_skill ⊎ (res.decision ≡ defer_skill)
      → IsServable rt formats Asked k res
  unhinted k res h hinted = elim h [ inl e ↦ cc | inr e ↦ cc ]

  pub answer_selection-Servable :
      (stores : Stores) (policy : BrokerPolicy)
      → Asked stores policy
      → (request : ContextHintRequest) (query : String) (log_id : Option ℕ) (ss : List Suppression)
        (s : Selection)
      → Within s.selected (answered rt formats stores policy request query)
      → All (IsRuntimeSkill rt) s.selected
      → Apart (λ i j. ◌≢◌ i j) (skill_ids_of s.selected)
      → IsServable rt formats Asked
          (key formats.show_uuid rt.lower request query policy)
          (answer_selection rt formats policy request log_id ss s)
  unfolding answer_selection policy_response key
  answer_selection-Servable stores policy asked request query log_id ss s within runtime apart =
      let limit = max 1 request.max_tokens in
      let shown = take policy.max_rendered_skills s.selected in
      let hint = render_hint rt formats shown limit in
      elim (Bool-cases (is_empty s.selected)) [
        | inl nothing ↦ rw nothing (λ hinted. cc)
        | inr something ↦
            elim (Bool-cases (has_blocking_findings (scan_rendered_bundle rt shown hint))) [
              | inl stopped ↦ rw (something, stopped) (λ hinted. cc)
              | inr clear ↦
                  let (unblocked, harmonious) = scan_rendered_bundle-clear rt shown hint clear in
                  rw (something, clear)
                    (λ hinted. (
                      stores,
                      policy,
                      request,
                      query,
                      shown,
                      asked,
                      refl,
                      λ c m. within c (take-In policy.max_rendered_skills c s.selected m),
                      refl,
                      All-of-In (IsRuntimeSkill rt) shown (λ c m.
                          All-In (IsRuntimeSkill rt)
                            (take-In policy.max_rendered_skills c s.selected m) runtime),
                      refl,
                      taken-Apart policy.max_rendered_skills s.selected apart,
                      unblocked,
                      harmonious,
                      render_hint-count rt formats shown limit (omega arith),
                    ))
            ]
      ]

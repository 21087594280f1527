-- ===== src/Broker/Retrieved.antt =====
-- Ranking, the executor's compatibility and the selection of sidecar/autoskill/services/broker.py
-- add no candidates: what they keep is among what the stores answered.
use skill_kernel.Base.{
  ℕ, String, List, [], ◌∷◌, ◌++◌, Option, none, some, ◌≡◌, refl, sym, subst, ◌⊎◌, inl, inr, In,
  In-cons, here, there, any, is_empty, distinct_from, if◌then◌else◌, Bool-cases, Option-cases,
}
use skill_kernel.Evaluator.Runtime.{Runtime}
use skill_kernel.Broker.Types.{Formats, RetrievalCandidate, ContextHintRequest}
use skill_kernel.Broker.Select.{
  Verdict, hide, promote, choose, is_same_id, verdict, select_from, select_skill_candidates,
  version_ids, executor_block, filter_compatible, apply_executor_compatibility, score, terms_of,
  is_same_object, add_candidate, dedupe_candidates, ranks_before, insert_ranked, sort_ranked,
  rerank_candidates,
}

-- Every member of the one list is one of the other.
abbrev pub Within : List RetrievalCandidate → List RetrievalCandidate → Type 0
Within xs ys = (c : RetrievalCandidate) → In c xs → In c ys

Within-cons :
    (d : RetrievalCandidate) (xs ys : List RetrievalCandidate)
    → Within xs ys
    → Within (d ∷ xs) (d ∷ ys)
Within-cons d xs ys h c here = here
Within-cons d xs ys h c (there m) = there (h c m)

Within-skip :
    (d : RetrievalCandidate) (xs ys : List RetrievalCandidate) → Within xs ys → Within xs (d ∷ ys)
Within-skip d xs ys h c m = there (h c m)

-- The first two of a list change places.
Within-swap :
    (d e : RetrievalCandidate) (xs ys : List RetrievalCandidate)
    → Within xs (e ∷ ys)
    → Within (d ∷ xs) (e ∷ d ∷ ys)
Within-swap d e xs ys h c here = there here
Within-swap d e xs ys h c (there m) = elim (In-cons (h c m)) [
  | inl same ↦ subst (λ a. In a (e ∷ d ∷ ys)) (sym same) here
  | inr n ↦ there (there n)
]

module _ (rt : Runtime) where
  select_from-step :
      (seen archived : List ℕ) (c : RetrievalCandidate) (cs : List RetrievalCandidate) (v : Verdict)
      → verdict rt seen c ≡ v
      → ((seen' archived' : List ℕ) → Within (select_from rt seen' archived' cs).selected cs)
      → Within (select_from rt seen archived (c ∷ cs)).selected (c ∷ cs)
  unfolding select_from
  select_from-step seen archived c cs (hide reason) e rest =
      rw (e, select_from) (Within-skip c _ cs (rest seen archived))
  select_from-step seen archived c cs (promote i) e rest =
      rw (e, select_from)
        (Within-skip c _ cs
          (rest seen (if any (is_same_id i) archived then archived else archived ++ i ∷ [])))
  select_from-step seen archived c cs (choose i) e rest =
      rw (e, select_from) (Within-cons c _ cs (rest (i ∷ seen) archived))

  select_from-Within :
      (seen archived : List ℕ) (cs : List RetrievalCandidate)
      → Within (select_from rt seen archived cs).selected cs
  unfolding select_from
  select_from-Within seen archived [] = λ c m. elim m [ ]
  select_from-Within seen archived (c ∷ cs) =
      select_from-step seen archived c cs (verdict rt seen c) refl
        (λ seen' archived'. select_from-Within seen' archived' cs)

  pub select_skill_candidates-Within :
      (cs : List RetrievalCandidate) → Within (select_skill_candidates rt cs).selected cs
  unfolding select_skill_candidates
  select_skill_candidates-Within cs = select_from-Within [] [] cs

module _ (rt : Runtime) (formats : Formats) where
  filter_compatible-Within :
      (statuses : List (ℕ × String)) (cs : List RetrievalCandidate)
      → Within (filter_compatible rt formats statuses cs).0 cs
  unfolding filter_compatible
  filter_compatible-Within statuses [] = λ c m. m
  filter_compatible-Within statuses (c ∷ cs) =
      elim (Option-cases (executor_block rt formats statuses c)) [
        | inl kept ↦
            rw (kept, filter_compatible) (Within-cons c _ cs (filter_compatible-Within statuses cs))
        | inr (status, dropped) ↦
            rw (dropped, filter_compatible)
              (Within-skip c _ cs (filter_compatible-Within statuses cs))
      ]

  pub apply_executor_compatibility-Within :
      (list_statuses : Option (String → ℕ → List ℕ → List (ℕ × String)))
      (request : ContextHintRequest) (cs : List RetrievalCandidate)
      → Within (apply_executor_compatibility rt formats list_statuses request cs).0 cs
  unfolding apply_executor_compatibility
  apply_executor_compatibility-Within none request cs = λ c m. m
  apply_executor_compatibility-Within (some list_statuses) request cs =
      elim (Option-cases request.executor_profile_id) [
        | inl e ↦ rw (e, apply_executor_compatibility) (λ c m. m)
        | inr (profile, e) ↦
            let versions = distinct_from is_same_id [] (version_ids rt formats cs) in
            elim (Bool-cases (is_empty versions)) [
              | inl nothing ↦ rw (e, nothing, apply_executor_compatibility) (λ c m. m)
              | inr something ↦
                  rw (e, something, apply_executor_compatibility)
                    (filter_compatible-Within (list_statuses request.workspace_id profile versions)
                      cs)
            ]
      ]

  module _ (query_terms : List String) where
    add_candidate-Within :
        (c : RetrievalCandidate) (ds : List RetrievalCandidate)
        → Within (add_candidate rt formats query_terms c ds) (c ∷ ds)
    unfolding add_candidate
    add_candidate-Within c [] = λ a m. m
    add_candidate-Within c (d ∷ ds) = elim (Bool-cases (is_same_object rt formats d c)) [
      | inr other ↦ rw (other, add_candidate) (Within-swap d c _ ds (add_candidate-Within c ds))
      | inl same ↦
          elim (Bool-cases
            (rt.less (score rt formats query_terms d) (score rt formats query_terms c))) [
              | inl better ↦
                  rw (same, better, add_candidate)
                    (Within-cons c ds (d ∷ ds) (Within-skip d ds ds (λ a m. m)))
              | inr worse ↦
                  rw (same, worse, add_candidate) (Within-skip c (d ∷ ds) (d ∷ ds) (λ a m. m))
            ]
    ]

    -- A candidate of the dict or of the list is one of them both together.
    abbrev Among : List RetrievalCandidate → List RetrievalCandidate → RetrievalCandidate → Type 0
    Among ds cs a = In a ds ⊎ In a cs

    dedupe_candidates-Among :
        (ds cs : List RetrievalCandidate) (a : RetrievalCandidate)
        → In a (dedupe_candidates rt formats query_terms ds cs)
        → Among ds cs a
    unfolding dedupe_candidates
    dedupe_candidates-Among ds [] a m = inl m
    dedupe_candidates-Among ds (c ∷ cs) a m =
        elim (dedupe_candidates-Among (add_candidate rt formats query_terms c ds) cs a m) [
          | inr n ↦ inr (there n)
          | inl n ↦ elim (In-cons (add_candidate-Within c ds a n)) [
            | inl same ↦ inr (subst (λ b. In b (c ∷ cs)) (sym same) here)
            | inr k ↦ inl k
          ]
        ]

    insert_ranked-Within :
        (c : RetrievalCandidate) (ds : List RetrievalCandidate)
        → Within (insert_ranked rt formats query_terms c ds) (c ∷ ds)
    unfolding insert_ranked
    insert_ranked-Within c [] = λ a m. m
    insert_ranked-Within c (d ∷ ds) = elim (Bool-cases (ranks_before rt formats query_terms d c)) [
      | inl after ↦ rw (after, insert_ranked) (Within-swap d c _ ds (insert_ranked-Within c ds))
      | inr first ↦ rw (first, insert_ranked) (λ a m. m)
    ]

    sort_ranked-Within :
        (cs : List RetrievalCandidate) → Within (sort_ranked rt formats query_terms cs) cs
    unfolding sort_ranked
    sort_ranked-Within [] = λ a m. m
    sort_ranked-Within (c ∷ cs) = λ a m.
        elim (In-cons (insert_ranked-Within c (sort_ranked rt formats query_terms cs) a m)) [
          | inl same ↦ subst (λ b. In b (c ∷ cs)) (sym same) here
          | inr n ↦ there (sort_ranked-Within cs a n)
        ]

  pub rerank_candidates-Within :
      (cs : List RetrievalCandidate) (query : String)
      → Within (rerank_candidates rt formats cs query) cs
  unfolding rerank_candidates
  rerank_candidates-Within cs query = λ a m.
      let n =
        sort_ranked-Within (terms_of rt formats query)
          (dedupe_candidates rt formats (terms_of rt formats query) [] cs) a m in
      elim (dedupe_candidates-Among (terms_of rt formats query) [] cs a n) [
        | inl k ↦ elim k [ ]
        | inr k ↦ k
      ]

-- ===== src/Broker/Select.antt =====
-- Which candidates may be rendered: `_rerank_candidates`, `_apply_executor_compatibility` and
-- `_select_skill_candidates` of sidecar/autoskill/services/broker.py.
use Prim.Native.Nat.{Ordering}
use Prim.Native.String.{compare, count, ◌++◌ as append_text}
use skill_kernel.Base.{
  ℕ, String, str_eq, Bool, true, false, not, ◌&&◌, ◌||◌, List, [], ◌∷◌, ◌++◌, Option, none, some,
  ◌==◌, ltb, ◌*◌, if◌then◌else◌, length, any, find?, filterb, is_empty, distinct_from, member,
  common, Float, null, str,
}
use skill_kernel.Evaluator.Runtime.{Runtime}
use skill_kernel.Broker.Types.{
  RetrievalCandidate, ContextHintRequest, Suppression, suppressed, Formats, get_or,
}

abbrev pub is_same_id : ℕ → ℕ → Bool
is_same_id a b = a == b

abbrev pub skill_ids_of : List RetrievalCandidate → List ℕ
skill_ids_of [] = []
skill_ids_of (c ∷ cs) = elim c.skill_id [ none ↦ skill_ids_of cs | some i ↦ i ∷ skill_ids_of cs ]

-- What the three lists of the loop hold.
pub record Selection : Type 0 where
  pub selected : List RetrievalCandidate
  pub suppressed_of : List Suppression
  pub archive_promotion_skill_ids : List ℕ

abbrev pub suppress : RetrievalCandidate → String → Selection → Selection
suppress c reason s = record s { suppressed_of = suppressed c reason ∷ s.suppressed_of }

abbrev pub select_one : RetrievalCandidate → Selection → Selection
select_one c s = record s { selected = c ∷ s.selected }

-- A branch of the body of the loop.
pub data Verdict : Type 0 where
  hide : String → Verdict
  promote : ℕ → Verdict
  choose : ℕ → Verdict

abbrev pub runtime_visible_lifecycle_states : List String
runtime_visible_lifecycle_states = "active" ∷ "canary_active" ∷ []

module _ (rt : Runtime) where
  -- `str(candidate.metadata.get(key, "unknown"))`
  abbrev pub described : String → RetrievalCandidate → String
  described key c = rt.str_of (get_or (str "unknown") key c.metadata)

  -- What the loop does with a candidate that has a skill, after the skills `seen`.
  unfoldable pub skill_verdict : List ℕ → RetrievalCandidate → ℕ → Verdict
  skill_verdict seen c skill_id =
      if not (member (described "secret_scan_status" c) ("passed" ∷ "clean" ∷ []))
      then hide "secret-scan-not-passed"
      else if str_eq (described "lifecycle_state" c) "archived"
      then promote skill_id
      else if not (member (described "lifecycle_state" c) runtime_visible_lifecycle_states)
      then hide (append_text "lifecycle-" (described "lifecycle_state" c))
      else if any (is_same_id skill_id) seen
      then hide "duplicate-skill"
      else choose skill_id

  unfoldable pub verdict : List ℕ → RetrievalCandidate → Verdict
  verdict seen c =
      if str_eq c.object_type "external_skill"
      then hide "external-skill-collision"
      else if not (str_eq c.object_type "body_index_document")
      then hide "not-runtime-skill"
      else elim c.skill_id [
        | none ↦ hide "not-runtime-skill"
        | some skill_id ↦ skill_verdict seen c skill_id
      ]

  -- The rest of the loop, which has seen the skills `seen` and noted the archived ones `archived`.
  unfoldable pub select_from : List ℕ → List ℕ → List RetrievalCandidate → Selection
  select_from seen archived [] = record {
    selected = [];
    suppressed_of = [];
    archive_promotion_skill_ids = archived;
  }
  select_from seen archived (c ∷ cs) = elim (verdict seen c) [
    | hide reason ↦ suppress c reason (select_from seen archived cs)
    | promote i ↦
        suppress c "archived-promotion-candidate" (
          select_from seen (if any (is_same_id i) archived then archived else archived ++ i ∷ [])
            cs)
    | choose i ↦ select_one c (select_from (i ∷ seen) archived cs)
  ]

  unfoldable pub select_skill_candidates : List RetrievalCandidate → Selection
  select_skill_candidates candidates = select_from [] [] candidates

module _ (rt : Runtime) (formats : Formats) where
  unfoldable pub candidate_skill_version_id : RetrievalCandidate → Option ℕ
  candidate_skill_version_id c = elim (get_or null "skill_version_id" c.metadata) [
    | null ↦ none
    | value ↦ formats.uuid_of (rt.str_of value)
  ]

  abbrev pub version_ids : List RetrievalCandidate → List ℕ
  version_ids [] = []
  version_ids (c ∷ cs) = elim (candidate_skill_version_id c) [
    | none ↦ version_ids cs
    | some i ↦ i ∷ version_ids cs
  ]

  -- `statuses.get(skill_version_id) if skill_version_id else None`, if it is blocked or drifted.
  unfoldable pub executor_block : List (ℕ × String) → RetrievalCandidate → Option String
  executor_block statuses c = elim (candidate_skill_version_id c) [
    | none ↦ none
    | some v ↦ elim (find? (λ s. s.0 == v) statuses) [
      | none ↦ none
      | some s ↦ if member s.1 ("blocked" ∷ "drifted" ∷ []) then some s.1 else none
    ]
  ]

  abbrev pub keep_unless :
      RetrievalCandidate → Option String → List RetrievalCandidate → List RetrievalCandidate
  keep_unless c none cs = c ∷ cs
  keep_unless c (some status) cs = cs

  abbrev pub unless_kept : RetrievalCandidate → Option String → List Suppression → List Suppression
  unless_kept c none ss = ss
  unless_kept c (some status) ss = suppressed c (append_text "executor-" status) ∷ ss

  unfoldable pub filter_compatible :
      List (ℕ × String) → List RetrievalCandidate → List RetrievalCandidate × List Suppression
  filter_compatible statuses [] = ([], [])
  filter_compatible statuses (c ∷ cs) =
      let rest = filter_compatible statuses cs in
      let block = executor_block statuses c in
      (keep_unless c block rest.0, unless_kept c block rest.1)

  -- `compatibility.list_statuses` is a parameter, None without a store.
  unfoldable pub apply_executor_compatibility :
      Option (String → ℕ → List ℕ → List (ℕ × String))
      → ContextHintRequest
      → List RetrievalCandidate
      → List RetrievalCandidate × List Suppression
  apply_executor_compatibility none request candidates = (candidates, [])
  apply_executor_compatibility (some list_statuses) request candidates =
      elim request.executor_profile_id [
        | none ↦ (candidates, [])
        | some profile ↦
            let versions = distinct_from is_same_id [] (version_ids candidates) in
            if is_empty versions
            then (candidates, [])
            else filter_compatible (list_statuses request.workspace_id profile versions) candidates
      ]

  -- `_terms`: the words of at least three letters.
  unfoldable pub terms_of : String → List String
  terms_of text =
      distinct_from str_eq [] (filterb (λ t. ltb 2 (count t)) (formats.found_terms (rt.lower text)))

  -- A bonus of so many thousandths.
  abbrev lifecycle_bonus : String → Float → Float
  lifecycle_bonus state x =
      if str_eq state "active"
      then rt.add x (rt.milli 250)
      else if str_eq state "candidate"
      then rt.add x (rt.milli 50)
      else if str_eq state "archived"
      then rt.sub x (rt.milli 150)
      else if str_eq state "frozen"
      then rt.sub x (rt.milli 1000)
      else if str_eq state "quarantined"
      then rt.sub x (rt.milli 2000)
      else if str_eq state "deleted"
      then rt.sub x (rt.milli 3000)
      else rt.add x (rt.milli 0)

  abbrev edge_bonus : String → Float → Float
  edge_bonus edge x =
      if str_eq edge "prerequisite"
      then rt.add x (rt.milli 200)
      else if str_eq edge "conflict"
      then rt.sub x (rt.milli 50)
      else if str_eq edge "shadow"
      then rt.sub x (rt.milli 100)
      else if str_eq edge "supersedes"
      then rt.add x (rt.milli 50)
      else rt.add x (rt.milli 0)

  -- `overlap * 0.1`: the count of the shared terms as a float.
  unfoldable pub score : List String → RetrievalCandidate → Float
  score query_terms c =
      let overlap = rt.milli (1000 * length (common query_terms (terms_of c.summary))) in
      edge_bonus (rt.str_of (get_or (str "") "graph_edge_kind" c.metadata)) (
        lifecycle_bonus (described rt "lifecycle_state" c)
          (rt.add c.rank (rt.mul overlap (rt.milli 100))))

  abbrev pub is_same_object : RetrievalCandidate → RetrievalCandidate → Bool
  is_same_object a b = str_eq a.object_type b.object_type && a.object_id == b.object_id

  -- The dict `deduped`, to which one candidate is added.
  unfoldable pub add_candidate :
      List String → RetrievalCandidate → List RetrievalCandidate → List RetrievalCandidate
  add_candidate query_terms c [] = c ∷ []
  add_candidate query_terms c (d ∷ ds) =
      let rest = add_candidate query_terms c ds in
      if is_same_object d c
      then (if rt.less (score query_terms d) (score query_terms c) then c else d) ∷ ds
      else d ∷ rest

  unfoldable pub dedupe_candidates :
      List String → List RetrievalCandidate → List RetrievalCandidate → List RetrievalCandidate
  dedupe_candidates query_terms deduped [] = deduped
  dedupe_candidates query_terms deduped (c ∷ cs) =
      dedupe_candidates query_terms (add_candidate query_terms c deduped) cs

  abbrev is_after : String → String → Bool
  is_after a b = elim (compare a b) [ Ordering.gt ↦ true | _ ↦ false ]

  -- The candidate comes before the other in the descending order of (score, summary); the order of
  -- scores that are NaN is left open by Python's sort, and here their summaries decide.
  unfoldable pub ranks_before : List String → RetrievalCandidate → RetrievalCandidate → Bool
  ranks_before query_terms a b =
      let x = score query_terms a in
      let y = score query_terms b in
      rt.less y x || (not (rt.less x y) && is_after a.summary b.summary)

  -- Equal candidates keep their order.
  unfoldable pub insert_ranked :
      List String → RetrievalCandidate → List RetrievalCandidate → List RetrievalCandidate
  insert_ranked query_terms c [] = c ∷ []
  insert_ranked query_terms c (d ∷ ds) =
      let rest = insert_ranked query_terms c ds in
      if ranks_before query_terms d c then d ∷ rest else c ∷ d ∷ ds

  unfoldable pub sort_ranked : List String → List RetrievalCandidate → List RetrievalCandidate
  sort_ranked query_terms [] = []
  sort_ranked query_terms (c ∷ cs) = insert_ranked query_terms c (sort_ranked query_terms cs)

  unfoldable pub rerank_candidates : List RetrievalCandidate → String → List RetrievalCandidate
  rerank_candidates candidates query =
      let query_terms = terms_of query in
      sort_ranked query_terms (dedupe_candidates query_terms [] candidates)

-- ===== src/Broker/Selection.antt =====
-- What the selected candidates satisfy.
use skill_kernel.Base.{
  ℕ, String, str_eq, str_eq_iff, Bool, true, false, not, if◌then◌else◌, List, [], ◌∷◌, ◌++◌, some,
  ◌≡◌, ◌≢◌, refl, sym, subst, ap, ◌∙◌, ◌⊎◌, inl, inr, ◌+◌, ==_refl, arith, length, In, here, there,
  All, All-In, All-of-In, Apart, any, member, Bool-cases, Option-cases,
}
use skill_kernel.Evaluator.Runtime.{Runtime}
use skill_kernel.Broker.Types.{RetrievalCandidate, suppressed}
use skill_kernel.Broker.Select.{
  Selection, Verdict, hide, promote, choose, is_same_id, skill_ids_of,
  runtime_visible_lifecycle_states, described, skill_verdict, verdict, select_from, select_one,
  suppress, select_skill_candidates,
}

-- A document of a skill that may be shown at run time: its secret scan passed, and its skill is
-- active or a canary.
abbrev pub IsRuntimeSkill : Runtime → RetrievalCandidate → Type 0
IsRuntimeSkill rt c =
    (c.object_type ≡ "body_index_document")
    × ((i : ℕ) × (c.skill_id ≡ some i))
    × (member (described rt "secret_scan_status" c) ("passed" ∷ "clean" ∷ []) ≡ true)
    × (member (described rt "lifecycle_state" c) runtime_visible_lifecycle_states ≡ true)

-- Of the branches for a candidate with a skill, only the last one chooses it.
choose_lem :
    (scanned archived visible repeated : Bool) (reason : String) (j i : ℕ)
    → (if not scanned
        then hide "secret-scan-not-passed"
        else if archived
        then promote j
        else if not visible
        then hide reason
        else if repeated
        then hide "duplicate-skill"
        else choose j)
      ≡ choose i
    → (j ≡ i) × (repeated ≡ false) × (scanned ≡ true) × (visible ≡ true)
choose_lem true false true false reason j i h = (cc, refl, refl, refl)
choose_lem false archived visible repeated reason j i h = cc
choose_lem true true visible repeated reason j i h = cc
choose_lem true false false repeated reason j i h = cc
choose_lem true false true true reason j i h = cc

module _ (rt : Runtime) where
  -- A candidate that is chosen may be shown, and its skill was not seen.
  verdict-choose :
      (seen : List ℕ) (c : RetrievalCandidate) (i : ℕ)
      → verdict rt seen c ≡ choose i
      → IsRuntimeSkill rt c × (c.skill_id ≡ some i) × (any (is_same_id i) seen ≡ false)
  unfolding verdict skill_verdict
  verdict-choose seen c i h = elim (Bool-cases (str_eq c.object_type "external_skill")) [
    | inl external ↦ let e : hide "external-skill-collision" ≡ choose i = rw external at h in cc
    | inr internal ↦ elim (Bool-cases (str_eq c.object_type "body_index_document")) [
      | inr other ↦ let e : hide "not-runtime-skill" ≡ choose i = rw (internal, other) at h in cc
      | inl document ↦ elim (Option-cases c.skill_id) [
        | inl e ↦
            let f : hide "not-runtime-skill" ≡ choose i = rw (internal, document, e) at h in cc
        | inr s ↦
            let g = rw (internal, document, s.1) at h in
            let (same, fresh, scanned, visible) =
              choose_lem (member (described rt "secret_scan_status" c) ("passed" ∷ "clean" ∷ []))
                (str_eq (described rt "lifecycle_state" c) "archived")
                (member (described rt "lifecycle_state" c) runtime_visible_lifecycle_states)
                (any (is_same_id s.0) seen) _ s.0 i g in
            (
              ((str_eq_iff c.object_type "body_index_document").0 document, s, scanned, visible),
              s.1 ∙ ap some same,
              subst (λ k. any (is_same_id k) seen ≡ false) same fresh,
            )
      ]
    ]
  ]

  -- What `select_from` gives for the rest of the candidates.
  abbrev Holds : List ℕ → List RetrievalCandidate → Selection → Type 0
  Holds seen cs s =
      All (IsRuntimeSkill rt) s.selected
      × Apart (λ i j. ◌≢◌ i j) (skill_ids_of s.selected)
      × All (λ i. any (is_same_id i) seen ≡ false) (skill_ids_of s.selected)
      × ((c : RetrievalCandidate)
          → In c cs
          → In c s.selected ⊎ ((reason : String) × In (suppressed c reason) s.suppressed_of))
      × (length cs ≡ length s.selected + length s.suppressed_of)

  Holds-suppress :
      (seen : List ℕ) (c : RetrievalCandidate) (cs : List RetrievalCandidate) (reason : String)
      (s : Selection)
      → Holds seen cs s
      → Holds seen (c ∷ cs) (suppress c reason s)
  Holds-suppress seen c cs reason s h = (h.0, h.1, h.2, placed, omega (arith, h.4))
    where
      placed :
          (d : RetrievalCandidate)
          → In d (c ∷ cs)
          → In d s.selected
            ⊎ ((r : String) × In (suppressed d r) (suppressed c reason ∷ s.suppressed_of))
      placed d here = inr (reason, here)
      placed d (there m) = elim (h.3 d m) [ inl n ↦ inl n | inr n ↦ inr (n.0, there n.1) ]

  Holds-select :
      (seen : List ℕ) (c : RetrievalCandidate) (cs : List RetrievalCandidate) (i : ℕ)
      (s : Selection)
      → IsRuntimeSkill rt c
      → c.skill_id ≡ some i
      → any (is_same_id i) seen ≡ false
      → Holds (i ∷ seen) cs s
      → Holds seen (c ∷ cs) (select_one c s)
  Holds-select seen c cs i s runtime skill fresh h =
      let ids : skill_ids_of (c ∷ s.selected) ≡ i ∷ skill_ids_of s.selected = rw skill refl in
      (
        (runtime, h.0),
        subst (Apart (λ i j. ◌≢◌ i j)) (sym ids) (unseen, h.1),
        subst (All (λ j. any (is_same_id j) seen ≡ false)) (sym ids) (
          fresh,
          All-of-In (λ j. any (is_same_id j) seen ≡ false) _
              (λ j m.
                let f = All-In (λ j. any (is_same_id j) (i ∷ seen) ≡ false) m h.2 in ground arith),
        ),
        placed,
        omega (arith, h.4),
      )
    where
      unseen : All (λ j. ◌≢◌ i j) (skill_ids_of s.selected)
      unseen =
          All-of-In (λ j. ◌≢◌ i j) _
            (λ j m same.
              let f = All-In (λ j. any (is_same_id j) (i ∷ seen) ≡ false) m h.2 in
              ground (arith, ==_refl i))

      placed :
          (d : RetrievalCandidate)
          → In d (c ∷ cs)
          → In d (c ∷ s.selected) ⊎ ((r : String) × In (suppressed d r) s.suppressed_of)
      placed d here = inl here
      placed d (there m) = elim (h.3 d m) [ inl n ↦ inl (there n) | inr n ↦ inr n ]

  select_from-step :
      (seen archived : List ℕ) (c : RetrievalCandidate) (cs : List RetrievalCandidate) (v : Verdict)
      → verdict rt seen c ≡ v
      → ((seen' archived' : List ℕ) → Holds seen' cs (select_from rt seen' archived' cs))
      → Holds seen (c ∷ cs) (select_from rt seen archived (c ∷ cs))
  unfolding select_from
  select_from-step seen archived c cs (hide reason) e rest =
      rw (e, select_from)
        (Holds-suppress seen c cs reason (select_from rt seen archived cs) (rest seen archived))
  select_from-step seen archived c cs (promote i) e rest =
      rw (e, select_from)
        (let noted = if any (is_same_id i) archived then archived else archived ++ i ∷ [] in
          Holds-suppress seen c cs "archived-promotion-candidate" (select_from rt seen noted cs)
            (rest seen noted))
  select_from-step seen archived c cs (choose i) e rest =
      let (runtime, skill, fresh) = verdict-choose seen c i e in
      rw (e, select_from)
        (Holds-select seen c cs i (select_from rt (i ∷ seen) archived cs) runtime skill fresh
          (rest (i ∷ seen) archived))

  select_from-Holds :
      (seen archived : List ℕ) (cs : List RetrievalCandidate)
      → Holds seen cs (select_from rt seen archived cs)
  unfolding select_from
  select_from-Holds seen archived [] = (tt, tt, tt, λ c m. elim m [ ], refl)
  select_from-Holds seen archived (c ∷ cs) =
      select_from-step seen archived c cs (verdict rt seen c) refl
        (λ seen' archived'. select_from-Holds seen' archived' cs)

-- Every candidate is selected or suppressed, and only one of the two counts for it; the selected
-- ones are documents of skills that are active or canaries and whose secret scan passed, and no
-- two of them are of one skill.
pub select_skill_candidates-split :
    (rt : Runtime) (cs : List RetrievalCandidate)
    → let s = select_skill_candidates rt cs in
      All (IsRuntimeSkill rt) s.selected
      × Apart (λ i j. ◌≢◌ i j) (skill_ids_of s.selected)
      × ((c : RetrievalCandidate)
          → In c cs
          → In c s.selected ⊎ ((reason : String) × In (suppressed c reason) s.suppressed_of))
      × (length cs ≡ length s.selected + length s.suppressed_of)
unfolding select_skill_candidates
select_skill_candidates-split rt cs = let h = select_from-Holds rt [] [] cs in (h.0, h.1, h.3, h.4)

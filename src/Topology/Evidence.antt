-- ===== src/Topology/Evidence.antt =====
-- What the blockers on evidence and on the size of a proposal let through.
use skill_kernel.Base.{
  ℕ, String, str_eq, str_eq_iff, nil-filterb, In-countb, Bool, true, false, not, List, [], ◌∷◌,
  ◌++◌, map, Option, none, some, ◌≡◌, ◌≢◌, refl, sym, subst, inl, inr, ◌↔◌, ◌≤◌, ltb, if◌then◌else◌,
  length, In, here, there, All, All-In, All-of-In, Apart, filterb, find?, find?-In, countb,
  is_empty, distinct_from, In-distinct_from, member, member-In, sorted, In-sorted, In-filterb,
  filterb-nil, map-In, map-nil, is_empty-append-left, is_empty-append-right, is_empty→nil, is_blank,
  Bool-cases, Option-cases, arith,
}
use skill_kernel.Topology.Skills.{TopologySkill}
use skill_kernel.Topology.Blockers.{
  duplicate, too_few, too_many, lacks_evidence, low_fidelity, low_topology_evidence_fidelity,
  other_topology_evidence_fidelity, canonical_evidence_fidelity, canonical_evidence_fidelity_map,
  fidelity_of, evidence_fidelity_blockers, slugs, bounded_component_blockers,
}
use skill_kernel.Topology.Proposals.{evidence_blockers, block_if}

abbrev fidelity : Option (List (String × String)) → String → String
fidelity m i = fidelity_of i (canonical_evidence_fidelity_map m)

-- There is evidence, and each item of it was read in full or as a redacted derivative.
abbrev pub IsAdequate : List String → Option (List (String × String)) → Type 0
IsAdequate ids m =
    (is_empty ids ≡ false)
    × All
        (λ i.
          member (fidelity_of i (canonical_evidence_fidelity_map m))
            other_topology_evidence_fidelity
          ≡ true)
        ids

abbrev is_low : String → Bool
is_low f = member f low_topology_evidence_fidelity

-- A fidelity is one of the six, in exactly one of the two lists.
abbrev is_other : String → Bool
is_other f = member f other_topology_evidence_fidelity

abbrev IsKnown : String → Type 0
IsKnown f = is_low f ≡ not (member f other_topology_evidence_fidelity)

other-fidelity : (f : String) → IsKnown f → is_low f ≡ false → is_other f ≡ true
other-fidelity f known high = ground arith

known_lem :
    (f : String)
    → In f (low_topology_evidence_fidelity ++ other_topology_evidence_fidelity)
    → IsKnown f
known_lem f here = refl
known_lem f (there here) = refl
known_lem f (there (there here)) = refl
known_lem f (there (there (there here))) = refl
known_lem f (there (there (there (there here)))) = refl
known_lem f (there (there (there (there (there here))))) = refl
known_lem f (there (there (there (there (there (there m)))))) = elim m [ ]

canonical-Known : (v : String) → IsKnown (canonical_evidence_fidelity v)
unfolding canonical_evidence_fidelity
canonical-Known v =
    let f : String = if is_blank v then "unavailable" else v in
    elim (Bool-cases
      (member f (low_topology_evidence_fidelity ++ other_topology_evidence_fidelity))) [
        | inl known ↦ rw known (known_lem f (member-In f _ known))
        | inr other ↦ rw other refl
      ]

fidelity-Known : (m : Option (List (String × String))) (i : String) → IsKnown (fidelity m i)
unfolding canonical_evidence_fidelity_map fidelity_of
fidelity-Known none i = refl
fidelity-Known (some m) i =
    let found : Option (String × String) =
      find? (λ kv. str_eq kv.0 i) (map (λ kv. (kv.0, canonical_evidence_fidelity kv.1)) m) in
    elim (Option-cases found) [
      | inl e ↦ rw (e, fidelity_of) refl
      | inr s ↦
          let (kv, k, same) =
            map-In (λ kv. (kv.0, canonical_evidence_fidelity kv.1)) s.0 m
              (find?-In _ _ s.0 s.1).0 in
          rw (s.1, fidelity_of) (subst (λ x. IsKnown x.1) (sym same) (canonical-Known kv.1))
    ]

-- Without a blocker, the evidence is adequate, and the other way round.
pub evidence_blockers-Adequate :
    (ids : List String) (m : Option (List (String × String)))
    → (is_empty (evidence_blockers ids m) ≡ true) ↔ IsAdequate ids m
unfolding evidence_fidelity_blockers
evidence_blockers-Adequate ids m = (
  λ h.
      let reliable : filterb (λ i. is_low (fidelity m i)) ids ≡ [] =
        map-nil (λ i. low_fidelity i (fidelity m i)) _
          (is_empty→nil _ (is_empty-append-right (block_if (is_empty ids) lacks_evidence) _ h)) in
      (
        ground (arith, is_empty-append-left (block_if (is_empty ids) lacks_evidence) _ h),
        All-of-In (λ i. is_other (fidelity m i) ≡ true) ids
            (λ i k.
              let high : is_low (fidelity m i) ≡ false =
                All-In (λ i. is_low (fidelity m i) ≡ false) k (nil-filterb _ ids reliable) in
              other-fidelity (fidelity m i) (fidelity-Known m i) high),
      ),
  λ h.
      let reliable : filterb (λ i. is_low (fidelity m i)) ids ≡ [] =
        filterb-nil (λ i. is_low (fidelity m i)) ids
          (All-of-In (λ i. is_low (fidelity m i) ≡ false) ids
            (λ i k.
              let other : is_other (fidelity m i) ≡ true =
                All-In (λ i. is_other (fidelity m i) ≡ true) k h.1 in
              let known : IsKnown (fidelity m i) = fidelity-Known m i in ground arith)) in
      rw (h.0, reliable) refl,
)

-- No slug occurs twice.
abbrev pub AreDistinct : List TopologySkill → Type 0
AreDistinct skills = Apart (λ s t. ◌≢◌ s t) (slugs skills)

countb_self :
    (x : String) (xs : List String) → countb (λ t. str_eq t x) (x ∷ xs) ≤ 1 → All (λ y. ◌≢◌ x y) xs
countb_self x xs h =
    All-of-In (λ y. ◌≢◌ x y) xs
      (λ y m same.
        ground (
          arith,
          str_eq_iff x x,
          In-countb (λ t. str_eq t x) y xs m ((str_eq_iff y x).1 (sym same)),
        ))

countb-tail :
    (s x : String) (xs : List String)
    → countb (λ t. str_eq t s) (x ∷ xs) ≤ 1
    → countb (λ t. str_eq t s) xs ≤ 1
countb-tail s x xs h = ground arith

counts-Apart :
    (xs : List String)
    → ((s : String) → In s xs → countb (λ t. str_eq t s) xs ≤ 1)
    → Apart (λ s t. ◌≢◌ s t) xs
counts-Apart [] h = tt
counts-Apart (x ∷ xs) h =
    (countb_self x xs (h x here), counts-Apart xs (λ s m. countb-tail s x xs (h s (there m))))

abbrev is_repeated : List String → String → Bool
is_repeated xs s = ltb 1 (countb (λ t. str_eq t s) xs)

duplicates-none :
    (xs : List String)
    → sorted (distinct_from str_eq [] (filterb (λ s. ltb 1 (countb (λ t. str_eq t s) xs)) xs)) ≡ []
    → Apart (λ s t. ◌≢◌ s t) xs
duplicates-none xs h = counts-Apart xs (λ s m. elim (Bool-cases (is_repeated xs s)) [
  | inl repeated ↦
      let listed = In-sorted s _ (
        In-distinct_from str_eq str_eq_iff s [] _ (In-filterb (is_repeated xs) s xs m repeated)
          refl) in
      elim (subst (In s) h listed) [ ]
  | inr once ↦ ground arith
])

-- Without a blocker, the skills are two at least, `max_count` at most, and distinct.
pub bounded-Distinct :
    (skills : List TopologySkill) (max_count : ℕ)
    → is_empty (bounded_component_blockers skills max_count) ≡ true
    → (2 ≤ length skills) × (length skills ≤ max_count) × AreDistinct skills
unfolding bounded_component_blockers
bounded-Distinct skills max_count h =
    let few = block_if (ltb (length skills) 2) too_few in
    let many = block_if (ltb max_count (length skills)) (too_many max_count) in
    let after_few = is_empty-append-right few _ h in
    (
      ground (arith, is_empty-append-left few _ h),
      ground (arith, is_empty-append-left many _ after_few),
      duplicates-none (slugs skills)
          (map-nil duplicate _ (is_empty→nil _ (is_empty-append-right many _ after_few))),
    )

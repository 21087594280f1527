-- ===== src/Topology/Links.antt =====
-- The edges between the components of a composition: the loop of `propose_composition`.
use skill_kernel.Base.{
  String, str_eq, str_eq_iff, true, false, not, List, [], ◌∷◌, ◌++◌, map, some, ◌≡◌, refl, sym,
  subst, ap, inl, inr, In, All, All-In, All-append, find?, find?-In, find?-eq-none, reversed,
  is_empty, distinct_from-In, In-distinct_from, member, member-In, minus, sorted, In-sorted,
  In-filterb, In-map, map-In, In-append, In-single, ◌∙◌, In-reversed, reversed-In, map-nil,
  is_empty-append-left, is_empty-append-right, is_empty→nil, concat_map-In, Bool-cases,
  Option-cases, returned,
}
use skill_kernel.Topology.Skills.{TopologySkill, terms, union_effect_terms}
use skill_kernel.Topology.Graph.{SkillGraphEdge}
use skill_kernel.Topology.Blockers.{Blocker, unresolved}
use skill_kernel.Topology.Requests.{ComposeTopologyRequest}
use skill_kernel.Topology.Proposals.{
  required_of, add_term, provider_of, by_provider, provider_edges, requires_edges_for_component,
  required_effects, gaps, link_components,
}

abbrev pub slugs_of_skills : List TopologySkill → List String
slugs_of_skills skills = map (λ s. s.slug) skills

-- Both ends of the edge are slugs of the list, and it has no gap.
abbrev pub IsLinked : List String → SkillGraphEdge → Type 0
IsLinked slugs e = In e.from_slug slugs × In e.to_slug slugs × (e.unresolved_gaps ≡ [])

-- What each component requires, an earlier one has.
abbrev pub AreProvided : ComposeTopologyRequest → List TopologySkill → List TopologySkill → Type 0
AreProvided r previous [] = Unit
AreProvided r previous (c ∷ cs) =
    ((t : String)
      → In t (required_of c.slug r.required_effects_by_component)
      → (p : TopologySkill) × In p previous × In t (terms p))
    × AreProvided r (previous ++ c ∷ []) cs

abbrev Known : List TopologySkill → String × List String → Type 0
Known previous g = In g.0 (slugs_of_skills previous)

add_term-Known :
    (previous : List TopologySkill) (slug term : String) (gs : List (String × List String))
    → In slug (slugs_of_skills previous)
    → All (Known previous) gs
    → All (Known previous) (add_term slug term gs)
unfolding add_term
add_term-Known previous slug term [] m h = (m, tt)
add_term-Known previous slug term (g ∷ gs) m h = elim (Bool-cases (str_eq g.0 slug)) [
  | inl same ↦ rw same (h.0, h.1)
  | inr other ↦ rw other (h.0, add_term-Known previous slug term gs m h.1)
]

provider_of-In :
    (previous : List TopologySkill) (t : String) (p : TopologySkill)
    → provider_of previous t ≡ some p
    → In p previous
provider_of-In previous t p e =
    reversed-In p previous (find?-In (λ c. member t (terms c)) (reversed previous) p e).0

by_provider-Known :
    (previous : List TopologySkill) (ts : List String) (gs : List (String × List String))
    → All (Known previous) gs
    → All (Known previous) (by_provider previous ts gs)
unfolding by_provider
by_provider-Known previous [] gs h = h
by_provider-Known previous (t ∷ ts) gs h = elim (Option-cases (provider_of previous t)) [
  | inl e ↦ rw e (by_provider-Known previous ts gs h)
  | inr s ↦ rw s.1 (
      by_provider-Known previous ts (add_term s.0.slug t gs) (
        add_term-Known previous s.0.slug t gs
          (In-map (λ c. c.slug) s.0 previous (provider_of-In previous t s.0 s.1)) h))
]

-- A slug of the earlier components is found in `providers_by_slug`.
slug_found :
    (previous : List TopologySkill) (slug : String)
    → In slug (slugs_of_skills previous)
    → (p : TopologySkill) × (find? (λ c. str_eq c.slug slug) (reversed previous) ≡ some p)
slug_found previous slug m =
    elim (Option-cases (find? (λ c. str_eq c.slug slug) (reversed previous))) [
      | inl e ↦
          let (c, n, same) = map-In (λ c. c.slug) slug previous m in
          let f : str_eq c.slug slug ≡ false =
            All-In (λ c. str_eq c.slug slug ≡ false) (In-reversed c previous n)
              (find?-eq-none (λ c. str_eq c.slug slug) (reversed previous) e) in
          let t : str_eq c.slug slug ≡ true = (str_eq_iff c.slug slug).1 (sym same) in cc
      | inr s ↦ s
    ]

provider_edges-returned :
    (component : TopologySkill) (previous : List TopologySkill) (slugs : List String)
    (gs : List (String × List String))
    → ((s : String) → In s (slugs_of_skills previous) → In s slugs)
    → In component.slug slugs
    → All (Known previous) gs
    → (es : List SkillGraphEdge) × (provider_edges component previous gs ≡ returned es)
      × All (IsLinked slugs) es
unfolding provider_edges
provider_edges-returned component previous slugs [] sub m h = ([], refl, tt)
provider_edges-returned component previous slugs (g ∷ gs) sub m h =
    let (p, found) = slug_found previous g.0 h.0 in
    let (es, e, linked) = provider_edges-returned component previous slugs gs sub m h.1 in
    rw (found, e, provider_edges) (_, refl, ((sub g.0 h.0, m, refl), linked))

requires_edges-returned :
    (component : TopologySkill) (previous : List TopologySkill) (slugs required : List String)
    → ((s : String) → In s (slugs_of_skills previous) → In s slugs)
    → In component.slug slugs
    → (es : List SkillGraphEdge) × (requires_edges_for_component component previous required
        ≡ returned es)
      × All (IsLinked slugs) es
unfolding requires_edges_for_component
requires_edges-returned component previous slugs required sub m =
    provider_edges-returned component previous slugs (by_provider previous (sorted required) []) sub
      m (by_provider-Known previous (sorted required) [] tt)

-- Without a gap, what the component requires is provided.
gaps-none :
    (r : ComposeTopologyRequest) (previous : List TopologySkill) (c : TopologySkill)
    → gaps r previous c ≡ []
    → (t : String) → In t (required_of c.slug r.required_effects_by_component)
    → (p : TopologySkill) × In p previous × In t (terms p)
unfolding union_effect_terms
gaps-none r previous c closed t m = elim (Bool-cases (member t (union_effect_terms previous))) [
  | inl has ↦
      concat_map-In terms t previous
        (distinct_from-In str_eq t [] _ (member-In t (union_effect_terms previous) has))
  | inr lacks ↦
      let required : In t (required_effects r c) =
        In-distinct_from str_eq str_eq_iff t [] _ m refl in
      let open_gap : In t (gaps r previous c) = In-sorted t _ (
        In-filterb (λ x. not (member x (union_effect_terms previous))) t _ required
          (ap not lacks)) in
      elim (subst (In t) closed open_gap) [ ]
]

snoc_slugs :
    (c : TopologySkill) (previous : List TopologySkill) (slugs : List String)
    → ((s : String) → In s (slugs_of_skills previous) → In s slugs)
    → In c.slug slugs
    → (s : String) → In s (slugs_of_skills (previous ++ c ∷ []))
    → In s slugs
snoc_slugs c previous slugs sub m s n =
    let (x, k, same) = map-In (λ x. x.slug) s (previous ++ c ∷ []) n in
    elim (In-append x previous (c ∷ []) k) [
      | inl j ↦ sub s (
          subst (λ y. In y (slugs_of_skills previous)) (sym same)
            (In-map (λ x. x.slug) x previous j))
      | inr j ↦ subst (λ y. In y slugs) (sym (same ∙ ap (λ x. x.slug) (In-single j))) m
    ]

-- The loop never raises; its edges are linked, and if it blocks nothing, each component has what
-- it requires from the earlier ones.
pub link_components-returned :
    (r : ComposeTopologyRequest) (slugs : List String) (previous cs : List TopologySkill)
    → ((s : String) → In s (slugs_of_skills previous) → In s slugs)
    → All (λ c. In c.slug slugs) cs
    → (bs : List Blocker) × (es : List SkillGraphEdge) × (link_components r previous cs
        ≡ returned (bs, es))
      × All (IsLinked slugs) es
      × (is_empty bs ≡ true → AreProvided r previous cs)
unfolding link_components
link_components-returned r slugs previous [] sub h = ([], [], refl, tt, λ _. tt)
link_components-returned r slugs previous (c ∷ cs) sub h =
    let (es, e, linked) =
      requires_edges-returned c previous slugs (minus (required_effects r c) (gaps r previous c))
        sub h.0 in
    let (bs, fs, f, linked', provided) =
      link_components-returned r slugs (previous ++ c ∷ []) cs (snoc_slugs c previous slugs sub h.0)
        h.1 in
    (
      map (unresolved c.slug) (gaps r previous c) ++ bs,
      es ++ fs,
      rw (e, f) refl,
      All-append (IsLinked slugs) es fs linked linked',
      λ none_left. (
        gaps-none r previous c (
            map-nil (unresolved c.slug) (gaps r previous c)
              (is_empty→nil _ (is_empty-append-left _ bs none_left))),
        provided (is_empty-append-right (map (unresolved c.slug) (gaps r previous c)) bs none_left),
      ),
    )

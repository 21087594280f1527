-- ===== src/Broker/Policies.antt =====
-- `BrokerPolicy.from_artifact` of sidecar/autoskill/services/broker.py, with `_bounded_int`,
-- `_bounded_float`, `_string_list` and `_dict`.
use skill_kernel.Base.{
  ℕ, ℤ, pos, negsuc, String, str_eq, Bool, true, false, not, List, [], ◌∷◌, map, Option, ◌≡◌, refl,
  inl, inr, ◌≤◌, min, max, arith, if◌then◌else◌, All, All-of-In, filterb, filterb-In, is_empty,
  member, is_dict_empty, Bool-cases, Json, Float, null, boolean, integer, real, str, array, object,
  Fields, get, dict_of, items_list, Py, raised, returned, ◌>>=◌, type_error, value_error,
  overflow_error, key_error, ◌≢◌, ◌⊎◌, ◌||◌, Option-cases,
}
use skill_kernel.Evaluator.Runtime.{Runtime, to_float}
use skill_kernel.Broker.Types.{BrokerPolicy}

abbrev pub graph_edge_kinds : List String
graph_edge_kinds = "prerequisite" ∷ "conflict" ∷ "shadow" ∷ "supersedes" ∷ []

-- `_dict(policy.get("runtime_context_broker")) or policy`
abbrev pub broker_part : Fields → Fields
broker_part policy =
    let part = dict_of (get "runtime_context_broker" policy) in
    if is_dict_empty part then policy else part

abbrev is_overflow {ℓ} : {A : Type ℓ} → Py A → Bool
is_overflow (raised overflow_error) = true
is_overflow _ = false

-- Either the conversion overflows, which is not caught, or a value comes out that is right.
abbrev pub Comes {ℓ} : {A : Type ℓ} → Bool → (A → Type 0) → Py A → Type ℓ
Comes {A = A} overflown Right p =
    (overflown ≡ true) × (p ≡ raised overflow_error)
    ⊎ (overflown ≡ false) × ((a : A) × (p ≡ returned a) × Right a)

Comes->>= :
    {A B : Type 0} {o o' : Bool} {R : A → Type 0} {S : B → Type 0} (p : Py A) (k : A → Py B)
    → Comes o R p
    → ((a : A) → R a → Comes o' S (k a))
    → Comes (o || o') S (p >>= k)
Comes->>= p k (inl (o, e)) next = inl (rw o refl, rw e refl)
Comes->>= p k (inr (o, (a, e, r))) next = rw (o, e) (next a r)

Comes-map :
    {A B : Type 0} {o : Bool} {R : A → Type 0} {S : B → Type 0} (p : Py A) (f : A → B)
    → Comes o R p
    → ((a : A) → R a → S (f a))
    → Comes o S (p >>= λ a. returned (f a))
Comes-map p f (inl (o, e)) next = inl (o, rw e refl)
Comes-map p f (inr (o, (a, e, r))) next = inr (o, (f a, rw e refl, next a r))

module _ (rt : Runtime) where
  -- `int(value)`
  unfoldable pub parse_int : Json → Py ℤ
  parse_int (boolean true) = returned (pos 1)
  parse_int (boolean false) = returned (pos 0)
  parse_int (integer n) = returned n
  parse_int (real x) = rt.int_of_float x
  parse_int (str s) = rt.int_of_text s
  parse_int _ = raised type_error

  -- `max(minimum, min(maximum, parsed))`, for bounds that are not negative.
  abbrev clamp : ℕ → ℕ → ℤ → ℕ
  clamp minimum maximum (pos n) = max minimum (min maximum n)
  clamp minimum maximum (negsuc n) = minimum

  -- What the `except` clause of `_bounded_int` makes of the parsed value.
  abbrev bound_parsed : ℕ → ℕ → ℕ → Py ℤ → Py ℕ
  bound_parsed default minimum maximum (returned n) = returned (clamp minimum maximum n)
  bound_parsed default minimum maximum (raised type_error) = returned default
  bound_parsed default minimum maximum (raised value_error) = returned default
  bound_parsed default minimum maximum (raised e) = raised e

  unfoldable pub bounded_int : Json → ℕ → ℕ → ℕ → Py ℕ
  bounded_int value default minimum maximum = bound_parsed default minimum maximum (parse_int value)

  -- `max(minimum, min(maximum, parsed))` of floats, where a NaN gives the maximum.
  abbrev clamp_float : Float → Float → Float → Float
  clamp_float minimum maximum parsed =
      let capped : Float = if rt.less parsed maximum then parsed else maximum in
      if rt.less minimum capped then capped else minimum

  abbrev bound_float : Float → Float → Float → Py Float → Py Float
  bound_float default minimum maximum (returned x) = returned (clamp_float minimum maximum x)
  bound_float default minimum maximum (raised type_error) = returned default
  bound_float default minimum maximum (raised value_error) = returned default
  bound_float default minimum maximum (raised e) = raised e

  unfoldable pub bounded_float : Json → Float → Float → Float → Py Float
  bounded_float value default minimum maximum =
      bound_float default minimum maximum (to_float rt value)

  unfoldable pub string_list : Json → List String → List String
  string_list (array xs) default = filterb (λ s. not (str_eq s "")) (map rt.str_of (items_list xs))
  string_list _ default = default

  -- The kinds of the list that the graph has, or all of them.
  unfoldable pub policy_edge_kinds : Json → List String
  policy_edge_kinds value =
      let kinds = filterb (λ e. member e graph_edge_kinds) (string_list value graph_edge_kinds) in
      if is_empty kinds then graph_edge_kinds else kinds

  unfoldable pub from_artifact : String → Fields → Option ℕ → Py BrokerPolicy
  from_artifact version policy version_id =
      let broker = broker_part policy in
      bounded_int (get "lexical_limit" broker) 8 1 50 >>= λ lexical_limit.
      bounded_int (get "semantic_limit" broker) 8 1 50 >>= λ semantic_limit.
      bounded_int (get "graph_limit" broker) 12 0 100 >>= λ graph_limit.
      bounded_int (get "max_rendered_skills" broker) 4 1 20 >>= λ max_rendered_skills.
      bounded_float (get "canary_sample_rate" broker) (rt.milli 0) (rt.milli 0) (rt.milli 1000)
      >>= λ canary_sample_rate. returned (record {
        version = version;
        broker_policy_version_id = version_id;
        lexical_limit = lexical_limit;
        semantic_limit = semantic_limit;
        graph_edge_kinds = policy_edge_kinds (get "graph_edge_kinds" broker);
        graph_limit = graph_limit;
        max_rendered_skills = max_rendered_skills;
        canary_sample_rate = canary_sample_rate;
        replay_tags = string_list (get "replay_tags" broker) [];
      })

  -- `int` of a text and of a float and `float` of an integer may raise TypeError, ValueError and
  -- OverflowError, but no KeyError.
  abbrev pub IsNumeric : Type 0
  IsNumeric =
      ((s : String) → rt.int_of_text s ≢ raised key_error)
      × ((x : Float) → rt.int_of_float x ≢ raised key_error)
      × ((n : ℤ) → rt.float_of_int n ≢ raised key_error)

  parse_int-numeric : IsNumeric → (v : Json) → parse_int v ≢ raised key_error
  unfolding parse_int
  parse_int-numeric h null e = cc
  parse_int-numeric h (boolean true) e = cc
  parse_int-numeric h (boolean false) e = cc
  parse_int-numeric h (integer n) e = cc
  parse_int-numeric h (real x) e = h.1 x e
  parse_int-numeric h (str s) e = h.0 s e
  parse_int-numeric h (array xs) e = cc
  parse_int-numeric h (object fs) e = cc

  to_float-numeric : IsNumeric → (v : Json) → to_float rt v ≢ raised key_error
  unfolding to_float
  to_float-numeric h null e = cc
  to_float-numeric h (boolean true) e = cc
  to_float-numeric h (boolean false) e = cc
  to_float-numeric h (integer n) e = h.2 n e
  to_float-numeric h (real x) e = cc
  to_float-numeric h (str s) e = elim (Option-cases (rt.float_of_text s)) [
    | inl missing ↦ let f = rw (missing, to_float) at e in cc
    | inr (x, given) ↦ let f = rw (given, to_float) at e in cc
  ]
  to_float-numeric h (array xs) e = cc
  to_float-numeric h (object fs) e = cc

  bound_parsed-bounds :
      (default minimum maximum : ℕ) (p : Py ℤ)
      → minimum ≤ default
      → default ≤ maximum
      → p ≢ raised key_error
      → Comes
          (is_overflow p)
          (λ n. (minimum ≤ n) × (n ≤ maximum))
          (bound_parsed default minimum maximum p)
  bound_parsed-bounds default minimum maximum (returned (pos n)) l u h =
      inr (refl, (_, refl, (omega arith, omega (arith, l, u))))
  bound_parsed-bounds default minimum maximum (returned (negsuc n)) l u h =
      inr (refl, (minimum, refl, (omega arith, omega (arith, l, u))))
  bound_parsed-bounds default minimum maximum (raised type_error) l u h =
      inr (refl, (default, refl, (l, u)))
  bound_parsed-bounds default minimum maximum (raised value_error) l u h =
      inr (refl, (default, refl, (l, u)))
  bound_parsed-bounds default minimum maximum (raised overflow_error) l u h = inl (refl, refl)
  bound_parsed-bounds default minimum maximum (raised key_error) l u h = absurd (h refl)

  -- The value of a key is an infinite float.
  abbrev pub overflows : Json → Bool
  overflows v = is_overflow (parse_int v)

  -- An integer too large for a float.
  abbrev pub rate_overflows : Json → Bool
  rate_overflows v = is_overflow (to_float rt v)

  bounded_int-bounds :
      (v : Json) (default minimum maximum : ℕ)
      → IsNumeric
      → minimum ≤ default
      → default ≤ maximum
      → Comes
          (overflows v)
          (λ n. (minimum ≤ n) × (n ≤ maximum))
          (bounded_int v default minimum maximum)
  unfolding bounded_int
  bounded_int-bounds v default minimum maximum h l u =
      bound_parsed-bounds default minimum maximum (parse_int v) l u (parse_int-numeric h v)

  -- A rate is 0.0 or 1.0, or between them.
  abbrev pub IsRate : Float → Type 0
  IsRate x =
      (x ≡ rt.milli 0)
      ⊎ (x ≡ rt.milli 1000)
      ⊎ (rt.less (rt.milli 0) x ≡ true) × (rt.less x (rt.milli 1000) ≡ true)

  clamp_float-IsRate : (x : Float) → IsRate (clamp_float (rt.milli 0) (rt.milli 1000) x)
  clamp_float-IsRate x = elim (Bool-cases (rt.less x (rt.milli 1000))) [
    | inl under ↦ elim (Bool-cases (rt.less (rt.milli 0) x)) [
      | inl over ↦ rw (under, over) (inr (inr (over, under)))
      | inr least ↦ rw (under, least) (inl refl)
    ]
    | inr most ↦ elim (Bool-cases (rt.less (rt.milli 0) (rt.milli 1000))) [
      | inl over ↦ rw (most, over) (inr (inl refl))
      | inr least ↦ rw (most, least) (inl refl)
    ]
  ]

  bound_float-IsRate :
      (p : Py Float)
      → p ≢ raised key_error
      → Comes (is_overflow p) IsRate (bound_float (rt.milli 0) (rt.milli 0) (rt.milli 1000) p)
  bound_float-IsRate (returned x) h = inr (refl, (_, refl, clamp_float-IsRate x))
  bound_float-IsRate (raised type_error) h = inr (refl, (_, refl, inl refl))
  bound_float-IsRate (raised value_error) h = inr (refl, (_, refl, inl refl))
  bound_float-IsRate (raised overflow_error) h = inl (refl, refl)
  bound_float-IsRate (raised key_error) h = absurd (h refl)

  bounded_float-IsRate :
      (v : Json)
      → IsNumeric
      → Comes (rate_overflows v) IsRate (bounded_float v (rt.milli 0) (rt.milli 0) (rt.milli 1000))
  unfolding bounded_float
  bounded_float-IsRate v h = bound_float-IsRate (to_float rt v) (to_float-numeric h v)

  edge_kinds_lem :
      (v : Json)
      → (is_empty (policy_edge_kinds v) ≡ false)
        × All (λ e. member e graph_edge_kinds ≡ true) (policy_edge_kinds v)
  unfolding policy_edge_kinds
  edge_kinds_lem v =
      let kinds = filterb (λ e. member e graph_edge_kinds) (string_list v graph_edge_kinds) in
      elim (Bool-cases (is_empty kinds)) [
        | inl none_left ↦ rw none_left (refl, (refl, (refl, (refl, (refl, tt)))))
        | inr some_left ↦ rw some_left (
          some_left,
          All-of-In (λ e. member e graph_edge_kinds ≡ true) kinds
              (λ e m.
                (filterb-In (λ e. member e graph_edge_kinds) e (string_list v graph_edge_kinds)
                  m).1),
        )
      ]

-- One of the numbers of the artifact overflows.
abbrev pub has_overflow : Runtime → Fields → Bool
has_overflow rt broker =
    overflows rt (get "lexical_limit" broker)
    || (overflows rt (get "semantic_limit" broker)
        || (overflows rt (get "graph_limit" broker)
            || (overflows rt (get "max_rendered_skills" broker)
                || rate_overflows rt (get "canary_sample_rate" broker))))

abbrev pub InBounds : Runtime → BrokerPolicy → Type 0
InBounds rt p =
    (1 ≤ p.lexical_limit)
    × (p.lexical_limit ≤ 50)
    × (1 ≤ p.semantic_limit)
    × (p.semantic_limit ≤ 50)
    × (p.graph_limit ≤ 100)
    × (1 ≤ p.max_rendered_skills)
    × (p.max_rendered_skills ≤ 20)
    × IsRate rt p.canary_sample_rate
    × (is_empty p.graph_edge_kinds ≡ false)
    × All (λ e. member e graph_edge_kinds ≡ true) p.graph_edge_kinds

-- Where converting a number raises no KeyError: an artifact in which `int` of one of the four limits
-- or `float` of the sample rate overflows raises OverflowError, and every other artifact gives a
-- policy, whatever its values are. The limits of the lexical and of the semantic query are then from 1
-- to 50, that of the graph is at most 100, between 1 and 20 skills are rendered, the rate is 0.0 or 1.0
-- or between them, and the graph is followed along some of its kinds of edges and no others.
pub from_artifact-bounds :
    (rt : Runtime) (version : String) (policy : Fields) (version_id : Option ℕ)
    → IsNumeric rt
    → (has_overflow rt (broker_part policy) ≡ true)
        × (from_artifact rt version policy version_id ≡ raised overflow_error)
      ⊎ (has_overflow rt (broker_part policy) ≡ false)
        × ((p : BrokerPolicy) × (from_artifact rt version policy version_id ≡ returned p)
            × InBounds rt p)
unfolding from_artifact
from_artifact-bounds rt version policy version_id h =
    let broker : Fields = broker_part policy in
    let kinds = edge_kinds_lem rt (get "graph_edge_kinds" broker) in
    Comes->>= _ _
      (bounded_int-bounds rt (get "lexical_limit" broker) 8 1 50 h (omega arith) (omega arith))
      λ lexical l.
        Comes->>= _ _
          (bounded_int-bounds rt (get "semantic_limit" broker) 8 1 50 h (omega arith) (omega arith))
          λ semantic m.
            Comes->>= _ _
              (bounded_int-bounds rt (get "graph_limit" broker) 12 0 100 h (omega arith)
                (omega arith))
              λ graph n.
                Comes->>= _ _
                  (bounded_int-bounds rt (get "max_rendered_skills" broker) 4 1 20 h (omega arith)
                    (omega arith))
                  λ rendered k.
                    Comes-map _ _ (bounded_float-IsRate rt (get "canary_sample_rate" broker) h)
                      λ rate r. (l.0, l.1, m.0, m.1, n.1, k.0, k.1, r, kinds.0, kinds.1)

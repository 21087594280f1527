-- ===== src/Evaluator/Totality.antt =====
-- The gate raises no exception on well-typed documents.
use skill_kernel.Base.{
  pos, String, str_eq, Bool, true, false, ◌||◌, List, [], ◌∷◌, map, Option, none, some, ◌≡◌, refl,
  inl, inr, arith, All, all, filterb, Bool-cases, Option-cases, eqb_ℤ, Json, Float, Fields, null,
  boolean, integer, real, str, array, object, get, dict_of, is_dict_empty, Py, raised, returned,
}
use skill_kernel.Evaluator.Runtime.{
  Runtime, Probe, ProbeEvaluation, truthy, elements, int_of, to_float, caught, optional_float,
  first_float,
}
use skill_kernel.Evaluator.Replay.{
  outperforms, evaluate_intervention_replay, derived_utility, token_counts, utility_deltas,
  utility_or_derived, intervention_replay_metrics,
}
use skill_kernel.Evaluator.Metrics.{replay_of, has_replay, replay_metrics, acceptance_metrics}
use skill_kernel.Evaluator.Probes.{
  evaluate_target_probe, evaluate_regression_probe, evaluate_adversarial_probe,
  evaluate_no_skill_probe, evaluate_probe,
}
use skill_kernel.Evaluator.Gate.{
  ProposalGateEvaluation, blocked_result, evaluate_probes, verify_deterministically, score_outcome,
  evaluate,
}

-- A missing key or a list, and a missing key or an integer.
abbrev pub is_list : Json → Bool
is_list null = true
is_list (array xs) = true
is_list _ = false

abbrev pub is_integer : Json → Bool
is_integer null = true
is_integer (integer n) = true
is_integer _ = false

abbrev Returns {ℓ} : {A : Type ℓ} → Py A → Type ℓ
Returns {A} p = (a : A) × (p ≡ returned a)

abbrev is_returned {ℓ} : {A : Type ℓ} → Py A → Bool
is_returned (returned a) = true
is_returned (raised e) = false

-- The fields of a run that are read as numbers besides its tokens.
abbrev pub run_numbers : Fields → List Json
run_numbers run = get "retries" run ∷ get "latency_ms" run ∷ get "tool_errors" run ∷ []

module _ (rt : Runtime) where
  -- `float` takes the value, or it is no integer.
  abbrev pub converts : Json → Bool
  converts (integer n) = is_returned (rt.float_of_int n)
  converts _ = true

  -- No number of the replay is an integer too large for a float.
  abbrev pub ReplayConverts : Fields → Type 0
  ReplayConverts replay =
      let no_skill : Fields = dict_of (get "no_skill" replay) in
      let skill_visible : Fields = dict_of (get "skill_visible" replay) in
      (all converts (utility_deltas rt replay skill_visible) ≡ true)
      × (all converts (token_counts rt no_skill) ≡ true)
      × (all converts (token_counts rt skill_visible) ≡ true)
      × (all converts (run_numbers no_skill) ≡ true)
      × (all converts (run_numbers skill_visible) ≡ true)

  -- The fields of a probe that are iterated or converted.
  abbrev pub ProbeIsTyped : Probe → Type 0
  ProbeIsTyped p =
      (is_list (get "evidence_ids" (dict_of p.spec)) ≡ true)
      × (is_integer (get "adversarial_critical_budget" (dict_of p.expected)) ≡ true)
      × ReplayConverts (replay_of p)

  caught-Returns : (p : Py Float) → is_returned p ≡ true → Returns (caught rt p)
  caught-Returns (returned x) h = (some x, refl)
  caught-Returns (raised e) h = cc

  optional_float-Returns : (v : Json) → converts v ≡ true → Returns (optional_float rt v)
  unfolding optional_float to_float
  optional_float-Returns (integer n) h = caught-Returns (rt.float_of_int n) h
  optional_float-Returns null h = (none, refl)
  optional_float-Returns (boolean true) h = (_, refl)
  optional_float-Returns (boolean false) h = (_, refl)
  optional_float-Returns (real x) h = (_, refl)
  optional_float-Returns (str s) h = elim (Option-cases (rt.float_of_text s)) [
    | inl e ↦ (none, rw (e, optional_float, to_float) refl)
    | inr (x, e) ↦ (some x, rw (e, optional_float, to_float) refl)
  ]
  optional_float-Returns (array xs) h = (none, refl)
  optional_float-Returns (object fs) h = (none, refl)

  first_float-Returns : (vs : List Json) → all converts vs ≡ true → Returns (first_float rt vs)
  unfolding first_float
  first_float-Returns [] h = (none, refl)
  first_float-Returns (v ∷ vs) h =
      let (o, e) = optional_float-Returns v (ground arith) in
      let (rest, f) = first_float-Returns vs (ground arith) in
      elim (Option-cases o) [
        | inl missing ↦ (rest, rw (e, missing) f)
        | inr (x, given) ↦ (some x, rw (e, given) refl)
      ]

  run-Returns :
      (run : Fields)
      → all converts (run_numbers run) ≡ true
      → Returns (optional_float rt (get "retries" run))
        × Returns (optional_float rt (get "latency_ms" run))
        × Returns (optional_float rt (get "tool_errors" run))
  run-Returns run h = (
    optional_float-Returns (get "retries" run) (ground arith),
    optional_float-Returns (get "latency_ms" run) (ground arith),
    optional_float-Returns (get "tool_errors" run) (ground arith),
  )

  module _ (no_skill skill_visible : Fields) (before : all converts (run_numbers no_skill) ≡ true)
      (after : all converts (run_numbers skill_visible) ≡ true) where
    outperforms-Returns : Returns (outperforms rt no_skill skill_visible)
    unfolding outperforms
    outperforms-Returns =
        let ((a, e), (b, f), _) = run-Returns no_skill before in
        let ((c, g), (d, i), _) = run-Returns skill_visible after in
        rw (e, g, f, i, outperforms) (_, refl)

    derived_utility-Returns : Returns (derived_utility rt no_skill skill_visible)
    unfolding derived_utility
    derived_utility-Returns =
        let ((a, e), (b, f), (c, g)) = run-Returns no_skill before in
        let ((x, i), (y, j), (z, k)) = run-Returns skill_visible after in
        rw (e, i, f, j, g, k, derived_utility) (_, refl)

    utility-Returns : (o : Option Float) → Returns (utility_or_derived rt no_skill skill_visible o)
    utility-Returns none = derived_utility-Returns
    utility-Returns (some x) = (x, refl)

  replay-Returns :
      (replay : Fields) → ReplayConverts replay → Returns (intervention_replay_metrics rt replay)
  unfolding intervention_replay_metrics
  replay-Returns replay (deltas, before, after, run, run') =
      let no_skill : Fields = dict_of (get "no_skill" replay) in
      let skill_visible : Fields = dict_of (get "skill_visible" replay) in
      let (explicit, e) = first_float-Returns (utility_deltas rt replay skill_visible) deltas in
      let (a, f) = first_float-Returns (token_counts rt no_skill) before in
      let (b, g) = first_float-Returns (token_counts rt skill_visible) after in
      let (u, i) = utility-Returns no_skill skill_visible run run' explicit in
      rw (e, f, g, i, intervention_replay_metrics) (_, refl)

  replays-Returns :
      (probes : List Probe)
      → All ProbeIsTyped probes
      → Returns (replay_metrics rt (map replay_of (filterb has_replay probes)))
  unfolding replay_metrics
  replays-Returns [] typed = ([], refl)
  replays-Returns (p ∷ ps) typed =
      let (ms, f) = replays-Returns ps typed.1 in
      elim (Bool-cases (has_replay p)) [
        | inr skipped ↦ rw skipped (ms, f)
        | inl kept ↦
            let (m, e) = replay-Returns (replay_of p) typed.0.2 in
            rw kept (m ∷ ms, rw (e, f, replay_metrics) refl)
      ]

  score-Returns :
      (scanner_status : String) (probes : List Probe) (rs : List ProbeEvaluation)
      → All ProbeIsTyped probes
      → Returns (score_outcome rt scanner_status probes rs)
  unfolding score_outcome acceptance_metrics replay_metrics
  score-Returns scanner_status probes rs typed =
      let (ms, e) = replays-Returns probes typed in
      elim (Bool-cases (str_eq scanner_status "passed")) [
        | inl scanned ↦ rw (scanned, e, score_outcome, acceptance_metrics) (_, refl)
        | inr bad ↦ rw bad (_, refl)
      ]

  elements-Returns : (v : Json) → is_list v ≡ true → Returns (elements rt v)
  unfolding elements
  elements-Returns null h = ([], refl)
  elements-Returns (array xs) h = (_, refl)
  elements-Returns (boolean b) h = cc
  elements-Returns (integer n) h = cc
  elements-Returns (real x) h = cc
  elements-Returns (str s) h = cc
  elements-Returns (object fs) h = cc

  int_of-Returns : (v : Json) → is_integer v ≡ true → Returns (int_of rt v)
  unfolding int_of truthy
  int_of-Returns null h = (pos 0, refl)
  int_of-Returns (integer n) h = elim (Bool-cases (eqb_ℤ n (pos 0))) [
    | inl z ↦ (pos 0, rw (z, int_of) refl)
    | inr z ↦ (n, rw (z, int_of) refl)
  ]
  int_of-Returns (boolean b) h = cc
  int_of-Returns (array xs) h = cc
  int_of-Returns (real x) h = cc
  int_of-Returns (str s) h = cc
  int_of-Returns (object fs) h = cc

  replay_probe-Returns :
      (p : Probe) (replay : Fields) (executor : Option String)
      → ReplayConverts replay
      → Returns (evaluate_intervention_replay rt p replay executor)
  unfolding evaluate_intervention_replay
  replay_probe-Returns p replay executor (_, _, _, run, run') =
      let no_skill : Fields = dict_of (get "no_skill" replay) in
      let skill_visible : Fields = dict_of (get "skill_visible" replay) in
      let (better, e) = outperforms-Returns no_skill skill_visible run run' in
      elim (Bool-cases (is_dict_empty no_skill || is_dict_empty skill_visible)) [
        | inl missing ↦ rw (missing, evaluate_intervention_replay) (_, refl)
        | inr given ↦ rw (given, e, evaluate_intervention_replay) (_, refl)
      ]

  module _ (skill_ir : Fields) (executor : Option String)
      (evidence : is_list (get "evidence_ids" skill_ir) ≡ true)
      (never : is_list (get "never" skill_ir) ≡ true) where
    no_skill-Returns :
        (p : Probe)
        → ProbeIsTyped p
        → Returns
            (evaluate_no_skill_probe rt skill_ir executor p (dict_of p.spec) (dict_of p.expected))
    unfolding evaluate_no_skill_probe
    no_skill-Returns p typed =
        let (r, e) = replay_probe-Returns p (replay_of p) executor typed.2 in
        elim (Bool-cases (truthy rt (get "evidence_ids" (dict_of p.spec)))) [
          | inr missing ↦ rw (missing, evaluate_no_skill_probe) (_, refl)
          | inl cited ↦ elim (Bool-cases (is_dict_empty (replay_of p))) [
            | inr given ↦ rw (cited, given, e, evaluate_no_skill_probe) (_, refl)
            | inl none_given ↦
                elim (Bool-cases (
                  truthy rt
                    (get "candidate_must_improve_or_reduce_retries" (dict_of p.expected)))) [
                      | inl must ↦ rw (cited, none_given, must, evaluate_no_skill_probe) (_, refl)
                      | inr may ↦ rw (cited, none_given, may, evaluate_no_skill_probe) (_, refl)
                    ]
          ]
        ]

    evaluate_probe-Returns :
        (p : Probe) → ProbeIsTyped p → Returns (evaluate_probe rt skill_ir executor p)
    unfolding evaluate_probe evaluate_target_probe evaluate_regression_probe
        evaluate_adversarial_probe
    evaluate_probe-Returns p typed =
        let (es, e) = elements-Returns (get "evidence_ids" skill_ir) evidence in
        let (ns, n) = elements-Returns (get "never" skill_ir) never in
        let (ps, s) = elements-Returns (get "evidence_ids" (dict_of p.spec)) typed.0 in
        let (b, i) =
          int_of-Returns (get "adversarial_critical_budget" (dict_of p.expected)) typed.1 in
        let (w, c_runs) = no_skill-Returns p typed in
        elim (Bool-cases (str_eq p.kind "target")) [
          | inl t ↦ rw (t, e, s, evaluate_probe, evaluate_target_probe) (_, refl)
          | inr t ↦ elim (Bool-cases (str_eq p.kind "regression")) [
            | inl r ↦ rw (t, r, n, evaluate_probe, evaluate_regression_probe) (_, refl)
            | inr r ↦ elim (Bool-cases (str_eq p.kind "adversarial")) [
              | inl a ↦ rw (t, r, a, i, evaluate_probe, evaluate_adversarial_probe) (_, refl)
              | inr a ↦ elim (Bool-cases (str_eq p.kind "no_skill_control")) [
                | inl c ↦ rw (t, r, a, c, c_runs, evaluate_probe) (_, refl)
                | inr c ↦ rw (t, r, a, c, evaluate_probe) (_, refl)
              ]
            ]
          ]
        ]

    evaluate_probes-Returns :
        (probes : List Probe)
        → All ProbeIsTyped probes
        → Returns (evaluate_probes rt skill_ir executor probes)
    unfolding evaluate_probes
    evaluate_probes-Returns [] typed = ([], refl)
    evaluate_probes-Returns (p ∷ ps) typed =
        let (r, e) = evaluate_probe-Returns p typed.0 in
        let (rs, f) = evaluate_probes-Returns ps typed.1 in (r ∷ rs, rw (e, f) refl)

-- Where the evidence and the prohibitions of the candidate and the evidence of every probe are lists
-- or missing, every budget is an integer or missing, and no number of a replay is an integer too large
-- for a float, the gate gives a verdict and no exception.
pub evaluate-Returns :
    (rt : Runtime) (skill_ir : Fields) (scanner_status : String) (probes : List Probe)
    (executor : Option String)
    → is_list (get "evidence_ids" skill_ir) ≡ true
    → is_list (get "never" skill_ir) ≡ true
    → All (ProbeIsTyped rt) probes
    → (g : ProposalGateEvaluation) × (evaluate rt skill_ir scanner_status probes executor
        ≡ returned g)
unfolding evaluate verify_deterministically
evaluate-Returns rt skill_ir scanner_status probes executor evidence never typed =
    let (es, e) = elements-Returns rt (get "evidence_ids" skill_ir) evidence in
    let (rs, f) = evaluate_probes-Returns rt skill_ir executor evidence never probes typed in
    let (score, scored) = score-Returns rt scanner_status probes rs typed in
    let (score', scored') =
      score-Returns rt scanner_status probes (map (blocked_result rt executor) probes) typed in
    elim (Bool-cases (str_eq scanner_status "passed")) [
      | inl p ↦ rw (e, p, f, scored, evaluate, verify_deterministically) (_, refl)
      | inr p ↦ rw (e, p, scored', evaluate, verify_deterministically) (_, refl)
    ]

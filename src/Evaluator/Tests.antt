-- ===== src/Evaluator/Tests.antt =====
-- A candidate with three probes, and the theorems at it.
use Prim.Native.Nat.{◌/◌}
use skill_kernel.Base.{
  ℕ, ◌+◌, ◌-◌, ◌*◌, ◌<◌, pos, pos_part, String, str_eq, false, List, [], ◌∷◌, ◌≡◌, refl, none, ltb,
  All, countb, any, is_empty, Json, Fields, Float, null, str, array, object, nil, item, end, field,
  Py, returned, raised, value_error, overflow_error, boolean, true, integer, leb, if◌then◌else◌,
}
use skill_kernel.Scanner.Scan.{
  scan_text, raw_findings, found, dedupe_findings, capability_scan_text,
}
use skill_kernel.Evaluator.Runtime.{
  Runtime, Probe, ProbeEvaluation, Status, truthy, elements, int_of, to_float, optional_float,
  first_float,
}
use skill_kernel.Evaluator.Probes.{
  evaluate_target_probe, evaluate_no_skill_probe, evaluate_regression_probe,
  evaluate_adversarial_probe, evaluate_probe,
}
use skill_kernel.Evaluator.Replay.{
  evaluate_intervention_replay, outperforms, derived_utility, intervention_replay_metrics,
}
use skill_kernel.Evaluator.Metrics.{
  replay_metrics, metrics_of, utility_codes, AcceptanceMetrics, failures, pass_rate,
  acceptance_metrics, acceptance_policy_reason_codes, of_kind,
}
use skill_kernel.Evaluator.Gate.{
  ProposalGateEvaluation, evaluate, evaluate_probes, verify_deterministically, score_outcome,
  score_of, autonomy_assurance, hard_invariant_failures, soft_threshold_misses, failure_codes,
  dedupe, is_hard_code, gate_of, score_by_policy,
}
use skill_kernel.Evaluator.Acceptance.{evaluate-passed}
use skill_kernel.Evaluator.Assurance.{
  breaks_invariant, autonomy_assurance-candidate, Blocked, evaluate-Blocked,
}
use skill_kernel.Evaluator.Totality.{ProbeIsTyped, evaluate-Returns}
use skill_kernel.Evaluator.Budgets.{is_budget_code, evaluate-budgets}

abbrev float : ℕ → Float
float n = record { code = n }

abbrev total : List Float → Float
total [] = float 0
total (x ∷ xs) = float (x.code + (total xs).code)

-- Floats in thousandths, and a scanner that finds nothing.
abbrev runtime : Runtime
runtime = record {
  str_of = λ v. "token";
  lower = λ s. s;
  chars = λ s. [];
  contains = λ part s. str_eq part s;
  is_zero = λ x. ltb x.code 1;
  float_of_text = λ s. none;
  float_of_int = λ n.
      if ltb (pos_part n) 1_000_000
      then returned (float (pos_part n * 1000))
      else raised overflow_error;
  int_of_text = λ s. raised value_error;
  int_of_float = λ x. returned (pos (x.code / 1000));
  add = λ x y. float (x.code + y.code);
  sub = λ x y. float (x.code - y.code);
  mul = λ x y. float (x.code * y.code / 1000);
  div = λ x y. float (x.code * 1000 / y.code);
  less = λ x y. ltb x.code y.code;
  at_most = λ x y. leb x.code y.code;
  sum = total;
  round6 = λ x. x;
  milli = float;
  matcher = record {
    search = λ p text. false;
    sub = λ p by text. text;
    has_bidi_control = λ text. false;
    has_format_control = λ text. false;
  };
}

abbrev one_item : Json
one_item = array (item (str "token") nil)

abbrev skill_ir : Fields
skill_ir = field "evidence_ids" one_item (
    field "applicability" one_item (
      field "steps" one_item (
        field "verification" one_item (
          field "failure_handling" one_item
            (field "never" one_item (field "do_not_use_when" one_item end))))))

-- A run with 10 tokens that failed, and one with 8 that did not.
abbrev replay : Fields
replay =
    field "no_skill"
      (object (field "success" (boolean false) (field "tokens" (integer (pos 10)) end)))
      (field "skill_visible"
        (object (field "success" (boolean true) (field "tokens" (integer (pos 8)) end))) end)

abbrev probe : String → Probe
probe kind = record {
  probe_hash = "hash";
  kind = kind;
  spec = object (field "evidence_ids" one_item (field "intervention_replay" (object replay) end));
  expected = null;
  formatted = "probe";
}

abbrev probes : List Probe
probes = probe "target" ∷ probe "regression" ∷ probe "adversarial" ∷ probe "no_skill_control" ∷ []

abbrev outcome : Py ProposalGateEvaluation → Status
outcome (returned g) = g.status
outcome (raised e) = Status.blocked

test_evaluate : outcome (evaluate runtime skill_ir "passed" probes none) ≡ Status.passed
unfolding evaluate verify_deterministically evaluate_probes evaluate_probe evaluate_target_probe
    evaluate_regression_probe evaluate_adversarial_probe evaluate_no_skill_probe elements truthy
    int_of score_outcome score_of acceptance_metrics replay_metrics metrics_of
    acceptance_policy_reason_codes utility_codes pass_rate failures scan_text raw_findings found
    dedupe_findings capability_scan_text evaluate_intervention_replay outperforms derived_utility
    to_float optional_float first_float intervention_replay_metrics
test_evaluate = refl

abbrev no_metrics : AcceptanceMetrics
no_metrics = metrics_of runtime [] []

-- The gate that a run gives.
abbrev gate_in : Py ProposalGateEvaluation → ProposalGateEvaluation
gate_in (returned g) = g
gate_in (raised e) = gate_of none (score_by_policy no_metrics []) []

abbrev passing : ProposalGateEvaluation
passing = gate_in (evaluate runtime skill_ir "passed" probes none)

abbrev unscanned : ProposalGateEvaluation
unscanned = gate_in (evaluate runtime skill_ir "pending" probes none)

passing_run : evaluate runtime skill_ir "passed" probes none ≡ returned passing
unfolding evaluate verify_deterministically evaluate_probes evaluate_probe evaluate_target_probe
    evaluate_regression_probe evaluate_adversarial_probe evaluate_no_skill_probe elements truthy
    int_of score_outcome score_of acceptance_metrics replay_metrics metrics_of
    acceptance_policy_reason_codes utility_codes pass_rate failures scan_text raw_findings found
    dedupe_findings capability_scan_text evaluate_intervention_replay outperforms derived_utility
    to_float optional_float first_float intervention_replay_metrics
passing_run = refl

unscanned_run : evaluate runtime skill_ir "pending" probes none ≡ returned unscanned
unfolding evaluate verify_deterministically elements truthy score_outcome acceptance_metrics
    replay_metrics metrics_of pass_rate failures
unscanned_run = refl

passing_status : passing.status ≡ Status.passed
unfolding evaluate verify_deterministically evaluate_probes evaluate_probe evaluate_target_probe
    evaluate_regression_probe evaluate_adversarial_probe evaluate_no_skill_probe elements truthy
    int_of score_outcome score_of acceptance_metrics replay_metrics metrics_of
    acceptance_policy_reason_codes utility_codes pass_rate failures scan_text raw_findings found
    dedupe_findings capability_scan_text evaluate_intervention_replay outperforms derived_utility
    to_float optional_float first_float intervention_replay_metrics
passing_status = refl

evaluate-passed_example :
    ◌≡◌ {A = String} "passed" "passed"
    × All (λ r. r.status ≡ Status.passed) passing.probe_results
    × (0 < countb (of_kind "target") passing.probe_results)
    × (acceptance_metrics runtime passing.probe_results probes ≡ returned passing.metrics)
    × (acceptance_policy_reason_codes runtime passing.metrics ≡ [])
evaluate-passed_example =
    evaluate-passed runtime skill_ir "passed" probes none passing refl passing_run passing_status

evaluate-Blocked_example : Blocked unscanned
evaluate-Blocked_example =
    evaluate-Blocked runtime skill_ir "pending" probes none unscanned refl unscanned_run

evaluate-budgets_example : any is_budget_code passing.reason_codes ≡ false
evaluate-budgets_example =
    evaluate-budgets runtime skill_ir "passed" probes none passing passing_run

-- A failed target probe and a missed threshold.
abbrev target_failed : ProbeEvaluation
target_failed = record {
  probe_hash = "hash";
  kind = "target";
  status = Status.failed;
  score = float 0;
  reason = "missing cited evidence";
  executor_profile_id = none;
}

abbrev stalled_codes : List String
stalled_codes = "utility-delta-below-threshold" ∷ []

autonomy_assurance-candidate_example :
    (any breaks_invariant (target_failed ∷ []) ≡ false)
    × (any is_hard_code stalled_codes ≡ false)
    × (is_empty (soft_threshold_misses Status.failed (target_failed ∷ []) stalled_codes) ≡ false)
unfolding autonomy_assurance hard_invariant_failures soft_threshold_misses failure_codes dedupe
autonomy_assurance-candidate_example =
    autonomy_assurance-candidate Status.failed (target_failed ∷ []) stalled_codes no_metrics refl

typed : (kind : String) → ProbeIsTyped runtime (probe kind)
typed kind = (refl, refl, (refl, refl, refl, refl, refl))

typed_probes : All (ProbeIsTyped runtime) probes
typed_probes =
    (typed "target", (typed "regression", (typed "adversarial", (typed "no_skill_control", tt))))

evaluate-Returns_example :
    (g : ProposalGateEvaluation) × (evaluate runtime skill_ir "passed" probes none ≡ returned g)
evaluate-Returns_example =
    evaluate-Returns runtime skill_ir "passed" probes none refl refl typed_probes

-- ===== src/Evaluator/Gate.antt =====
-- The gate: `verify_deterministically`, `score_outcome`, `_autonomy_assurance` and `evaluate`.
use Prim.Native.String.{◌++◌ as append_text}
use skill_kernel.Base.{
  ℕ, String, str_eq, Bool, not, ◌&&◌, ◌||◌, List, [], ◌∷◌, ◌++◌, map, Option, some, none, ltb,
  if◌then◌else◌, any, filterb, is_empty, distinct_from, Fields, get, Py, returned, ◌>>=◌,
}
use skill_kernel.Evaluator.Runtime.{
  Runtime, Probe, ProbeEvaluation, Status, result, is_stalled, elements,
}
use skill_kernel.Evaluator.Probes.{evaluate_probe}
use skill_kernel.Evaluator.Metrics.{
  AcceptanceMetrics, acceptance_metrics, acceptance_policy_reason_codes, did_fail, of_kind,
}

abbrev pub did_stall : ProbeEvaluation → Bool
did_stall r = is_stalled r.status

-- The keys of SOFT_THRESHOLD_FALLBACKS with their actions.
abbrev pub fallbacks_of : String → List String
fallbacks_of code =
    if str_eq code "target-pass-rate-below-threshold"
    then "generate_more_probes" ∷ "collect_more_evidence" ∷ "run_re_adjudication"
      ∷ "no_op_reschedule" ∷ []
    else if str_eq code "token-delta-without-utility-gain"
    then "reduce_scope" ∷ "compile_more_conservatively" ∷ "decompose_candidate"
      ∷ "run_counterfactual_trial" ∷ []
    else if str_eq code "utility-delta-below-threshold"
    then "run_counterfactual_trial" ∷ "canary_with_smaller_exposure" ∷ "collect_more_evidence"
      ∷ "auto_reject_with_reason" ∷ []
    else if str_eq code "intervention-required"
    then "assemble_richer_permitted_evidence" ∷ "generate_more_probes" ∷ "try_ephemeral_candidate"
      ∷ "run_counterfactual_trial" ∷ "canary_with_smaller_exposure" ∷ "no_op_reschedule" ∷ []
    else []

abbrev pub is_soft_code : String → Bool
is_soft_code code = not (is_empty (fallbacks_of code))

abbrev pub is_hard_code : String → Bool
is_hard_code code =
    str_eq code "scanner-blocked"
    || str_eq code "regression-failure-budget-exceeded"
    || str_eq code "adversarial-critical-budget-exceeded"

-- `_dedupe`: empty texts are left out, and those that occurred before.
abbrev pub is_text : String → Bool
is_text s = not (str_eq s "")

unfoldable pub dedupe : List String → List String
dedupe values = distinct_from str_eq [] (filterb is_text values)

-- The codes that failed probes of two kinds add, in the order of the results.
unfoldable pub failure_codes : String → String → String → List ProbeEvaluation → List String
failure_codes kind kind' suffix [] = []
failure_codes kind kind' suffix (r ∷ rs) =
    let rest : List String = failure_codes kind kind' suffix rs in
    if did_fail r && (of_kind kind r || of_kind kind' r)
    then append_text r.kind suffix ∷ rest
    else rest

unfoldable pub hard_invariant_failures : List ProbeEvaluation → List String → List String
hard_invariant_failures results codes =
    dedupe (
      filterb is_hard_code codes
      ++ failure_codes "regression" "adversarial" "-probe-failed" results)

unfoldable pub soft_threshold_misses : Status → List ProbeEvaluation → List String → List String
soft_threshold_misses status results codes = dedupe (
    filterb is_soft_code codes
    ++ (failure_codes "target" "no_skill_control" "-evidence-insufficient" results
        ++ (if is_stalled status then "intervention-required" ∷ [] else [])))

abbrev all_fallbacks : List String → List String
all_fallbacks [] = []
all_fallbacks (code ∷ codes) = fallbacks_of code ++ all_fallbacks codes

-- The fields of the assurance that are no constants.
pub record AutonomyAssurance : Type 0 where
  pub hard_failures : List String
  pub soft_misses : List String
  pub fallback_actions : List String
  pub threshold_deadlock_candidate : Bool
  pub min_repeated_stalls : Option ℕ
  pub evidence_mode : String

unfoldable pub evidence_mode_of : AcceptanceMetrics → String
evidence_mode_of metrics =
    if ltb 0 metrics.intervention_replay_count
    then "semantic_derivative_only"
    else if ltb 0 metrics.probe_count
    then "metadata_plus_probe_plan"
    else "metadata_only"

unfoldable pub autonomy_assurance :
    Status → List ProbeEvaluation → List String → AcceptanceMetrics → AutonomyAssurance
autonomy_assurance status results codes metrics =
    let hard : List String = hard_invariant_failures results codes in
    let soft : List String = soft_threshold_misses status results codes in
    let candidate : Bool = not (is_empty soft) && is_empty hard in
    record {
      hard_failures = hard;
      soft_misses = soft;
      fallback_actions = dedupe (all_fallbacks soft);
      threshold_deadlock_candidate = candidate;
      min_repeated_stalls = if candidate then some 3 else none;
      evidence_mode = evidence_mode_of metrics;
    }

pub record Score : Type 0 where
  pub status : Status
  pub reason_codes : List String
  pub metrics : AcceptanceMetrics

pub record ProposalGateEvaluation : Type 0 where
  pub status : Status
  pub probe_results : List ProbeEvaluation
  pub reason_codes : List String
  pub metrics : AcceptanceMetrics
  pub assurance : AutonomyAssurance
  pub executor_profile_id : Option String

abbrev pub score_by_policy : AcceptanceMetrics → List String → Score
score_by_policy metrics [] = record {
  status = Status.passed;
  reason_codes = "all-deterministic-probes-passed" ∷ [];
  metrics = metrics;
}
score_by_policy metrics (code ∷ codes) = record {
  status = Status.failed;
  reason_codes = code ∷ codes;
  metrics = metrics;
}

abbrev pub gate_of : Option String → Score → List ProbeEvaluation → ProposalGateEvaluation
gate_of executor score results = record {
  status = score.status;
  probe_results = results;
  reason_codes = score.reason_codes;
  metrics = score.metrics;
  assurance = autonomy_assurance score.status results score.reason_codes score.metrics;
  executor_profile_id = executor;
}

module _ (rt : Runtime) where
  unfoldable pub blocked_result : Option String → Probe → ProbeEvaluation
  blocked_result executor probe =
      result probe Status.blocked (rt.milli 0) "scanner did not pass" executor

  unfoldable pub evaluate_probes : Fields → Option String → List Probe → Py (List ProbeEvaluation)
  evaluate_probes skill_ir executor [] = returned []
  evaluate_probes skill_ir executor (probe ∷ probes) =
      evaluate_probe rt skill_ir executor probe >>= λ r.
      evaluate_probes skill_ir executor probes >>= λ rs. returned (r ∷ rs)

  unfoldable pub verify_deterministically :
      Fields → String → Option String → List Probe → Py (List ProbeEvaluation)
  verify_deterministically skill_ir scanner_status executor probes =
      if str_eq scanner_status "passed"
      then evaluate_probes skill_ir executor probes
      else returned (map (blocked_result executor) probes)

  -- What the results and the metrics of a scanned candidate amount to.
  unfoldable pub score_of : List ProbeEvaluation → AcceptanceMetrics → Score
  score_of results metrics =
      if any did_fail results
      then record { status = Status.failed; reason_codes = "probe-failed" ∷ []; metrics = metrics }
      else if any did_stall results
      then record {
        status = Status.needs_intervention;
        reason_codes = "intervention-required" ∷ [];
        metrics = metrics;
      }
      else score_by_policy metrics (acceptance_policy_reason_codes rt metrics)

  unfoldable pub score_outcome : String → List Probe → List ProbeEvaluation → Py Score
  score_outcome scanner_status probes results =
      if not (str_eq scanner_status "passed")
      then (acceptance_metrics rt [] [] >>= λ metrics. returned (record {
        status = Status.blocked;
        reason_codes = "scanner-blocked" ∷ [];
        metrics = metrics;
      }))
      else acceptance_metrics rt results probes >>= λ metrics. returned (score_of results metrics)

  -- The context of the artifacts counts the evidence before a probe is verified.
  unfoldable pub evaluate : Fields → String → List Probe → Option String → Py ProposalGateEvaluation
  evaluate skill_ir scanner_status probes executor =
      elements rt (get "evidence_ids" skill_ir) >>= λ evidence.
      verify_deterministically skill_ir scanner_status executor probes >>= λ results.
      score_outcome scanner_status probes results >>= λ score.
      returned (gate_of executor score results)

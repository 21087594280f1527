-- ===== src/Evaluator/Metrics.antt =====
-- `_acceptance_metrics` and `_acceptance_policy_reason_codes`.
use skill_kernel.Base.{
  ℕ, ◌*◌, Py, returned, ◌>>=◌, String, str_eq, Bool, true, false, not, ◌&&◌, List, [], ◌∷◌, ◌++◌,
  map, ltb, if◌then◌else◌, length, filterb, countb, is_empty, Fields, Float, get, dict_of,
  is_dict_empty,
}
use skill_kernel.Evaluator.Runtime.{Runtime, Probe, ProbeEvaluation, is_passed, is_failed}
use skill_kernel.Evaluator.Replay.{ReplayMetrics, intervention_replay_metrics}

pub record AcceptanceMetrics : Type 0 where
  pub target_probe_pass_rate : Float
  pub regression_failures : ℕ
  pub adversarial_failures : ℕ
  pub probe_count : ℕ
  pub intervention_replay_count : ℕ
  pub utility_delta : Float
  pub token_delta : Float

abbrev pub of_kind : String → ProbeEvaluation → Bool
of_kind kind r = str_eq r.kind kind

abbrev pub did_pass : ProbeEvaluation → Bool
did_pass r = is_passed r.status

abbrev pub did_fail : ProbeEvaluation → Bool
did_fail r = is_failed r.status

-- `_dict(_dict(probe.get("spec")).get("intervention_replay"))`
abbrev pub replay_of : Probe → Fields
replay_of probe = dict_of (get "intervention_replay" (dict_of probe.spec))

abbrev pub has_replay : Probe → Bool
has_replay probe = str_eq probe.kind "no_skill_control" && not (is_dict_empty (replay_of probe))

-- The failures among the results of a kind.
unfoldable pub failures : String → List ProbeEvaluation → ℕ
failures kind results = countb did_fail (filterb (of_kind kind) results)

module _ (rt : Runtime) where
  -- `sum(...) / len(...)`, and 0.0 of an empty list.
  abbrev mean : List Float → Float
  mean xs = if is_empty xs then rt.milli 0 else rt.div (rt.sum xs) (rt.milli (length xs * 1000))

  unfoldable pub pass_rate : List ProbeEvaluation → Float
  pass_rate target =
      if is_empty target
      then rt.milli 0
      else rt.div (rt.milli (countb did_pass target * 1000)) (rt.milli (length target * 1000))

  unfoldable pub replay_metrics : List Fields → Py (List ReplayMetrics)
  replay_metrics [] = returned []
  replay_metrics (replay ∷ replays) = intervention_replay_metrics rt replay >>= λ m.
      replay_metrics replays >>= λ ms. returned (m ∷ ms)

  -- The dict that is returned.
  unfoldable pub metrics_of : List ProbeEvaluation → List ReplayMetrics → AcceptanceMetrics
  metrics_of results replays = record {
    target_probe_pass_rate = rt.round6 (pass_rate (filterb (of_kind "target") results));
    regression_failures = failures "regression" results;
    adversarial_failures = failures "adversarial" results;
    probe_count = length results;
    intervention_replay_count = length replays;
    utility_delta = rt.round6 (mean (map (λ m. m.utility_delta) replays));
    token_delta = rt.round6 (rt.sum (map (λ m. m.token_delta) replays));
  }

  unfoldable pub acceptance_metrics : List ProbeEvaluation → List Probe → Py AcceptanceMetrics
  acceptance_metrics results probes =
      replay_metrics (map replay_of (filterb has_replay probes)) >>= λ replays.
      returned (metrics_of results replays)

  abbrev pub code_if : Bool → String → List String
  code_if true code = code ∷ []
  code_if false code = []

  -- The codes of a gate with replays.
  unfoldable pub utility_codes : AcceptanceMetrics → List String
  utility_codes metrics =
      code_if
        (rt.less (rt.milli 0) metrics.token_delta && rt.at_most metrics.utility_delta (rt.milli 0))
        "token-delta-without-utility-gain"
      ++ code_if (rt.less metrics.utility_delta (rt.milli 30)) "utility-delta-below-threshold"

  unfoldable pub acceptance_policy_reason_codes : AcceptanceMetrics → List String
  acceptance_policy_reason_codes metrics =
      code_if (rt.less metrics.target_probe_pass_rate (rt.milli 850))
        "target-pass-rate-below-threshold"
      ++ (code_if (ltb 0 metrics.regression_failures) "regression-failure-budget-exceeded"
          ++ (code_if (ltb 0 metrics.adversarial_failures) "adversarial-critical-budget-exceeded"
              ++ (if ltb 0 metrics.intervention_replay_count then utility_codes metrics else [])))

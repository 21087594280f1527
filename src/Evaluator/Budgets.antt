-- ===== src/Evaluator/Budgets.antt =====
-- The budgets for failed regression and adversarial probes.
use skill_kernel.Base.{
  String, str_eq, Bool, false, ◌||◌, List, [], ◌∷◌, Option, ◌≡◌, refl, sym, subst, inl, inr, arith,
  any, Bool-cases, Fields, returned,
}
use skill_kernel.Evaluator.Runtime.{Runtime, Probe, ProbeEvaluation}
use skill_kernel.Evaluator.Replay.{ReplayMetrics}
use skill_kernel.Evaluator.Metrics.{
  AcceptanceMetrics, metrics_of, acceptance_policy_reason_codes, utility_codes, did_fail, failures,
}
use skill_kernel.Evaluator.Gate.{
  ProposalGateEvaluation, score_by_policy, Score, score_of, score_outcome, evaluate,
}
use skill_kernel.Evaluator.Acceptance.{
  evaluate-parts, score_outcome-scanned, score_outcome-unscanned, acceptance_metrics-parts,
}

no_failures :
    (kind : String) (rs : List ProbeEvaluation) → any did_fail rs ≡ false → failures kind rs ≡ 0
unfolding failures
no_failures kind [] h = refl
no_failures kind (r ∷ rs) h = ground (arith, no_failures kind rs)

-- A code of an exceeded budget for failed probes.
abbrev pub is_budget_code : String → Bool
is_budget_code code =
    str_eq code "regression-failure-budget-exceeded"
    || str_eq code "adversarial-critical-budget-exceeded"

policy-budgets :
    (rt : Runtime) (rs : List ProbeEvaluation) (replays : List ReplayMetrics)
    → any did_fail rs ≡ false
    → any is_budget_code (acceptance_policy_reason_codes rt (metrics_of rt rs replays)) ≡ false
unfolding acceptance_policy_reason_codes metrics_of utility_codes
policy-budgets rt rs replays fine =
    rw (no_failures "regression" rs fine, no_failures "adversarial" rs fine) (ground arith)

by_policy-budgets :
    (metrics : AcceptanceMetrics) (codes : List String)
    → any is_budget_code codes ≡ false
    → any is_budget_code (score_by_policy metrics codes).reason_codes ≡ false
by_policy-budgets metrics [] h = refl
by_policy-budgets metrics (c ∷ cs) h = h

score_of-budgets :
    (rt : Runtime) (rs : List ProbeEvaluation) (replays : List ReplayMetrics)
    → any is_budget_code (score_of rt rs (metrics_of rt rs replays)).reason_codes ≡ false
unfolding score_of
score_of-budgets rt rs replays = elim (Bool-cases (any did_fail rs)) [
  | inl fails ↦ ground arith
  | inr fails ↦
      let h : any is_budget_code (acceptance_policy_reason_codes rt (metrics_of rt rs replays))
          ≡ false =
        policy-budgets rt rs replays fails in
      ground (
        arith,
        by_policy-budgets (metrics_of rt rs replays)
            (acceptance_policy_reason_codes rt (metrics_of rt rs replays)),
      )
]

score_outcome-budgets :
    (rt : Runtime) (scanner_status : String) (probes : List Probe) (rs : List ProbeEvaluation)
    (score : Score)
    → score_outcome rt scanner_status probes rs ≡ returned score
    → any is_budget_code score.reason_codes ≡ false
score_outcome-budgets rt scanner_status probes rs score scored =
    elim (Bool-cases (str_eq scanner_status "passed")) [
      | inr bad ↦
          let h = score_outcome-unscanned rt scanner_status probes rs score bad scored in
          subst (λ codes. any is_budget_code codes ≡ false) (sym h.1) refl
      | inl scanned ↦
          let (metrics, computed, same) =
            score_outcome-scanned rt scanner_status probes rs score scanned scored in
          let (replays, made) = acceptance_metrics-parts rt rs probes metrics computed in
          subst (λ s. any is_budget_code s.reason_codes ≡ false) same
            (subst (λ m. any is_budget_code (score_of rt rs m).reason_codes ≡ false) made
              (score_of-budgets rt rs replays))
    ]

-- No gate is given the reason that a budget for failed regression or adversarial probes is exceeded:
-- one failed probe of any kind already fails the gate, before the budgets are compared.
pub evaluate-budgets :
    (rt : Runtime) (skill_ir : Fields) (scanner_status : String) (probes : List Probe)
    (executor : Option String) (g : ProposalGateEvaluation)
    → evaluate rt skill_ir scanner_status probes executor ≡ returned g
    → any is_budget_code g.reason_codes ≡ false
evaluate-budgets rt skill_ir scanner_status probes executor g ran =
    let (rs, e, score, scored, made) =
      evaluate-parts rt skill_ir scanner_status probes executor g ran in
    subst (λ x. any is_budget_code x.reason_codes ≡ false) made
      (score_outcome-budgets rt scanner_status probes rs score scored)

-- ===== src/Evaluator/Acceptance.antt =====
-- When the gate passes, and what a scanner that did not pass does to it.
use skill_kernel.Base.{
  String, str_eq, str_eq_iff, Bool, true, false, List, [], ◌∷◌, ◌++◌, Option, ◌≡◌, ◌<◌, refl, sym,
  subst, ap, ◌∙◌, map, ◌⊎◌, inl, inr, arith, All, any, filterb, countb, Bool-cases, Fields, get,
  returned, returned-parts,
}
use skill_kernel.Evaluator.Runtime.{
  Runtime, Probe, ProbeEvaluation, Status, is_failed, is_stalled, elements,
}
use skill_kernel.Evaluator.Probes.{evaluate_probe}
use skill_kernel.Evaluator.Replay.{ReplayMetrics}
use skill_kernel.Evaluator.Metrics.{
  AcceptanceMetrics, acceptance_metrics, acceptance_policy_reason_codes, did_fail, of_kind,
  pass_rate, code_if, metrics_of, replay_metrics, replay_of, has_replay,
}
use skill_kernel.Evaluator.Gate.{
  did_stall, ProposalGateEvaluation, evaluate_probes, verify_deterministically, score_by_policy,
  Score, score_of, score_outcome, gate_of, evaluate,
}
use skill_kernel.Evaluator.Verdicts.{is_blocked, Unblocked, Verdict, evaluate_probe-Verdict}

pub returned-injective : {r s : List ProbeEvaluation} → returned r ≡ returned s → r ≡ s
returned-injective h = cc

returned_gate-injective : {r s : ProposalGateEvaluation} → returned r ≡ returned s → r ≡ s
returned_gate-injective h = cc

module _ (rt : Runtime) (skill_ir : Fields) (executor : Option String) where
  evaluate_probes-Unblocked :
      (probes : List Probe) (rs : List ProbeEvaluation)
      → evaluate_probes rt skill_ir executor probes ≡ returned rs
      → All Unblocked rs
  unfolding evaluate_probes
  evaluate_probes-Unblocked [] rs ran = subst (All Unblocked) (returned-injective ran) tt
  evaluate_probes-Unblocked (p ∷ ps) rs ran =
      let (r, e, h) = returned-parts (evaluate_probe rt skill_ir executor p) _ ran in
      let (qs, e', h') = returned-parts (evaluate_probes rt skill_ir executor ps) _ h in
      subst (All Unblocked) (returned-injective h') (
        subst Verdict e (evaluate_probe-Verdict rt skill_ir executor p),
        evaluate_probes-Unblocked ps qs e',
      )

-- The results of a gate, and how the gate is made of them.
module _ (rt : Runtime) (skill_ir : Fields) (scanner_status : String) (probes : List Probe)
    (executor : Option String) (g : ProposalGateEvaluation)
    (ran : evaluate rt skill_ir scanner_status probes executor ≡ returned g) where
  pub evaluate-parts :
      (rs : List ProbeEvaluation) × (verify_deterministically rt skill_ir scanner_status executor
          probes
        ≡ returned rs)
      × (score : Score) × (score_outcome rt scanner_status probes rs ≡ returned score)
      × (gate_of executor score rs ≡ g)
  unfolding evaluate
  evaluate-parts =
      let (es, e, h) = returned-parts (elements rt (get "evidence_ids" skill_ir)) _ ran in
      let (rs, e', h') =
        returned-parts (verify_deterministically rt skill_ir scanner_status executor probes) _ h in
      let (score, e'', h'') = returned-parts (score_outcome rt scanner_status probes rs) _ h' in
      (rs, e', score, e'', returned_gate-injective h'')

-- Neither failed, nor stalled, nor blocked is passed.
status_passed :
    (st : Status)
    → is_blocked st ≡ false
    → is_failed st ≡ false
    → is_stalled st ≡ false
    → st ≡ Status.passed
status_passed Status.passed b f s = refl
status_passed Status.failed b f s = cc
status_passed Status.needs_intervention b f s = cc
status_passed Status.blocked b f s = cc

All-passed :
    (rs : List ProbeEvaluation)
    → All Unblocked rs
    → any did_fail rs ≡ false
    → any did_stall rs ≡ false
    → All (λ r. r.status ≡ Status.passed) rs
All-passed [] u f s = tt
All-passed (r ∷ rs) u f s = (
  status_passed r.status u.0 (ground arith) (ground arith),
  All-passed rs u.1 (ground arith) (ground arith),
)

record Passing (rt : Runtime) (rs : List ProbeEvaluation) (metrics : AcceptanceMetrics)
    : Type 0 where
  none_failed : any did_fail rs ≡ false
  none_stalled : any did_stall rs ≡ false
  no_codes : acceptance_policy_reason_codes rt metrics ≡ []

score_by_policy-passed :
    (metrics : AcceptanceMetrics) (codes : List String)
    → (score_by_policy metrics codes).status ≡ Status.passed
    → codes ≡ []
score_by_policy-passed metrics [] h = refl
score_by_policy-passed metrics (c ∷ cs) h = cc

score_of-passed :
    (rt : Runtime) (rs : List ProbeEvaluation) (metrics : AcceptanceMetrics)
    → (score_of rt rs metrics).status ≡ Status.passed
    → Passing rt rs metrics
unfolding score_of
score_of-passed rt rs metrics h = elim (Bool-cases (any did_fail rs)) [
  | inl fails ↦ let e : Status.failed ≡ Status.passed = rw fails at h in cc
  | inr fails ↦ elim (Bool-cases (any did_stall rs)) [
    | inl stalls ↦ let e : Status.needs_intervention ≡ Status.passed = rw (fails, stalls) at h in cc
    | inr stalls ↦ record {
      none_failed = fails;
      none_stalled = stalls;
      no_codes = score_by_policy-passed metrics _ (rw (fails, stalls) at h);
    }
  ]
]

score_by_policy-metrics :
    (metrics : AcceptanceMetrics) (codes : List String)
    → (score_by_policy metrics codes).metrics ≡ metrics
score_by_policy-metrics metrics [] = refl
score_by_policy-metrics metrics (c ∷ cs) = refl

score_of-metrics :
    (rt : Runtime) (rs : List ProbeEvaluation) (metrics : AcceptanceMetrics)
    → (score_of rt rs metrics).metrics ≡ metrics
unfolding score_of
score_of-metrics rt rs metrics = elim (Bool-cases (any did_fail rs)) [
  | inl fails ↦ rw fails refl
  | inr fails ↦ elim (Bool-cases (any did_stall rs)) [
    | inl stalls ↦ rw (fails, stalls) refl
    | inr stalls ↦
        rw (fails, stalls)
          (score_by_policy-metrics metrics (acceptance_policy_reason_codes rt metrics))
  ]
]

returned_score-injective : {r s : Score} → returned r ≡ returned s → r ≡ s
returned_score-injective h = cc

-- The metrics that a score of a scanned candidate is made of.
pub score_outcome-scanned :
    (rt : Runtime) (scanner_status : String) (probes : List Probe) (rs : List ProbeEvaluation)
    (score : Score)
    → str_eq scanner_status "passed" ≡ true
    → score_outcome rt scanner_status probes rs ≡ returned score
    → (metrics : AcceptanceMetrics) × (acceptance_metrics rt rs probes ≡ returned metrics)
      × (score_of rt rs metrics ≡ score)
unfolding score_outcome
score_outcome-scanned rt scanner_status probes rs score ok h =
    let (metrics, e, made) =
      returned-parts (acceptance_metrics rt rs probes) _ (rw (ok, score_outcome) at h) in
    (metrics, e, returned_score-injective made)

-- A candidate that was not scanned is blocked.
pub score_outcome-unscanned :
    (rt : Runtime) (scanner_status : String) (probes : List Probe) (rs : List ProbeEvaluation)
    (score : Score)
    → str_eq scanner_status "passed" ≡ false
    → score_outcome rt scanner_status probes rs ≡ returned score
    → (score.status ≡ Status.blocked) × (score.reason_codes ≡ "scanner-blocked" ∷ [])
unfolding score_outcome
score_outcome-unscanned rt scanner_status probes rs score bad h =
    let (metrics, e, made) =
      returned-parts (acceptance_metrics rt [] []) _ (rw (bad, score_outcome) at h) in
    let same : _ ≡ score = returned_score-injective made in
    (ap (λ s. s.status) (sym same), ap (λ s. s.reason_codes) (sym same))

filterb-countb :
    (p : ProbeEvaluation → Bool) (rs : List ProbeEvaluation)
    → (filterb p rs ≡ []) ⊎ (0 < countb p rs)
filterb-countb p [] = inl refl
filterb-countb p (r ∷ rs) = elim (Bool-cases (p r)) [
  | inl good ↦ inr (rw good (omega arith))
  | inr bad ↦ elim (filterb-countb p rs) [ inl e ↦ inl (rw (bad, e)) | inr h ↦ inr (rw bad h) ]
]

head_code :
    (rt : Runtime) (b : Bool) (code : String) (rest : List String)
    → code_if rt b code ++ rest ≡ []
    → b ≡ false
head_code rt true code rest h = cc
head_code rt false code rest h = refl

-- A target rate that is high enough is no rate of an empty list.
rate-In :
    (rt : Runtime) (rs : List ProbeEvaluation) (replays : List ReplayMetrics)
    → rt.less (rt.round6 (rt.milli 0)) (rt.milli 850) ≡ true
    → acceptance_policy_reason_codes rt (metrics_of rt rs replays) ≡ []
    → 0 < countb (of_kind "target") rs
unfolding acceptance_policy_reason_codes metrics_of pass_rate
rate-In rt rs replays low ok = elim (filterb-countb (of_kind "target") rs) [
  | inr h ↦ h
  | inl none_left ↦
      let high : rt.less (rt.round6 (pass_rate rt (filterb (of_kind "target") rs))) (rt.milli 850)
          ≡ false =
        head_code rt
          (rt.less (rt.round6 (pass_rate rt (filterb (of_kind "target") rs))) (rt.milli 850)) _ _
          ok in
      let high' : rt.less (rt.round6 (rt.milli 0)) (rt.milli 850) ≡ false =
        subst (λ l. rt.less (rt.round6 (pass_rate rt l)) (rt.milli 850) ≡ false) none_left high in
      cc
]

returned_metrics-injective : {r s : AcceptanceMetrics} → returned r ≡ returned s → r ≡ s
returned_metrics-injective h = cc

-- The metrics are made of the results and of the replays of the probes.
pub acceptance_metrics-parts :
    (rt : Runtime) (rs : List ProbeEvaluation) (probes : List Probe) (metrics : AcceptanceMetrics)
    → acceptance_metrics rt rs probes ≡ returned metrics
    → (replays : List ReplayMetrics) × (metrics_of rt rs replays ≡ metrics)
unfolding acceptance_metrics
acceptance_metrics-parts rt rs probes metrics h =
    let (replays, e, made) =
      returned-parts (replay_metrics rt (map replay_of (filterb has_replay probes))) _ h in
    (replays, returned_metrics-injective made)

target-In :
    (rt : Runtime) (rs : List ProbeEvaluation) (probes : List Probe) (metrics : AcceptanceMetrics)
    → rt.less (rt.round6 (rt.milli 0)) (rt.milli 850) ≡ true
    → acceptance_metrics rt rs probes ≡ returned metrics
    → acceptance_policy_reason_codes rt metrics ≡ []
    → 0 < countb (of_kind "target") rs
target-In rt rs probes metrics low computed ok =
    let (replays, made) = acceptance_metrics-parts rt rs probes metrics computed in
    rate-In rt rs replays low (subst (λ m. acceptance_policy_reason_codes rt m ≡ []) (sym made) ok)

-- The gate passes only what the scanner passed, where every probe passed, there is a target probe,
-- and the metrics, which are those of the results and the probes, give no reason against it; that
-- 0.0, rounded, is below 0.85 is the hypothesis on floats.
pub evaluate-passed :
    (rt : Runtime) (skill_ir : Fields) (scanner_status : String) (probes : List Probe)
    (executor : Option String) (g : ProposalGateEvaluation)
    → rt.less (rt.round6 (rt.milli 0)) (rt.milli 850) ≡ true
    → evaluate rt skill_ir scanner_status probes executor ≡ returned g
    → g.status ≡ Status.passed
    → (scanner_status ≡ "passed")
      × All (λ r. r.status ≡ Status.passed) g.probe_results
      × (0 < countb (of_kind "target") g.probe_results)
      × (acceptance_metrics rt g.probe_results probes ≡ returned g.metrics)
      × (acceptance_policy_reason_codes rt g.metrics ≡ [])
unfolding verify_deterministically
evaluate-passed rt skill_ir scanner_status probes executor g low ran ok =
    let (rs, e, score, scored, made) =
      evaluate-parts rt skill_ir scanner_status probes executor g ran in
    let fine : score.status ≡ Status.passed = subst (λ x. x.status ≡ Status.passed) (sym made) ok in
    elim (Bool-cases (str_eq scanner_status "passed")) [
      | inr bad ↦
          let h = score_outcome-unscanned rt scanner_status probes rs score bad scored in
          let e : Status.blocked ≡ Status.passed = sym h.0 ∙ fine in cc
      | inl scan_ok ↦
          let (metrics, computed, same) =
            score_outcome-scanned rt scanner_status probes rs score scan_ok scored in
          let all_good : Passing rt rs metrics =
            score_of-passed rt rs metrics (subst (λ x. x.status ≡ Status.passed) (sym same) fine) in
          let is_metrics : metrics ≡ score.metrics =
            sym (score_of-metrics rt rs metrics) ∙ ap (λ s. s.metrics) same in
          subst
            (λ x.
              (scanner_status ≡ "passed")
              × All (λ r. r.status ≡ Status.passed) x.probe_results
              × (0 < countb (of_kind "target") x.probe_results)
              × (acceptance_metrics rt x.probe_results probes ≡ returned x.metrics)
              × (acceptance_policy_reason_codes rt x.metrics ≡ []))
            made
            (
              (str_eq_iff scanner_status "passed").0 scan_ok,
              All-passed rs
                  (evaluate_probes-Unblocked rt skill_ir executor probes rs (rw scan_ok at e))
                  all_good.none_failed all_good.none_stalled,
              target-In rt rs probes metrics low computed all_good.no_codes,
              computed ∙ ap (λ m. returned m) is_metrics,
              subst (λ m. acceptance_policy_reason_codes rt m ≡ []) is_metrics all_good.no_codes,
            )
    ]

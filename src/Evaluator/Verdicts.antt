-- ===== src/Evaluator/Verdicts.antt =====
-- A probe that is evaluated is passed, failed or in need of intervention.
use skill_kernel.Base.{
  String, Bool, true, false, List, [], ◌∷◌, Option, ◌≡◌, refl, arith, ℤ, Fields, dict_of, get, Py,
  raised, returned, ◌>>=◌, Bool-cases, inl, inr, is_dict_empty, ◌||◌,
}
use skill_kernel.Scanner.Scan.{ScannerFinding}
use skill_kernel.Evaluator.Runtime.{Runtime, Probe, ProbeEvaluation, Status, elements, int_of}
use skill_kernel.Evaluator.Replay.{evaluate_intervention_replay, outperforms}
use skill_kernel.Evaluator.Probes.{
  evaluate_probe, evaluate_target_probe, evaluate_regression_probe, evaluate_adversarial_probe,
  evaluate_no_skill_probe, by_phrases,
}

-- A verdict on a probe that was evaluated is never that it is blocked.
abbrev pub is_blocked : Status → Bool
is_blocked Status.blocked = true
is_blocked _ = false

abbrev pub Unblocked : ProbeEvaluation → Type 0
Unblocked r = is_blocked r.status ≡ false

abbrev pub Verdict : Py ProbeEvaluation → Type 0
Verdict (raised e) = Unit
Verdict (returned r) = Unblocked r

Verdict->>= {ℓ} :
    {A : Type ℓ} (p : Py A) (k : A → Py ProbeEvaluation)
    → ((a : A) → Verdict (k a))
    → Verdict (p >>= k)
Verdict->>= (raised e) k h = tt
Verdict->>= (returned a) k h = h a

module _ (rt : Runtime) (skill_ir : Fields) (executor : Option String) (probe : Probe) where
  target-Verdict : (spec : Fields) → Verdict (evaluate_target_probe rt skill_ir executor probe spec)
  unfolding evaluate_target_probe
  target-Verdict spec =
      Verdict->>= (elements rt (get "evidence_ids" skill_ir)) _
        λ es. Verdict->>= (elements rt (get "evidence_ids" spec)) _ λ ps. ground arith

  regression-Verdict :
      (spec : Fields) → Verdict (evaluate_regression_probe rt skill_ir executor probe spec)
  unfolding evaluate_regression_probe
  regression-Verdict spec = Verdict->>= (elements rt (get "never" skill_ir)) _ λ never. ground arith

  phrases-Unblocked :
      (budget : ℤ) (critical : List ScannerFinding) (phrases : List String)
      → Unblocked (by_phrases rt skill_ir executor probe budget critical phrases)
  phrases-Unblocked budget critical [] = ground arith
  phrases-Unblocked budget critical (p ∷ ps) = refl

  adversarial-Verdict :
      (expected : Fields) → Verdict (evaluate_adversarial_probe rt skill_ir executor probe expected)
  unfolding evaluate_adversarial_probe
  adversarial-Verdict expected =
      Verdict->>= (int_of rt (get "adversarial_critical_budget" expected)) _
        λ budget. phrases-Unblocked budget _ _

  replay-Verdict :
      (replay : Fields) → Verdict (evaluate_intervention_replay rt probe replay executor)
  unfolding evaluate_intervention_replay
  replay-Verdict replay =
      let no_skill = dict_of (get "no_skill" replay) in
      let skill_visible = dict_of (get "skill_visible" replay) in
      elim (Bool-cases (is_dict_empty no_skill || is_dict_empty skill_visible)) [
        | inl missing ↦ rw (missing, evaluate_intervention_replay) refl
        | inr given ↦
            rw (given, evaluate_intervention_replay)
              (Verdict->>= (outperforms rt no_skill skill_visible) _ λ better. ground arith)
      ]

  no_skill-Verdict :
      (spec expected : Fields)
      → Verdict (evaluate_no_skill_probe rt skill_ir executor probe spec expected)
  unfolding evaluate_no_skill_probe
  no_skill-Verdict spec expected =
      ground (arith, replay-Verdict (dict_of (get "intervention_replay" spec)))

  pub evaluate_probe-Verdict : Verdict (evaluate_probe rt skill_ir executor probe)
  unfolding evaluate_probe
  evaluate_probe-Verdict = ground (
    arith,
    target-Verdict (dict_of probe.spec),
    regression-Verdict (dict_of probe.spec),
    adversarial-Verdict (dict_of probe.expected),
    no_skill-Verdict (dict_of probe.spec) (dict_of probe.expected),
  )

-- ===== src/Evaluator/Probes.antt =====
-- `_evaluate_probe` and the evaluation of each kind of probe.
use Prim.Native.String.{◌++◌ as append_text}
use skill_kernel.Base.{
  pos, ℤ, ltb_ℤ, String, str_eq, not, ◌||◌, List, [], ◌∷◌, map, Option, take, filterb, any, all,
  length, is_empty, if◌then◌else◌, Fields, object, get, dict_of, is_dict_empty, Py, returned, ◌>>=◌,
}
use skill_kernel.Scanner.Scan.{ScannerFinding, is_blocking, scan_text}
use skill_kernel.Evaluator.Runtime.{
  Runtime, Probe, ProbeEvaluation, Status, result, truthy, elements, int_of,
}
use skill_kernel.Evaluator.Replay.{evaluate_intervention_replay}

-- `"\n".join(...)` and `", ".join(...)`
abbrev joined_by : String → List String → String
joined_by sep [] = ""
joined_by sep (s ∷ []) = s
joined_by sep (s ∷ t ∷ ts) = append_text s (append_text sep (joined_by sep (t ∷ ts)))

abbrev required_sections : List String
required_sections = "applicability" ∷ "steps" ∷ "verification" ∷ "failure_handling" ∷ "never" ∷ []

-- `risky_terms[:3]` and `risky_terms[3:]`
abbrev secret_terms : List String
secret_terms = "secret" ∷ "token" ∷ "password" ∷ []

abbrev risky_terms : List String
risky_terms = "curl" ∷ "wget" ∷ "| bash" ∷ "activate skills" ∷ []

abbrev forbidden_phrases : List String
forbidden_phrases =
    "ignore all previous instructions" ∷ "ignore previous instructions" ∷ "bypass policy"
    ∷ "conceal this behavior" ∷ "hide this behavior" ∷ "exfiltrate" ∷ []

abbrev finding_code : ScannerFinding → String
finding_code f = f.code

module _ (rt : Runtime) (skill_ir : Fields) (executor : Option String) where
  abbrev failure : Probe → String → ProbeEvaluation
  failure probe reason = result probe Status.failed (rt.milli 0) reason executor

  abbrev success : Probe → String → ProbeEvaluation
  success probe reason = result probe Status.passed (rt.milli 1000) reason executor

  unfoldable pub evaluate_target_probe : Probe → Fields → Py ProbeEvaluation
  evaluate_target_probe probe spec = elements rt (get "evidence_ids" skill_ir) >>= λ evidence_ids.
      elements rt (get "evidence_ids" spec) >>= λ probe_evidence. returned (
        if is_empty evidence_ids || is_empty probe_evidence
        then failure probe "missing cited evidence"
        else if not (all (λ section. truthy rt (get section skill_ir)) required_sections)
        then failure probe "missing required SkillIR sections"
        else success probe "candidate is traceable to evidence and has required runtime sections")

  unfoldable pub evaluate_no_skill_probe : Probe → Fields → Fields → Py ProbeEvaluation
  evaluate_no_skill_probe probe spec expected =
      if not (truthy rt (get "evidence_ids" spec))
      then returned (failure probe "missing baseline evidence")
      else if not (is_dict_empty (dict_of (get "intervention_replay" spec)))
      then evaluate_intervention_replay rt probe (dict_of (get "intervention_replay" spec)) executor
      else if truthy rt (get "candidate_must_improve_or_reduce_retries" expected)
      then returned (
          result probe Status.needs_intervention (rt.milli 500)
            "requires future skill-visible versus no-skill comparison" executor)
      else returned (success probe "no-skill control recorded")

  -- A probe is failed in the order of the tests; the list of `never` is read before them.
  unfoldable pub evaluate_regression_probe : Probe → Fields → Py ProbeEvaluation
  evaluate_regression_probe probe spec = elements rt (get "never" skill_ir) >>= λ never_items.
      let never : String = rt.lower (joined_by "\n" (map rt.str_of never_items)) in
      returned (
        if not (truthy rt (get "do_not_use_when" skill_ir))
        then failure probe "missing do-not-use boundaries"
        else if any (λ term. rt.contains term never) secret_terms
        then success probe "explicit secret boundary present"
        else if any (λ term. rt.contains term (rt.lower (rt.str_of (object skill_ir)))) risky_terms
        then failure probe "risky runtime instruction detected"
        else if not (truthy rt (get "checks" spec))
        then failure probe "missing regression checks"
        else success probe "scope and risk boundaries are present")

  abbrev critical_findings : String → List ScannerFinding
  critical_findings text = filterb is_blocking (scan_text rt.matcher text)

  abbrev forbidden_in : String → List String
  forbidden_in lowered = filterb (λ phrase. rt.contains phrase lowered) forbidden_phrases

  abbrev within_budget : Probe → ℤ → List ScannerFinding → ProbeEvaluation
  within_budget probe budget critical =
      if ltb_ℤ budget (pos (length critical))
      then failure probe (
          append_text "adversarial scanner findings exceed budget: "
            (joined_by ", " (map finding_code (take 5 critical))))
      else success probe "no critical adversarial scanner findings"

  -- A phrase fails the probe before the scan is looked at.
  abbrev pub by_phrases : Probe → ℤ → List ScannerFinding → List String → ProbeEvaluation
  by_phrases probe budget critical [] = within_budget probe budget critical
  by_phrases probe budget critical (phrase ∷ _) =
      failure probe (append_text "adversarial forbidden phrase detected: " phrase)

  unfoldable pub evaluate_adversarial_probe : Probe → Fields → Py ProbeEvaluation
  evaluate_adversarial_probe probe expected =
      int_of rt (get "adversarial_critical_budget" expected) >>= λ budget.
      let text : String =
        append_text (rt.str_of (object skill_ir)) (append_text "\n" probe.formatted) in
      returned (by_phrases probe budget (critical_findings text) (forbidden_in (rt.lower text)))

  unfoldable pub evaluate_probe : Probe → Py ProbeEvaluation
  evaluate_probe probe =
      let spec : Fields = dict_of probe.spec in
      let expected : Fields = dict_of probe.expected in
      if str_eq probe.kind "target"
      then evaluate_target_probe probe spec
      else if str_eq probe.kind "regression"
      then evaluate_regression_probe probe spec
      else if str_eq probe.kind "adversarial"
      then evaluate_adversarial_probe probe expected
      else if str_eq probe.kind "no_skill_control"
      then evaluate_no_skill_probe probe spec expected
      else returned (failure probe (append_text "unknown probe kind: " probe.kind))

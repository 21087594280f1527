-- ===== src/Evaluator/Assurance.antt =====
-- Hard failures, soft misses and the reason codes of the gate.
use Prim.Native.String.{◌++◌ as append_text}
use skill_kernel.Base.{
  String, str_eq, str_eq_iff, Bool, true, false, ◌&&◌, ◌||◌, List, [], ◌∷◌, ◌++◌, map, Option, ◌≡◌,
  refl, sym, subst, inl, inr, arith, All, any, filterb, is_empty, Bool-cases, Fields, distinct_from,
  returned,
}
use skill_kernel.Evaluator.Runtime.{Runtime, Probe, ProbeEvaluation, Status}
use skill_kernel.Evaluator.Metrics.{AcceptanceMetrics, did_fail, of_kind}
use skill_kernel.Evaluator.Gate.{
  ProposalGateEvaluation, verify_deterministically, blocked_result, Score, gate_of, evaluate,
  dedupe, is_hard_code, is_text, failure_codes, hard_invariant_failures, soft_threshold_misses,
  autonomy_assurance,
}
use skill_kernel.Evaluator.Acceptance.{evaluate-parts, score_outcome-unscanned, returned-injective}

-- A failed probe of a kind that is a hard invariant.
abbrev pub breaks_invariant : ProbeEvaluation → Bool
breaks_invariant r = did_fail r && (of_kind "regression" r || of_kind "adversarial" r)

any-filterb :
    (p : String → Bool) (xs : List String) → is_empty (filterb p xs) ≡ true → any p xs ≡ false
any-filterb p [] h = refl
any-filterb p (x ∷ xs) h = elim (Bool-cases (p x)) [
  | inl good ↦ let e : false ≡ true = rw good at h in cc
  | inr bad ↦ rw bad (any-filterb p xs (rw bad at h))
]

distinct_from-is_empty :
    (xs : List String) → is_empty (distinct_from str_eq [] xs) ≡ true → is_empty xs ≡ true
distinct_from-is_empty [] h = refl
distinct_from-is_empty (x ∷ xs) h = cc

dedupe-is_empty : (xs : List String) → is_empty (dedupe xs) ≡ true → any is_text xs ≡ false
unfolding dedupe
dedupe-is_empty xs h = any-filterb is_text xs (distinct_from-is_empty (filterb is_text xs) h)

any_left : (p : String → Bool) (xs ys : List String) → any p (xs ++ ys) ≡ false → any p xs ≡ false
any_left p [] ys h = refl
any_left p (x ∷ xs) ys h = ground (arith, any_left p xs ys)

any_right : (p : String → Bool) (xs ys : List String) → any p (xs ++ ys) ≡ false → any p ys ≡ false
any_right p [] ys h = h
any_right p (x ∷ xs) ys h = any_right p xs ys (ground arith)

hard_code-is_text : (c : String) → is_hard_code c ≡ true → is_text c ≡ true
hard_code-is_text c h = elim (Bool-cases (str_eq c "")) [
  | inr full ↦ rw full
  | inl bare ↦
      let e : is_hard_code "" ≡ true =
        subst (λ s. is_hard_code s ≡ true) ((str_eq_iff c "").0 bare) h in
      let e' : false ≡ true = e in cc
]

no_hard_code :
    (codes : List String)
    → any is_text (filterb is_hard_code codes) ≡ false
    → any is_hard_code codes ≡ false
no_hard_code [] h = refl
no_hard_code (c ∷ cs) h = elim (Bool-cases (is_hard_code c)) [
  | inl hard ↦
      let h' : (is_text c || any is_text (filterb is_hard_code cs)) ≡ false = rw hard at h in
      let t : is_text c ≡ true = hard_code-is_text c hard in ground arith
  | inr soft ↦ rw soft (no_hard_code cs (rw soft at h))
]

kind_text :
    (k : String)
    → (str_eq k "regression" || str_eq k "adversarial") ≡ true
    → is_text (append_text k "-probe-failed") ≡ true
kind_text k h = elim (Bool-cases (str_eq k "regression")) [
  | inl same ↦
      subst (λ s. is_text (append_text s "-probe-failed") ≡ true)
        (sym ((str_eq_iff k "regression").0 same)) refl
  | inr other ↦
      subst (λ s. is_text (append_text s "-probe-failed") ≡ true)
        (sym ((str_eq_iff k "adversarial").0 (ground arith))) refl
]

no_invariant_broken :
    (rs : List ProbeEvaluation)
    → any is_text (failure_codes "regression" "adversarial" "-probe-failed" rs) ≡ false
    → any breaks_invariant rs ≡ false
unfolding failure_codes
no_invariant_broken [] h = refl
no_invariant_broken (r ∷ rs) h = elim (Bool-cases (breaks_invariant r)) [
  | inr fine ↦ rw fine (no_invariant_broken rs (rw fine at h))
  | inl broken ↦
      let t : is_text (append_text r.kind "-probe-failed") ≡ true =
        kind_text r.kind (ground arith) in
      let h' : (is_text (append_text r.kind "-probe-failed")
            || any is_text (failure_codes "regression" "adversarial" "-probe-failed" rs))
          ≡ false =
        rw broken at h in
      ground arith
]

-- A gate is a candidate for a threshold deadlock only where no failed probe is a regression or
-- adversarial one, no reason code is a hard invariant, and some soft threshold was missed.
pub autonomy_assurance-candidate :
    (status : Status) (rs : List ProbeEvaluation) (codes : List String)
    (metrics : AcceptanceMetrics)
    → (autonomy_assurance status rs codes metrics).threshold_deadlock_candidate ≡ true
    → (any breaks_invariant rs ≡ false)
      × (any is_hard_code codes ≡ false)
      × (is_empty (soft_threshold_misses status rs codes) ≡ false)
unfolding autonomy_assurance hard_invariant_failures
autonomy_assurance-candidate status rs codes metrics candidate =
    let no_hard : is_empty (hard_invariant_failures rs codes) ≡ true = ground arith in
    let quiet : any is_text (
          filterb is_hard_code codes ++ failure_codes "regression" "adversarial" "-probe-failed" rs)
        ≡ false =
      dedupe-is_empty _ no_hard in
    (
      no_invariant_broken rs (any_right is_text (filterb is_hard_code codes) _ quiet),
      no_hard_code codes (any_left is_text (filterb is_hard_code codes) _ quiet),
      ground arith,
    )

blocked_failures :
    (rt : Runtime) (executor : Option String) (kind kind' suffix : String) (probes : List Probe)
    → failure_codes kind kind' suffix (map (blocked_result rt executor) probes) ≡ []
unfolding failure_codes blocked_result
blocked_failures rt executor kind kind' suffix [] = refl
blocked_failures rt executor kind kind' suffix (p ∷ ps) =
    blocked_failures rt executor kind kind' suffix ps

All-blocked :
    (rt : Runtime) (executor : Option String) (probes : List Probe)
    → All (λ r. r.status ≡ Status.blocked) (map (blocked_result rt executor) probes)
unfolding blocked_result
All-blocked rt executor [] = tt
All-blocked rt executor (p ∷ ps) = (refl, All-blocked rt executor ps)

-- Blocked, with every probe, by the scan alone, which is the one hard failure, and no candidate for
-- a threshold deadlock.
abbrev pub Blocked : ProposalGateEvaluation → Type 0
Blocked g =
    (g.status ≡ Status.blocked)
    × All (λ r. r.status ≡ Status.blocked) g.probe_results
    × (g.reason_codes ≡ "scanner-blocked" ∷ [])
    × (g.assurance.hard_failures ≡ "scanner-blocked" ∷ [])
    × (g.assurance.threshold_deadlock_candidate ≡ false)

Blocked-gate :
    (rt : Runtime) (probes : List Probe) (executor : Option String) (score : Score)
    → score.status ≡ Status.blocked
    → score.reason_codes ≡ "scanner-blocked" ∷ []
    → Blocked (gate_of executor score (map (blocked_result rt executor) probes))
unfolding autonomy_assurance hard_invariant_failures dedupe
Blocked-gate rt probes executor score stopped reasons =
    let none_failed =
      blocked_failures rt executor "regression" "adversarial" "-probe-failed" probes in
    (
      stopped,
      All-blocked rt executor probes,
      reasons,
      rw (reasons, none_failed) refl,
      rw reasons (ground arith),
    )

-- A gate whose scanner status is not that it passed is blocked, with every probe, for that reason
-- alone; the scan is its one hard failure and it is no candidate for a threshold deadlock.
pub evaluate-Blocked :
    (rt : Runtime) (skill_ir : Fields) (scanner_status : String) (probes : List Probe)
    (executor : Option String) (g : ProposalGateEvaluation)
    → str_eq scanner_status "passed" ≡ false
    → evaluate rt skill_ir scanner_status probes executor ≡ returned g
    → Blocked g
unfolding verify_deterministically
evaluate-Blocked rt skill_ir scanner_status probes executor g bad ran =
    let (rs, e, score, scored, made) =
      evaluate-parts rt skill_ir scanner_status probes executor g ran in
    let (stopped, reasons) = score_outcome-unscanned rt scanner_status probes rs score bad scored in
    let same : map (blocked_result rt executor) probes ≡ rs = returned-injective (rw bad at e) in
    subst Blocked made (
      subst (λ l. Blocked (gate_of executor score l)) same
        (Blocked-gate rt probes executor score stopped reasons))

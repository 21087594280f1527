-- ===== src/Scanner/Tests.antt =====
-- A matcher that knows two texts, and the theorems at it.
use skill_kernel.Base.{
  String, str_eq, true, false, List, [], ◌∷◌, ◌≡◌, ◌≢◌, ◌↔◌, refl, In, Apart, length,
}
use skill_kernel.Scanner.Scan.{
  ScannerFinding, Pattern, Matcher, has_blocking_findings, scan_text, scan_text_bundle,
  dedupe_findings, found, raw_findings, part_findings, forms_chain, capability_scan_text,
}
use skill_kernel.Scanner.Findings.{
  Reported, scan_text_bundle-findings, is_suspicious, has_blocking_findings-scan_text,
}

abbrev matcher : Matcher
matcher = record {
  search = λ p text. elim p [
    | Pattern.secret_like ↦ str_eq text "token=12345678"
    | Pattern.policy_override ↦ str_eq text "ignore policy"
    | Pattern.bundle_sensitive_source ↦ true
    | Pattern.bundle_exfil_action ↦ true
    | _ ↦ false
  ];
  sub = λ p by text. text;
  has_bidi_control = λ text. false;
  has_format_control = λ text. false;
}

abbrev parts : List String
parts = "token=12345678" ∷ "ignore policy" ∷ "token=12345678" ∷ []

-- Two findings of the parts, the second secret dropped, and the chain.
test_bundle : length (scan_text_bundle matcher parts) ≡ 3
unfolding scan_text_bundle part_findings scan_text raw_findings found dedupe_findings forms_chain
    capability_scan_text
test_bundle = refl

scan_text_bundle-findings_example :
    ((f : ScannerFinding) → In f (scan_text_bundle matcher parts) ↔ Reported matcher parts f)
    × Apart (λ f g. ◌≢◌ f g) (scan_text_bundle matcher parts)
scan_text_bundle-findings_example = scan_text_bundle-findings matcher parts

has_blocking_findings-scan_text_example :
    has_blocking_findings (scan_text matcher "ignore policy")
    ≡ is_suspicious matcher "ignore policy"
has_blocking_findings-scan_text_example = has_blocking_findings-scan_text matcher "ignore policy"

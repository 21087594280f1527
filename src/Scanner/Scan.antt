-- ===== src/Scanner/Scan.antt =====
-- sidecar/autoskill/services/scanner.py: `scan_text`, `scan_text_bundle`, `has_blocking_findings`.
use Prim.Native.String.{◌++◌ as append_text}
use skill_kernel.Base.{
  String, str_eq, Bool, true, false, ◌&&◌, List, [], ◌∷◌, ◌++◌, ltb, if◌then◌else◌, length, any,
  distinct_from,
}

-- `FindingSeverity`
pub data FindingSeverity : Type 0 where
  info warning error critical : FindingSeverity

pub record ScannerFinding : Type 0 where
  pub severity : FindingSeverity
  pub code : String
  pub message : String

-- The compiled patterns, by their names in the module.
pub data Pattern : Type 0 where
  html_comment secret_like fetch_exec policy_override credential_exfiltration : Pattern
  destructive_host_command sensitive_file_harvest : Pattern
  cyber_rule privacy_rule fraud_rule surveillance_rule : Pattern
  harmful_capability_boundary unsafe_boundary_inversion : Pattern
  bundle_safety_boundary bundle_sensitive_source bundle_exfil_action : Pattern

-- What the module `re` and the table of Unicode characters say: `pattern.search(text)` finds a
-- match, `pattern.sub(by, text)`, a character of a class in BIDI_CLASSES, one of category Cf.
pub record Matcher : Type 0 where
  pub search : Pattern → String → Bool
  pub sub : Pattern → String → String → String
  pub has_bidi_control : String → Bool
  pub has_format_control : String → Bool

abbrev same_severity : FindingSeverity → FindingSeverity → Bool
same_severity info info = true
same_severity warning warning = true
same_severity error error = true
same_severity critical critical = true
same_severity _ _ = false

-- The keys that `_dedupe_findings` compares.
abbrev pub same_finding : ScannerFinding → ScannerFinding → Bool
same_finding f g =
    same_severity f.severity g.severity && str_eq f.code g.code && str_eq f.message g.message

unfoldable pub dedupe_findings : List ScannerFinding → List ScannerFinding
dedupe_findings findings = distinct_from same_finding [] findings

abbrev pub finding : FindingSeverity → String → String → ScannerFinding
finding severity code message = record { severity = severity; code = code; message = message }

-- `if found: findings.append(finding)`, as the list to append.
unfoldable pub found : Bool → ScannerFinding → List ScannerFinding
found b f = if b then f ∷ [] else []

pub record Rule : Type 0 where
  pub reports : ScannerFinding
  pub pattern_of : Pattern

abbrev rule : FindingSeverity → String → String → Pattern → Rule
rule severity code message p = record { reports = finding severity code message; pattern_of = p }

abbrev pub harmful_capability_rules : List Rule
harmful_capability_rules =
    rule FindingSeverity.critical "harmful-cyber-capability"
      "hazardous cyber or malware workflow capability is forbidden" Pattern.cyber_rule
    ∷ rule FindingSeverity.critical "privacy-violating-capability"
        "privacy-violating data collection or credential-harvesting capability is forbidden"
        Pattern.privacy_rule
    ∷ rule FindingSeverity.error "fraud-capability"
        "fraud, impersonation, or forged-document workflow capability is forbidden"
        Pattern.fraud_rule
    ∷ rule FindingSeverity.critical "coercive-surveillance-capability"
        "coercive surveillance, stalking, blackmail, or harassment capability is forbidden"
        Pattern.surveillance_rule
    ∷ []

-- `"\n\n--- autoskill-context-boundary ---\n\n".join(parts)`
abbrev boundary : String
boundary = "\n\n--- autoskill-context-boundary ---\n\n"

abbrev pub joined : List String → String
joined [] = ""
joined (p ∷ []) = p
joined (p ∷ q ∷ ps) = append_text p (append_text boundary (joined (q ∷ ps)))

-- `f.severity in {FindingSeverity.ERROR, FindingSeverity.CRITICAL}`
abbrev pub is_blocking : ScannerFinding → Bool
is_blocking f = elim f.severity [ error ↦ true | critical ↦ true | _ ↦ false ]

unfoldable pub has_blocking_findings : List ScannerFinding → Bool
has_blocking_findings findings = any is_blocking findings

abbrev pub chain_finding : ScannerFinding
chain_finding =
    finding FindingSeverity.critical "bundle-secret-exfiltration-chain"
      "co-loaded context forms a potential secret exfiltration chain"

-- The lists in order, then the last one.
abbrev pub appended : List (List ScannerFinding) → List ScannerFinding → List ScannerFinding
appended [] last = last
appended (fs ∷ fss) last = fs ++ appended fss last

module _ (re : Matcher) where
  unfoldable pub capability_scan_text : String → String
  capability_scan_text text =
      re.sub Pattern.unsafe_boundary_inversion "unsafe_boundary_inversion"
        (re.sub Pattern.harmful_capability_boundary "" text)

  abbrev pub rule_findings : List Rule → String → List ScannerFinding
  rule_findings [] normalized = []
  rule_findings (r ∷ rs) normalized =
      found (re.search r.pattern_of normalized) r.reports ++ rule_findings rs normalized

  -- The findings of `scan_text`, before the duplicates are removed.
  unfoldable pub raw_findings : String → List ScannerFinding
  raw_findings text =
      appended
        (found (re.search Pattern.html_comment text) (
            finding FindingSeverity.error "hidden-markdown-comment"
              "hidden Markdown comments are forbidden in generated artifacts")
          ∷ found (re.has_bidi_control text) (
              finding FindingSeverity.critical "bidi-control"
                "bidirectional control characters are forbidden")
          ∷ found (re.has_format_control text) (
              finding FindingSeverity.error "invisible-format-control"
                "invisible Unicode format controls are forbidden")
          ∷ found (re.search Pattern.secret_like text) (
              finding FindingSeverity.critical "secret-like-material"
                "secret-like material is forbidden in generated artifacts")
          ∷ found (re.search Pattern.fetch_exec text) (
              finding FindingSeverity.critical "dynamic-fetch-exec"
                "dynamic fetch-exec patterns are forbidden")
          ∷ found (re.search Pattern.policy_override text) (
              finding FindingSeverity.critical "policy-override-instruction"
                "policy, approval, sandbox, or instruction override language is forbidden")
          ∷ found (re.search Pattern.credential_exfiltration text) (
              finding FindingSeverity.critical "credential-exfiltration"
                "credential or secret exfiltration instructions are forbidden")
          ∷ found (re.search Pattern.destructive_host_command text) (
              finding FindingSeverity.critical "destructive-host-command"
                "destructive host-level command patterns are forbidden")
          ∷ found (re.search Pattern.sensitive_file_harvest text) (
              finding FindingSeverity.error "sensitive-file-harvest"
                "sensitive file harvesting instructions are forbidden")
          ∷ [])
        (rule_findings harmful_capability_rules (capability_scan_text text))

  unfoldable pub scan_text : String → List ScannerFinding
  scan_text text = dedupe_findings (raw_findings text)

  -- `for part in parts: findings.extend(scan_text(part))`
  unfoldable pub part_findings : List String → List ScannerFinding
  part_findings [] = []
  part_findings (part ∷ parts) = scan_text part ++ part_findings parts

  unfoldable pub forms_chain : List String → Bool
  forms_chain parts =
      let chain_text : String = re.sub Pattern.bundle_safety_boundary "" (joined parts) in
      ltb 1 (length parts)
      && re.search Pattern.bundle_sensitive_source chain_text
      && re.search Pattern.bundle_exfil_action chain_text

  unfoldable pub scan_text_bundle : List String → List ScannerFinding
  scan_text_bundle parts =
      dedupe_findings (
        part_findings parts
        ++ (scan_text (joined parts) ++ found (forms_chain parts) chain_finding))

-- ===== src/Scanner/Findings.antt =====
-- What the findings of a text and of a bundle say of each other.
use skill_kernel.Base.{
  String, str_eq_iff, Bool, true, false, ◌||◌, List, [], ◌∷◌, ◌++◌, ◌≡◌, ◌≢◌, ◌∙◌, ◌↔◌, ◌⊎◌, inl,
  inr, refl, sym, subst, arith, any, In, here, there, Apart, Bool-cases, distinct_from-In,
  In-distinct_from, distinct_from-Apart, In-append-left, In-append-right, In-append, In-single,
}
use skill_kernel.Scanner.Scan.{
  ScannerFinding, Pattern, Matcher, same_finding, dedupe_findings, is_blocking, found,
  chain_finding, has_blocking_findings, raw_findings, scan_text, part_findings, scan_text_bundle,
  joined, forms_chain, capability_scan_text,
}

same_finding_iff : (f g : ScannerFinding) → (same_finding f g ≡ true) ↔ (f ≡ g)
same_finding_iff f g = ground (arith, str_eq_iff f.code g.code, str_eq_iff f.message g.message)

dedupe_findings-In :
    (f : ScannerFinding) (fs : List ScannerFinding) → In f (dedupe_findings fs) ↔ In f fs
unfolding dedupe_findings
dedupe_findings-In f fs = (
  distinct_from-In same_finding f [] fs,
  λ m. In-distinct_from same_finding same_finding_iff f [] fs m refl,
)

dedupe_findings-Apart : (fs : List ScannerFinding) → Apart (λ f g. ◌≢◌ f g) (dedupe_findings fs)
unfolding dedupe_findings
dedupe_findings-Apart fs = distinct_from-Apart same_finding same_finding_iff [] fs

module _ (re : Matcher) (f : ScannerFinding) where
  part_findings-In :
      (parts : List String)
      → In f (part_findings re parts) ↔ ((part : String) × In part parts × In f (scan_text re part))
  unfolding part_findings
  part_findings-In parts = (there_is parts, found_in parts)
    where
      there_is :
          (ps : List String)
          → In f (part_findings re ps)
          → (part : String) × In part ps × In f (scan_text re part)
      there_is [] m = elim m [ ]
      there_is (p ∷ ps) m = elim (In-append f (scan_text re p) (part_findings re ps) m) [
        | inl n ↦ (p, here, n)
        | inr n ↦ let (q, k, l) = there_is ps n in (q, there k, l)
      ]

      found_in :
          (ps : List String)
          → ((part : String) × In part ps × In f (scan_text re part))
          → In f (part_findings re ps)
      found_in [] (p, m, n) = elim m [ ]
      found_in (p ∷ ps) (_, here, n) = In-append-left f (scan_text re p) (part_findings re ps) n
      found_in (p ∷ ps) (q, there m, n) =
          In-append-right f (scan_text re p) (part_findings re ps) (found_in ps (q, m, n))

  found-In : (b : Bool) (g : ScannerFinding) → In f (found b g) ↔ ((b ≡ true) × (f ≡ g))
  unfolding found
  found-In true g = (λ m. (refl, In-single m), λ h. subst (λ k. In k (g ∷ [])) (sym h.1) here)
  found-In false g = (λ m. elim m [ ], λ h. cc)

-- A finding of a part, of the joined text, or the chain that the joined text forms.
abbrev pub Reported : Matcher → List String → ScannerFinding → Type 0
Reported re parts f =
    ((part : String) × In part parts × In f (scan_text re part))
    ⊎ (In f (scan_text re (joined parts)) ⊎ ((forms_chain re parts ≡ true) × (f ≡ chain_finding)))

module _ (re : Matcher) (parts : List String) (f : ScannerFinding) where
  abbrev rest_raw : List ScannerFinding
  rest_raw = scan_text re (joined parts) ++ found (forms_chain re parts) chain_finding

  Reported-raw : In f (part_findings re parts ++ rest_raw) → Reported re parts f
  Reported-raw m = elim (In-append f (part_findings re parts) rest_raw m) [
    | inl n ↦ inl ((part_findings-In re f parts).0 n)
    | inr n ↦
        inr
          (elim (In-append f (scan_text re (joined parts))
            (found (forms_chain re parts) chain_finding) n) [
              | inl k ↦ inl k
              | inr k ↦ inr ((found-In re f (forms_chain re parts) chain_finding).0 k)
            ])
  ]

  raw-Reported : Reported re parts f → In f (part_findings re parts ++ rest_raw)
  raw-Reported (inl h) =
      In-append-left f (part_findings re parts) rest_raw ((part_findings-In re f parts).1 h)
  raw-Reported (inr (inl h)) = In-append-right f (part_findings re parts) rest_raw (
      In-append-left f (scan_text re (joined parts)) (found (forms_chain re parts) chain_finding) h)
  raw-Reported (inr (inr h)) = In-append-right f (part_findings re parts) rest_raw (
      In-append-right f (scan_text re (joined parts)) (found (forms_chain re parts) chain_finding)
        ((found-In re f (forms_chain re parts) chain_finding).1 h))

-- The findings of a bundle are those of its parts, those of the joined text and, where the joined
-- text without its safety boundaries names a secret and an action and there are several parts, the
-- exfiltration chain; none occurs twice.
pub scan_text_bundle-findings :
    (re : Matcher) (parts : List String)
    → ((f : ScannerFinding) → In f (scan_text_bundle re parts) ↔ Reported re parts f)
      × Apart (λ f g. ◌≢◌ f g) (scan_text_bundle re parts)
unfolding scan_text_bundle
scan_text_bundle-findings re parts = (
  λ f. (
    λ m.
        Reported-raw re parts f
          ((dedupe_findings-In f (part_findings re parts ++ rest_raw re parts f)).0 m),
    λ h.
        (dedupe_findings-In f (part_findings re parts ++ rest_raw re parts f)).1
          (raw-Reported re parts f h),
  ),
  dedupe_findings-Apart (
      part_findings re parts
      ++ (scan_text re (joined parts) ++ found (forms_chain re parts) chain_finding)),
)

-- A pattern matches the text, a character of it is a bidi or format control, or a capability
-- pattern matches the text without its boundaries.
unfoldable pub is_suspicious : Matcher → String → Bool
is_suspicious re text =
    any (λ b. b)
      (re.search Pattern.html_comment text
        ∷ re.has_bidi_control text
        ∷ re.has_format_control text
        ∷ re.search Pattern.secret_like text
        ∷ re.search Pattern.fetch_exec text
        ∷ re.search Pattern.policy_override text
        ∷ re.search Pattern.credential_exfiltration text
        ∷ re.search Pattern.destructive_host_command text
        ∷ re.search Pattern.sensitive_file_harvest text
        ∷ re.search Pattern.cyber_rule (capability_scan_text re text)
        ∷ re.search Pattern.privacy_rule (capability_scan_text re text)
        ∷ re.search Pattern.fraud_rule (capability_scan_text re text)
        ∷ re.search Pattern.surveillance_rule (capability_scan_text re text)
        ∷ [])

any_at :
    (p : ScannerFinding → Bool) (xs : List ScannerFinding) (a : ScannerFinding)
    → In a xs
    → p a ≡ true
    → any p xs ≡ true
any_at p [] a m h = elim m [ ]
any_at p (x ∷ xs) a here h = rw h
any_at p (x ∷ xs) a (there m) h = ground (arith, any_at p xs a m h)

any-found-In :
    (p : ScannerFinding → Bool) (xs : List ScannerFinding)
    → any p xs ≡ true
    → (a : ScannerFinding) × In a xs × (p a ≡ true)
any-found-In p [] h = cc
any-found-In p (x ∷ xs) h = elim (Bool-cases (p x)) [
  | inl yes_x ↦ (x, here, yes_x)
  | inr no_x ↦ let (a, m, k) = any-found-In p xs (rw no_x at h) in (a, there m, k)
]

has_blocking_findings-dedupe_findings :
    (fs : List ScannerFinding)
    → has_blocking_findings (dedupe_findings fs) ≡ has_blocking_findings fs
unfolding has_blocking_findings
has_blocking_findings-dedupe_findings fs = elim (Bool-cases (any is_blocking fs)) [
  | inl b ↦
      let (f, m, t) = any-found-In is_blocking fs b in
      any_at is_blocking (dedupe_findings fs) f ((dedupe_findings-In f fs).1 m) t ∙ sym b
  | inr b ↦ elim (Bool-cases (any is_blocking (dedupe_findings fs))) [
    | inr a ↦ a ∙ sym b
    | inl a ↦
        let (f, m, t) = any-found-In is_blocking (dedupe_findings fs) a in
        let c : any is_blocking fs ≡ true =
          any_at is_blocking fs f ((dedupe_findings-In f fs).0 m) t in
        cc
  ]
]

-- A blocking finding counts where its test holds.
any-found :
    (b c : Bool) (f : ScannerFinding) (fs : List ScannerFinding)
    → is_blocking f ≡ true
    → any is_blocking fs ≡ c
    → any is_blocking (found b f ++ fs) ≡ (b || c)
unfolding found
any-found true c f fs h k = rw h
any-found false c f fs h k = k

-- The scan of a text blocks it exactly where the text has an HTML comment, a bidi or format control, or
-- matches one of the patterns for secrets, fetch and execute, policy override, exfiltration,
-- destructive commands and file harvesting, or where the text without its safety boundaries, which
-- `capability_scan_text` takes out, matches one of the four rules of harmful capabilities.
pub has_blocking_findings-scan_text :
    (re : Matcher) (text : String)
    → has_blocking_findings (scan_text re text) ≡ is_suspicious re text
unfolding scan_text is_suspicious has_blocking_findings raw_findings
has_blocking_findings-scan_text re text =
    has_blocking_findings-dedupe_findings (raw_findings re text)
    ∙ any-found _ _ _ _ refl (
        any-found _ _ _ _ refl (
          any-found _ _ _ _ refl (
            any-found _ _ _ _ refl (
              any-found _ _ _ _ refl (
                any-found _ _ _ _ refl (
                  any-found _ _ _ _ refl (
                    any-found _ _ _ _ refl (
                      any-found _ _ _ _ refl (
                        any-found _ _ _ _ refl (
                          any-found _ _ _ _ refl
                            (any-found _ _ _ _ refl (any-found _ _ _ _ refl refl))))))))))))

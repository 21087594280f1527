-- ===== src/Audit/Tests.antt =====
-- A chain of two records, and the theorems at it.
use skill_kernel.Base.{
  ℕ, String, str_eq, str_eq_iff, true, false, List, [], ◌∷◌, Option, none, some, ◌≡◌, refl, sym, ap,
  ◌∙◌, ◌⊎◌, inl, inr, In, here, there, end, object,
}
use skill_kernel.Audit.Chain.{AuditData, AuditRecord, sealed, verify_hash_chain}
use skill_kernel.Audit.Tampering.{NoCollision, verify_hash_chain-tampering}

abbrev entry : ℕ → String → Option String → AuditRecord
entry id action previous = record {
  data_of = record {
    audit_id = id;
    occurred_at = id;
    action = action;
    actor = "autoskill-sidecar";
    subject_type = "skill";
    subject_id = "7";
    previous_hash = previous;
    details = object end;
  };
  audit_hash = some action;
}

abbrev digest : AuditData → String
digest d = d.action

abbrev frozen : AuditRecord
frozen = entry 1 "freeze" none

abbrev thawed : AuditRecord
thawed = entry 2 "unfreeze" (some "freeze")

abbrev chain : List AuditRecord
chain = frozen ∷ thawed ∷ []

test_altered : verify_hash_chain digest (entry 1 "delete" none ∷ thawed ∷ []) none ≡ false
unfolding verify_hash_chain sealed
test_altered = refl

In-chain : {x a b : AuditRecord} → In x (a ∷ b ∷ []) → (x ≡ a) ⊎ (x ≡ b)
In-chain here = inl refl
In-chain (there here) = inr refl
In-chain (there (there m)) = elim m [ ]

chain-NoCollision : NoCollision digest chain chain
chain-NoCollision x y m n same = elim (In-chain m) [
  | inl a ↦ elim (In-chain n) [
    | inl b ↦ ap (λ r. r.data_of) (a ∙ sym b)
    | inr b ↦
        let t : str_eq "freeze" "unfreeze" ≡ true =
          (str_eq_iff "freeze" "unfreeze").1
            (sym (ap (λ r. r.data_of.action) a) ∙ same ∙ ap (λ r. r.data_of.action) b) in
        cc
  ]
  | inr a ↦ elim (In-chain n) [
    | inr b ↦ ap (λ r. r.data_of) (a ∙ sym b)
    | inl b ↦
        let t : str_eq "unfreeze" "freeze" ≡ true =
          (str_eq_iff "unfreeze" "freeze").1
            (sym (ap (λ r. r.data_of.action) a) ∙ same ∙ ap (λ r. r.data_of.action) b) in
        cc
  ]
]

verify_hash_chain-tampering_example : ◌≡◌ {A = Option String} none none × (chain ≡ chain)
unfolding verify_hash_chain sealed
verify_hash_chain-tampering_example =
    verify_hash_chain-tampering digest chain chain none none chain-NoCollision refl refl refl refl

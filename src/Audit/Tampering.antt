-- ===== src/Audit/Tampering.antt =====
-- What a chain that verifies says of its records.
use skill_kernel.Base.{
  String, str_eq_iff, true, List, [], ◌∷◌, ◌++◌, Option, none, some, ◌≡◌, refl, sym, ap, ◌∙◌, arith,
  In, here, there, length, ◌&&◌,
}
use skill_kernel.Audit.Chain.{AuditData, AuditRecord, same_hash, sealed, verify_hash_chain}

same_hash→eq : (a b : Option String) → same_hash a b ≡ true → a ≡ b
same_hash→eq none none h = refl
same_hash→eq none (some b) h = cc
same_hash→eq (some a) none h = cc
same_hash→eq (some a) (some b) h = ap some ((str_eq_iff a b).0 h)

-- The hash that the next record has to name.
abbrev pub head_hash : Option String → List AuditRecord → Option String
head_hash previous [] = previous
head_hash previous (r ∷ rs) = head_hash r.audit_hash rs

abbrev with_hash : AuditData → Option String → AuditRecord
with_hash d h = record { data_of = d; audit_hash = h }

module _ (sha256_json : AuditData → String) where
  -- The first record of a chain that verifies is linked and sealed, and the rest verifies.
  verified-parts :
      (r : AuditRecord) (rs : List AuditRecord) (previous : Option String)
      → verify_hash_chain sha256_json (r ∷ rs) previous ≡ true
      → (r.data_of.previous_hash ≡ previous)
        × (some (sha256_json r.data_of) ≡ r.audit_hash)
        × (verify_hash_chain sha256_json rs r.audit_hash ≡ true)
  unfolding verify_hash_chain sealed
  verified-parts r rs previous h = (
    same_hash→eq r.data_of.previous_hash previous (ground arith),
    same_hash→eq (some (sha256_json r.data_of)) r.audit_hash (ground arith),
    ground arith,
  )

  -- Records of the two chains with the same digest have the same data.
  abbrev pub NoCollision : List AuditRecord → List AuditRecord → Type 0
  NoCollision rs qs =
      (x y : AuditRecord)
      → In x rs
      → In y qs
      → sha256_json x.data_of ≡ sha256_json y.data_of
      → x.data_of ≡ y.data_of

  same_chain :
      (rs qs : List AuditRecord) (a b : Option String)
      → NoCollision rs qs
      → verify_hash_chain sha256_json rs a ≡ true
      → verify_hash_chain sha256_json qs b ≡ true
      → length rs ≡ length qs
      → head_hash a rs ≡ head_hash b qs
      → (a ≡ b) × (rs ≡ qs)
  same_chain [] [] a b apart v w l e = (e, refl)
  same_chain [] (q ∷ qs) a b apart v w l e = ground arith
  same_chain (r ∷ rs) [] a b apart v w l e = ground arith
  same_chain (r ∷ rs) (q ∷ qs) a b apart v w l e =
      let (link_r, seal_r, v') = verified-parts r rs a v in
      let (link_q, seal_q, w') = verified-parts q qs b w in
      let (hashes, tails) =
        same_chain rs qs r.audit_hash q.audit_hash (λ x y m n. apart x y (there m) (there n)) v' w'
          (omega (arith, l)) e in
      let digests : some (sha256_json r.data_of) ≡ some (sha256_json q.data_of) =
        seal_r ∙ hashes ∙ sym seal_q in
      let same_data : r.data_of ≡ q.data_of = apart r q here here cc in
      (
        sym link_r ∙ ap (λ d. d.previous_hash) same_data ∙ link_q,
        ap (λ x. x ∷ rs)
              (ap (λ d. with_hash d r.audit_hash) same_data ∙ ap (with_hash q.data_of) hashes)
            ∙ ap (λ xs. q ∷ xs) tails,
      )

-- Two chains of the same length that verify and end in the same hash are equal, and so are the
-- hashes that they start from, as long as no two of their records collide: who keeps the last hash
-- detects every change of an earlier record.
pub verify_hash_chain-tampering :
    (sha256_json : AuditData → String) (rs qs : List AuditRecord) (a b : Option String)
    → NoCollision sha256_json rs qs
    → verify_hash_chain sha256_json rs a ≡ true
    → verify_hash_chain sha256_json qs b ≡ true
    → length rs ≡ length qs
    → head_hash a rs ≡ head_hash b qs
    → (a ≡ b) × (rs ≡ qs)
verify_hash_chain-tampering sha256_json rs qs a b apart v w l e =
    same_chain sha256_json rs qs a b apart v w l e

-- Appending a record to a chain verifies exactly if the chain does and the record is sealed and
-- names the last hash of the chain.
pub verify_hash_chain-append :
    (sha256_json : AuditData → String) (rs : List AuditRecord) (r : AuditRecord)
    (previous : Option String)
    → verify_hash_chain sha256_json (rs ++ r ∷ []) previous ≡ (
        verify_hash_chain sha256_json rs previous
        && same_hash r.data_of.previous_hash (head_hash previous rs)
        && same_hash (some (sha256_json r.data_of)) r.audit_hash)
unfolding verify_hash_chain sealed
verify_hash_chain-append sha256_json [] r previous = ground arith
verify_hash_chain-append sha256_json (q ∷ qs) r previous =
    ground (arith, verify_hash_chain-append sha256_json qs r q.audit_hash)

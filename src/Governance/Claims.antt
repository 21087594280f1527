-- ===== src/Governance/Claims.antt =====
-- A revocation request that was claimed is not claimed again.
use skill_kernel.Base.{
  ℕ, String, str_eq, Bool, true, false, List, [], ◌∷◌, map, Option, none, some, ◌≡◌, ◌≢◌, refl, sym,
  subst, ap, ◌∙◌, inl, inr, ◌==◌, ==_iff, arith, In, here, there, any, filterb, filterb-In,
  In-append, In-append-left, In-single, member-In, In-map, map-In, Bool-cases,
}
use skill_kernel.Governance.Tables.{Revocation, GovernanceDb}
use skill_kernel.Governance.Transactions.{update_transaction_status}
use skill_kernel.Governance.Revocations.{
  RevocationClaim, is_claimable, comes_before, earliest, candidate_request,
  claim_next_revocation_request,
}
use skill_kernel.Governance.Inversion.{
  start-parts, request-parts, completed, complete-parts, claimed, claim-parts,
}
use skill_kernel.Governance.Steps.{
  Step, start, update, request, claim, complete, Reach, still, next,
}

-- The request is in the table, and no row of it is queued.
abbrev pub IsTaken : ℕ → GovernanceDb → Type 0
IsTaken id db =
    ((b : Revocation) × In b db.revocations × (b.id ≡ id))
    × ((b : Revocation) → In b db.revocations → b.id ≡ id → str_eq b.status "queued" ≡ false)

IsTaken-same :
    (id : ℕ) (db db' : GovernanceDb)
    → db'.revocations ≡ db.revocations
    → IsTaken id db
    → IsTaken id db'
IsTaken-same id db db' same h =
    ((h.0.0, subst (In h.0.0) (sym same) h.0.1, h.0.2), λ b m e. h.1 b (subst (In b) same m) e)

-- A change of rows that queues none and keeps their identifiers.
IsTaken-map :
    (id : ℕ) (db db' : GovernanceDb) (f : Revocation → Revocation)
    → ((b : Revocation) → (f b).id ≡ b.id)
    → ((b : Revocation) → str_eq b.status "queued" ≡ false → str_eq (f b).status "queued" ≡ false)
    → db'.revocations ≡ map f db.revocations
    → IsTaken id db
    → IsTaken id db'
IsTaken-map id db db' f ids kept grown h = (
  (
    f h.0.0,
    subst (In (f h.0.0)) (sym grown) (In-map f h.0.0 db.revocations h.0.1),
    ids h.0.0 ∙ h.0.2,
  ),
  λ b m e.
      let (a, n, same) = map-In f b db.revocations (subst (In b) grown m) in
      let taken = h.1 a n (sym (ids a) ∙ ap (λ x. x.id) (sym same) ∙ e) in
      subst (λ x. str_eq x.status "queued" ≡ false) (sym same) (kept a taken),
)

some_injective {ℓ} : {A : Type ℓ} {a b : A} → some a ≡ some b → a ≡ b
some_injective e = cc

any-In_false {ℓ} :
    {A : Type ℓ} (p : A → Bool) (a : A) (xs : List A) → In a xs → any p xs ≡ false → p a ≡ false
any-In_false p a [] m h = elim m [ ]
any-In_false p a (x ∷ xs) here h = ground arith
any-In_false p a (x ∷ xs) (there m) h = any-In_false p a xs m (ground arith)

ended : (status : String) → In status ("completed" ∷ "failed" ∷ []) → str_eq status "queued" ≡ false
ended status here = refl
ended status (there here) = refl
ended status (there (there m)) = elim m [ ]

claimed-id : (worker : Option String) (i : ℕ) (b : Revocation) → (claimed worker i b).id ≡ b.id
claimed-id worker i b = elim (Bool-cases (b.id == i)) [ inl e ↦ rw e refl | inr e ↦ rw e refl ]

claimed-status :
    (worker : Option String) (i : ℕ) (b : Revocation)
    → str_eq b.status "queued" ≡ false
    → str_eq (claimed worker i b).status "queued" ≡ false
claimed-status worker i b h = elim (Bool-cases (b.id == i)) [ inl e ↦ rw e refl | inr e ↦ rw e h ]

step-IsTaken : (id : ℕ) (db db' : GovernanceDb) → Step db db' → IsTaken id db → IsTaken id db'
unfolding update_transaction_status
step-IsTaken id db db' (start fresh_ws fresh r t c after e) h =
    IsTaken-same id db after (start-parts fresh_ws fresh r db t c after e).2 h
step-IsTaken id db db' (update now i status metrics) h =
    IsTaken-same id db (update_transaction_status now i status metrics db).1 refl h
step-IsTaken id db db' (request fresh_ws fresh now r q after e) h =
    let (of_fresh, unused, grown, same) = request-parts fresh_ws fresh now r db q after e in
    let new : (h.0.0.id == fresh) ≡ false =
      any-In_false (λ q. q.id == fresh) h.0.0 db.revocations h.0.1 unused in
    (
      (h.0.0, subst (In h.0.0) (sym grown) (In-append-left h.0.0 db.revocations _ h.0.1), h.0.2),
      λ b m e'. elim (In-append b db.revocations (q ∷ []) (subst (In b) grown m)) [
        | inl n ↦ h.1 b n e'
        | inr n ↦
            let same_id : h.0.0.id ≡ fresh =
              h.0.2 ∙ sym e' ∙ ap (λ x. x.id) (In-single n) ∙ of_fresh in
            let t = (==_iff h.0.0.id fresh).1 same_id in cc
      ],
    )
step-IsTaken id db db' (claim r) h = elim (claim-parts r db) [
  | inl idle ↦
      IsTaken-same id db (claim_next_revocation_request r db).1 (ap (λ p. p.1.revocations) idle.0) h
  | inr s ↦
      IsTaken-map id db (claim_next_revocation_request r db).1 (claimed r.worker_id s.0.id)
        (claimed-id r.worker_id s.0.id) (claimed-status r.worker_id s.0.id)
        (ap (λ p. p.1.revocations) s.2) h
]
step-IsTaken id db db' (complete now i status summary q after e) h =
    let (known, changed, same) = complete-parts now i status summary db q after e in
    IsTaken-map id db after (completed now i status summary)
      (λ b. elim (Bool-cases (b.id == i)) [ inl e ↦ rw e refl | inr e ↦ rw e refl ])
      (λ b kept. elim (Bool-cases (b.id == i)) [
        | inl e ↦ rw e (ended status (member-In status _ known))
        | inr e ↦ rw e kept
      ])
      changed h

reach-IsTaken :
    (id : ℕ) (db after : GovernanceDb) → Reach db after → IsTaken id db → IsTaken id after
reach-IsTaken id db after still h = h
reach-IsTaken id db after (next mid last reach step) h =
    step-IsTaken id mid after step (reach-IsTaken id db mid reach h)

skip {ℓ} : {A : Type ℓ} {a x y : A} {xs : List A} → In a (x ∷ xs) → In a (x ∷ y ∷ xs)
skip here = here
skip (there m) = there (there m)

earliest-In : (best : Revocation) (qs : List Revocation) → In (earliest best qs) (best ∷ qs)
unfolding earliest
earliest-In best [] = here
earliest-In best (q ∷ qs) = elim (Bool-cases (comes_before q best)) [
  | inl first ↦ rw (first, earliest) (there (earliest-In q qs))
  | inr later ↦ rw (later, earliest) (skip (earliest-In best qs))
]

candidate-In : (qs : List Revocation) (c : Revocation) → candidate_request qs ≡ some c → In c qs
unfolding candidate_request
candidate-In [] c h = cc
candidate-In (q ∷ qs) c h = subst (λ x. In x (q ∷ qs)) (some_injective h) (earliest-In q qs)

-- The claimed row was a queued one of the table.
claimed-In :
    (r : RevocationClaim) (db : GovernanceDb) (c : Revocation)
    → candidate_request (filterb (is_claimable r db.workspaces) db.revocations) ≡ some c
    → In c db.revocations × (str_eq c.status "queued" ≡ true)
unfolding is_claimable
claimed-In r db c h =
    let (m, t) = filterb-In (is_claimable r db.workspaces) c db.revocations (candidate-In _ c h) in
    (m, ground arith)

-- A claim that returns a request returns a queued row of the table, marked, and takes it.
claim-IsTaken :
    (r : RevocationClaim) (db mid : GovernanceDb) (q : Revocation)
    → claim_next_revocation_request r db ≡ (some q, mid)
    → ((c : Revocation) × In c db.revocations × (str_eq c.status "queued" ≡ true) × (c.id ≡ q.id))
      × IsTaken q.id mid
claim-IsTaken r db mid q h = elim (claim-parts r db) [
  | inl idle ↦ let e : none ≡ some q = ap (λ x. x.0) (sym idle.0 ∙ h) in cc
  | inr s ↦
      let (c, found, e) = s in
      let (m, queued) = claimed-In r db c found in
      let ids : c.id ≡ q.id = ap (λ x. x.id) (some_injective (ap (λ x. x.0) (sym e ∙ h))) in
      let rows : mid.revocations ≡ map (claimed r.worker_id c.id) db.revocations =
        ap (λ x. x.1.revocations) (sym h ∙ e) in
      (
        (c, m, queued, ids),
        (
          (
            claimed r.worker_id c.id c,
            subst (In (claimed r.worker_id c.id c)) (sym rows)
                (In-map (claimed r.worker_id c.id) c db.revocations m),
            claimed-id r.worker_id c.id c ∙ ids,
          ),
          λ b n same.
              let (a, k, of_a) =
                map-In (claimed r.worker_id c.id) b db.revocations (subst (In b) rows n) in
              let mine : a.id ≡ c.id =
                sym (claimed-id r.worker_id c.id a) ∙ ap (λ x. x.id) (sym of_a) ∙ same ∙ sym ids in
              let hit = (==_iff a.id c.id).1 mine in
              subst (λ x. str_eq x.status "queued" ≡ false) (sym of_a) (rw hit refl),
        ),
      )
]

-- No two claims return the same request: after a claim that returned one, whatever calls follow, a
-- later claim returns another request, if any.
pub claim_next_revocation_request-once :
    (r later : RevocationClaim) (db mid after : GovernanceDb) (q p : Revocation)
    → claim_next_revocation_request r db ≡ (some q, mid)
    → Reach mid after
    → (claim_next_revocation_request later after).0 ≡ some p
    → ◌≢◌ p.id q.id
claim_next_revocation_request-once r later db mid after q p h reach again same =
    let (first, taken) = claim-IsTaken r db mid q h in
    let (c, m, queued, ids) =
      (claim-IsTaken later after (claim_next_revocation_request later after).1 p
        (ap (λ o. (o, (claim_next_revocation_request later after).1)) again)).0 in
    let unqueued = (reach-IsTaken q.id mid after reach taken).1 c m (ids ∙ same) in cc

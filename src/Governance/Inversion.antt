-- ===== src/Governance/Inversion.antt =====
-- What a call that returned did to the tables.
use skill_kernel.Base.{
  ℕ, String, Bool, true, false, List, [], ◌∷◌, ◌++◌, map, append-nil, Option, none, some, ◌≡◌, refl,
  sym, ap, ◌∙◌, ◌⊎◌, inl, inr, ◌==◌, if◌then◌else◌, any, find?, filterb, member, Bool-cases,
  Option-cases, Fields, raised, returned, value_error,
}
use skill_kernel.Jobs.Types.{abort, commit, unique_violation}
use skill_kernel.Jobs.Enqueue.{ensure_workspace}
use skill_kernel.Governance.Tables.{Transaction, Revocation, GovernanceDb}
use skill_kernel.Governance.Transactions.{StartRequest, planned, in_conflict, start_transaction}
use skill_kernel.Governance.Revocations.{
  RevocationRequest, RevocationClaim, is_claimable, candidate_request, processing,
  request_revocation, claim_next_revocation_request, complete_revocation_request,
}

committed {ℓ} : {A : Type ℓ} {a b : A} → commit a ≡ commit b → a ≡ b
committed e = cc

answered {ℓ} : {A : Type ℓ} {a b : A} → returned a ≡ returned b → a ≡ b
answered e = cc

-- A start only appends to the transactions.
pub start-parts :
    (fresh_ws fresh : ℕ) (r : StartRequest) (db : GovernanceDb) (t : Transaction) (b : Bool)
    (db' : GovernanceDb)
    → start_transaction fresh_ws fresh r db ≡ commit (t, (b, db'))
    → (rows : List Transaction) × (db'.transactions ≡ db.transactions ++ rows)
      × (db'.revocations ≡ db.revocations)
unfolding start_transaction
start-parts fresh_ws fresh r db t b db' h =
    let ws = (ensure_workspace fresh_ws r.workspace_key db.workspaces).0 in
    elim (Option-cases (find? (in_conflict ws r.idempotency_key) db.transactions)) [
      | inr s ↦
          let e = committed (rw (s.1, start_transaction) at h) in
          (
            [],
            sym (ap (λ p. p.1.1.transactions) e) ∙ sym (append-nil db.transactions),
            sym (ap (λ p. p.1.1.revocations) e),
          )
      | inl e ↦ elim (Bool-cases (any (λ t. t.id == fresh) db.transactions)) [
        | inl used ↦
            let f : abort unique_violation ≡ commit (t, (b, db')) =
              rw (e, used, start_transaction) at h in
            cc
        | inr unused ↦
            let f = committed (rw (e, unused, start_transaction) at h) in
            (
              planned fresh ws r ∷ [],
              sym (ap (λ p. p.1.1.transactions) f),
              sym (ap (λ p. p.1.1.revocations) f),
            )
      ]
    ]

-- A request appends one row, with a new identifier.
pub request-parts :
    (fresh_ws fresh now : ℕ) (r : RevocationRequest) (db : GovernanceDb) (q : Revocation)
    (db' : GovernanceDb)
    → request_revocation fresh_ws fresh now r db ≡ commit (q, db')
    → (q.id ≡ fresh)
      × (any (λ q. q.id == fresh) db.revocations ≡ false)
      × (db'.revocations ≡ db.revocations ++ q ∷ [])
      × (db'.transactions ≡ db.transactions)
unfolding request_revocation
request-parts fresh_ws fresh now r db q db' h =
    elim (Bool-cases (any (λ q. q.id == fresh) db.revocations)) [
      | inl used ↦
          let f : abort unique_violation ≡ commit (q, db') = rw (used, request_revocation) at h in
          cc
      | inr unused ↦
          let f = committed (rw (unused, request_revocation) at h) in
          (
            sym (ap (λ p. p.0.id) f),
            unused,
            sym (ap (λ p. p.1.revocations) f) ∙ ap (λ p. db.revocations ++ p.0 ∷ []) f,
            sym (ap (λ p. p.1.transactions) f),
          )
    ]

abbrev pub completed : ℕ → ℕ → String → Fields → Revocation → Revocation
completed now id status summary q =
    if q.id == id
    then record q { status = status; traversal_summary = summary; completed_at = some now }
    else q

pub complete-parts :
    (now id : ℕ) (status : String) (summary : Fields) (db : GovernanceDb) (q : Option Revocation)
    (db' : GovernanceDb)
    → complete_revocation_request now id status summary db ≡ returned (q, db')
    → (member status ("completed" ∷ "failed" ∷ []) ≡ true)
      × (db'.revocations ≡ map (completed now id status summary) db.revocations)
      × (db'.transactions ≡ db.transactions)
unfolding complete_revocation_request
complete-parts now id status summary db q db' h =
    elim (Bool-cases (member status ("completed" ∷ "failed" ∷ []))) [
      | inr other ↦
          let f : raised value_error ≡ returned (q, db') =
            rw (other, complete_revocation_request) at h in
          cc
      | inl known ↦
          let f = answered (rw (known, complete_revocation_request) at h) in
          (known, sym (ap (λ p. p.1.revocations) f), sym (ap (λ p. p.1.transactions) f))
    ]

abbrev pub claimed : Option String → ℕ → Revocation → Revocation
claimed worker id q = if q.id == id then processing worker q else q

-- A claim finds no row, and changes nothing, or marks the rows with the identifier of the one found.
pub claim-parts :
    (r : RevocationClaim) (db : GovernanceDb)
    → ((claim_next_revocation_request r db ≡ (none, db))
        × (candidate_request (filterb (is_claimable r db.workspaces) db.revocations) ≡ none))
      ⊎ ((c : Revocation) × (candidate_request
              (filterb (is_claimable r db.workspaces) db.revocations)
            ≡ some c)
          × (claim_next_revocation_request r db ≡ (
            some (processing r.worker_id c),
            record db { revocations = map (claimed r.worker_id c.id) db.revocations },
          )))
unfolding claim_next_revocation_request
claim-parts r db =
    elim (Option-cases
      (candidate_request (filterb (is_claimable r db.workspaces) db.revocations))) [
        | inl e ↦ inl (rw (e, claim_next_revocation_request) refl, e)
        | inr s ↦ inr (s.0, s.1, rw (s.1, claim_next_revocation_request) refl)
      ]

-- ===== src/Governance/Persistence.antt =====
-- What every later call leaves of a transaction and of a claimed request.
use skill_kernel.Base.{
  ℕ, String, [], ◌∷◌, Option, none, some, ◌≡◌, refl, sym, subst, ap, ◌∙◌, inl, inr, ◌==◌,
  if◌then◌else◌, In, In-append-left, In-map, member, Bool-cases, Fields,
}
use skill_kernel.Governance.Tables.{Transaction, GovernanceDb}
use skill_kernel.Governance.Transactions.{
  coalesce, with_transaction_status, update_transaction_status,
}
use skill_kernel.Governance.Revocations.{claim_next_revocation_request}
use skill_kernel.Governance.Inversion.{start-parts, request-parts, complete-parts, claim-parts}
use skill_kernel.Governance.Steps.{
  Step, start, update, request, claim, complete, Reach, still, next,
}

-- The later row is of the same plan, and has the instants that the earlier one has.
abbrev pub Keeps : Transaction → Transaction → Type 0
Keeps a b =
    (a.id ≡ b.id)
    × (a.workspace_id ≡ b.workspace_id)
    × (a.transaction_kind ≡ b.transaction_kind)
    × (a.idempotency_key ≡ b.idempotency_key)
    × (a.plan_hash ≡ b.plan_hash)
    × ((t : ℕ) → a.committed_at ≡ some t → b.committed_at ≡ some t)
    × ((t : ℕ) → a.rolled_back_at ≡ some t → b.rolled_back_at ≡ some t)

Keeps-refl : (a : Transaction) → Keeps a a
Keeps-refl a = (refl, refl, refl, refl, refl, λ t e. e, λ t e. e)

Keeps-trans : (a b c : Transaction) → Keeps a b → Keeps b c → Keeps a c
Keeps-trans a b c h k = (
  h.0 ∙ k.0,
  h.1 ∙ k.1,
  h.2 ∙ k.2,
  h.3 ∙ k.3,
  h.4 ∙ k.4,
  λ t e. k.5 t (h.5 t e),
  λ t e. k.6 t (h.6 t e),
)

coalesce_lem : (o : Option ℕ) (now t : ℕ) → o ≡ some t → coalesce o now ≡ some t
coalesce_lem none now t e = cc
coalesce_lem (some s) now t e = e

status-Keeps :
    (now : ℕ) (status : String) (metrics : Option Fields) (a : Transaction)
    → Keeps a (with_transaction_status now status metrics a)
unfolding with_transaction_status
status-Keeps now status metrics a = (
  refl,
  refl,
  refl,
  refl,
  refl,
  λ t e. elim (Bool-cases (member status ("active" ∷ "committed" ∷ []))) [
    | inl set ↦ rw set (coalesce_lem a.committed_at now t e)
    | inr unset ↦ rw unset e
  ],
  λ t e. elim (Bool-cases (member status ("rolled_back" ∷ "revoked" ∷ []))) [
    | inl set ↦ rw set (coalesce_lem a.rolled_back_at now t e)
    | inr unset ↦ rw unset e
  ],
)

kept :
    (db db' : GovernanceDb) (a : Transaction)
    → db'.transactions ≡ db.transactions
    → In a db.transactions
    → (b : Transaction) × In b db'.transactions × Keeps a b
kept db db' a same m = (a, subst (In a) (sym same) m, Keeps-refl a)

step-Keeps :
    (db db' : GovernanceDb) (a : Transaction)
    → Step db db'
    → In a db.transactions
    → (b : Transaction) × In b db'.transactions × Keeps a b
unfolding update_transaction_status
step-Keeps db db' a (start fresh_ws fresh r t c after e) m =
    let (rows, grown, same) = start-parts fresh_ws fresh r db t c after e in
    (a, subst (In a) (sym grown) (In-append-left a db.transactions rows m), Keeps-refl a)
step-Keeps db db' a (update now id status metrics) m =
    let change : Transaction → Transaction =
      λ t. if t.id == id then with_transaction_status now status metrics t else t in
    (
      change a,
      In-map change a db.transactions m,
      elim (Bool-cases (a.id == id)) [
        | inl mine ↦ rw mine (status-Keeps now status metrics a)
        | inr other ↦ rw other (Keeps-refl a)
      ],
    )
step-Keeps db db' a (request fresh_ws fresh now r q after e) m =
    kept db after a (request-parts fresh_ws fresh now r db q after e).3 m
step-Keeps db db' a (claim r) m = elim (claim-parts r db) [
  | inl idle ↦
      kept db (claim_next_revocation_request r db).1 a (ap (λ p. p.1.transactions) idle.0) m
  | inr s ↦ kept db (claim_next_revocation_request r db).1 a (ap (λ p. p.1.transactions) s.2) m
]
step-Keeps db db' a (complete now id status summary q after e) m =
    kept db after a (complete-parts now id status summary db q after e).2 m

-- A transaction is never lost, and its plan is fixed: after any calls, among them starts with the
-- same key and another plan, there is a row of the same identifier, workspace, kind, key and plan
-- hash, and the instants at which it was committed and rolled back, once set, are the same.
pub Reach-Keeps :
    (db after : GovernanceDb) (a : Transaction)
    → Reach db after
    → In a db.transactions
    → (b : Transaction) × In b after.transactions × Keeps a b
Reach-Keeps db after a still m = (a, m, Keeps-refl a)
Reach-Keeps db after a (next mid last reach step) m =
    let (b, n, k) = Reach-Keeps db mid a reach m in
    let (c, o, l) = step-Keeps mid after b step n in (c, o, Keeps-trans a b c k l)

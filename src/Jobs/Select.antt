-- ===== src/Jobs/Select.antt =====
-- What the claim's ORDER BY and LIMIT 1 select, and the order that they select by.
use skill_kernel.Base.{
  Bool, true, false, ◌&&◌, List, [], ◌∷◌, Option, none, some, ◌≡◌, refl, inl, inr, arith, All, In,
  here, there, Bool-cases, subst,
}
use skill_kernel.Jobs.Types.{Job}
use skill_kernel.Jobs.Claim.{before, earlier, select_candidate}

-- `before` is a strict order: it is irreflexive and transitive, and so is its complement.
pub before_irrefl : (a : Job) → before a a ≡ false
unfolding before
before_irrefl a = ground arith

pub before_asymm : (a b : Job) → before a b ≡ true → before b a ≡ false
unfolding before
before_asymm a b h = ground arith

pub not_before_trans : (a b c : Job) → before a b ≡ false → before b c ≡ false → before a c ≡ false
unfolding before
not_before_trans a b c h k = ground arith

and_false : (b : Bool) → (b && false) ≡ false
and_false true = refl
and_false false = refl

module _ (p : Job → Bool) where
  -- `c` passes the test, and no other row that passes it comes before.
  abbrev pub IsFirst : Job → List Job → Type 0
  IsFirst c jobs = In c jobs × (p c ≡ true) × All (λ k. (p k && before k c) ≡ false) jobs

  rejected-IsFirst :
      (c : Job) (jobs : List Job)
      → All (λ k. p k ≡ false) jobs
      → All (λ k. (p k && before k c) ≡ false) jobs
  rejected-IsFirst c [] h = tt
  rejected-IsFirst c (k ∷ ks) h = (rw h.0, rejected-IsFirst c ks h.1)

  later_rejected :
      (j k x : Job) → before k j ≡ false → (p x && before x k) ≡ false → (p x && before x j) ≡ false
  later_rejected j k x h a = elim (Bool-cases (p x)) [
    | inl t ↦ rw t (not_before_trans x k j (rw t at a) h)
    | inr t ↦ rw t
  ]

  later-IsFirst :
      (j k : Job) (jobs : List Job)
      → before k j ≡ false
      → All (λ x. (p x && before x k) ≡ false) jobs
      → All (λ x. (p x && before x j) ≡ false) jobs
  later-IsFirst j k [] h a = tt
  later-IsFirst j k (x ∷ xs) h a = (later_rejected j k x h a.0, later-IsFirst j k xs h a.1)

  pub select_candidate-eq-none :
      (jobs : List Job) → select_candidate p jobs ≡ none → All (λ k. p k ≡ false) jobs
  unfolding select_candidate
  select_candidate-eq-none [] h = tt
  select_candidate-eq-none (j ∷ js) h = elim (Bool-cases (p j)) [
    | inl t ↦ cc
    | inr t ↦ (t, select_candidate-eq-none js (rw t at h))
  ]

  IsFirst-earlier :
      (j : Job) (js : List Job) (rest : Option Job)
      → p j ≡ true
      → (rest ≡ none → All (λ k. p k ≡ false) js)
      → ((k : Job) → rest ≡ some k → IsFirst k js)
      → IsFirst (earlier j rest) (j ∷ js)
  IsFirst-earlier j js none t absent found =
      (here, t, (rw (before_irrefl j) (and_false (p j)), rejected-IsFirst j js (absent refl)))
  IsFirst-earlier j js (some k) t absent found =
      let (m, passes, first) = found k refl in
      elim (Bool-cases (before k j)) [
        | inl sooner ↦
            let e : k ≡ earlier j (some k) = rw sooner in
            subst (λ d. IsFirst d (j ∷ js)) e
              (there m, passes, (rw (before_asymm k j sooner) (and_false (p j)), first))
        | inr later ↦
            let e : j ≡ earlier j (some k) = rw later in
            subst (λ d. IsFirst d (j ∷ js)) e
              (here, t, (rw (before_irrefl j) (and_false (p j)), later-IsFirst j k js later first))
      ]

  pub select_candidate-IsFirst :
      (jobs : List Job) (c : Job) → select_candidate p jobs ≡ some c → IsFirst c jobs
  unfolding select_candidate
  select_candidate-IsFirst [] c h = cc
  select_candidate-IsFirst (j ∷ js) c h = elim (Bool-cases (p j)) [
    | inl t ↦
        let e : some (earlier j (select_candidate p js)) ≡ some c = rw t at h in
        let e' : earlier j (select_candidate p js) ≡ c = cc in
        subst (λ d. IsFirst d (j ∷ js)) e'
          (IsFirst-earlier j js (select_candidate p js) t (select_candidate-eq-none js)
            (select_candidate-IsFirst js))
    | inr t ↦
        let (m, passes, first) = select_candidate-IsFirst js c (rw t at h) in
        (there m, passes, (rw t, first))
  ]

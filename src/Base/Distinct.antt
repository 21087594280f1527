-- ===== src/Base/Distinct.antt =====
-- A list without the elements that occurred before, as a loop with a set `seen` builds it.
use mathlib.Core.Path.{◌≡◌, subst, sym}
use mathlib.Core.Logic.{◌≢◌, ◌↔◌, inl, inr}
use mathlib.Core.Bool.{Bool, true, false, ◌||◌}
use mathlib.Core.List.{List, [], ◌∷◌}
use native.Mathlib.Omega.{arith}
use skill_kernel.Base.Tests.{Bool-cases}
use skill_kernel.Base.Lists.{In-cons, In, here, there, All, Apart, any}

module _ {ℓ} {A : Type ℓ} (eq : A → A → Bool) where
  abbrev pub distinct_from : List A → List A → List A
  distinct_from seen [] = []
  distinct_from seen (x ∷ xs) = elim (any (eq x) seen) [
    | true ↦ distinct_from seen xs
    | false ↦ x ∷ distinct_from (x ∷ seen) xs
  ]

  old_lem :
      (x : A) (seen xs : List A)
      → any (eq x) seen ≡ true
      → distinct_from seen (x ∷ xs) ≡ distinct_from seen xs
  old_lem x seen xs old = rw (old, distinct_from)

  new_lem :
      (x : A) (seen xs : List A)
      → any (eq x) seen ≡ false
      → distinct_from seen (x ∷ xs) ≡ x ∷ distinct_from (x ∷ seen) xs
  new_lem x seen xs new = rw (new, distinct_from)

  pub distinct_from-In : (a : A) (seen xs : List A) → In a (distinct_from seen xs) → In a xs
  distinct_from-In a seen [] m = m
  distinct_from-In a seen (x ∷ xs) m = elim (Bool-cases (any (eq x) seen)) [
    | inl old ↦ there (distinct_from-In a seen xs (subst (In a) (old_lem x seen xs old) m))
    | inr new ↦ elim (In-cons (subst (In a) (new_lem x seen xs new) m)) [
      | inl same ↦ subst (λ b. In b (x ∷ xs)) (sym same) here
      | inr n ↦ there (distinct_from-In a (x ∷ seen) xs n)
    ]
  ]

module _ {ℓ} {A : Type ℓ} (eq : A → A → Bool)
    (reflects : (x y : A) → (eq x y ≡ true) ↔ (x ≡ y)) where
  pub any-In : (a : A) (xs : List A) → any (eq a) xs ≡ true → In a xs
  any-In a [] h = cc
  any-In a (x ∷ xs) h = elim (Bool-cases (eq a x)) [
    | inl same ↦ subst (λ b. In b (x ∷ xs)) (sym ((reflects a x).0 same)) here
    | inr other ↦ there (any-In a xs (rw other at h))
  ]

  -- Every element is kept, unless it was seen before.
  pub In-distinct_from :
      (a : A) (seen xs : List A)
      → In a xs
      → any (eq a) seen ≡ false
      → In a (distinct_from eq seen xs)
  In-distinct_from a seen [] m unseen = elim m [ ]
  In-distinct_from a seen (x ∷ xs) m unseen = elim (Bool-cases (any (eq x) seen)) [
    | inl old ↦ subst (In a) (sym (old_lem eq x seen xs old)) (elim (In-cons m) [
      | inl same ↦
          let h : any (eq a) seen ≡ true = subst (λ b. any (eq b) seen ≡ true) (sym same) old in cc
      | inr n ↦ In-distinct_from a seen xs n unseen
    ])
    | inr new ↦ subst (In a) (sym (new_lem eq x seen xs new)) (elim (Bool-cases (eq a x)) [
      | inl same ↦
          subst (λ b. In b (x ∷ distinct_from eq (x ∷ seen) xs)) (sym ((reflects a x).0 same)) here
      | inr other ↦ elim (In-cons m) [
        | inl same ↦ let t : eq a x ≡ true = (reflects a x).1 same in cc
        | inr n ↦ there (In-distinct_from a (x ∷ seen) xs n (rw (other, unseen)))
      ]
    ])
  ]

  -- Nothing that was seen before occurs.
  distinct_from-new :
      (a : A) (seen xs : List A) → In a (distinct_from eq seen xs) → any (eq a) seen ≡ false
  distinct_from-new a seen [] m = elim m [ ]
  distinct_from-new a seen (x ∷ xs) m = elim (Bool-cases (any (eq x) seen)) [
    | inl old ↦ distinct_from-new a seen xs (subst (In a) (old_lem eq x seen xs old) m)
    | inr new ↦ elim (In-cons (subst (In a) (new_lem eq x seen xs new) m)) [
      | inl same ↦ subst (λ b. any (eq b) seen ≡ false) (sym same) new
      | inr n ↦
          let h : (eq a x || any (eq a) seen) ≡ false = distinct_from-new a (x ∷ seen) xs n in
          ground arith
    ]
  ]

  All-ne : (x : A) (ys : List A) → ((y : A) → In y ys → eq y x ≡ false) → All (λ y. ◌≢◌ x y) ys
  All-ne x [] h = tt
  All-ne x (y ∷ ys) h = (
    λ same.
        let t : eq y x ≡ true = (reflects y x).1 (sym same) in
        let f : eq y x ≡ false = h y here in cc,
    All-ne x ys (λ z m. h z (there m)),
  )

  -- No element occurs twice.
  pub distinct_from-Apart : (seen xs : List A) → Apart (λ x y. ◌≢◌ x y) (distinct_from eq seen xs)
  distinct_from-Apart seen [] = tt
  distinct_from-Apart seen (x ∷ xs) = elim (Bool-cases (any (eq x) seen)) [
    | inl old ↦
        subst (Apart (λ x y. ◌≢◌ x y)) (sym (old_lem eq x seen xs old))
          (distinct_from-Apart seen xs)
    | inr new ↦ subst (Apart (λ x y. ◌≢◌ x y)) (sym (new_lem eq x seen xs new)) (
      All-ne x (distinct_from eq (x ∷ seen) xs) (λ y m.
          let h : (eq y x || any (eq y) seen) ≡ false = distinct_from-new y (x ∷ seen) xs m in
          ground arith),
      distinct_from-Apart (x ∷ seen) xs,
    )
  ]

-- ===== src/Base/Places.antt =====
-- Where an element occurs in a list that others make up.
use Prim.Native.Nat.{ℕ, zero, suc, ◌≤◌}
use native.Mathlib.Omega.{arith}
use mathlib.Core.Path.{◌≡◌, ◌∙◌, refl, sym, subst, ap}
use mathlib.Core.Logic.{◌⊎◌, inl, inr}
use mathlib.Core.Option.{none, some}
use mathlib.Core.Bool.{Bool, true, false}
use mathlib.Core.List.{List, [], ◌∷◌, ◌++◌, map, append-nil, append_assoc}
use skill_kernel.Base.Tests.{Bool-cases}
use skill_kernel.Base.Lists.{
  In, In-cons, here, there, filterb, All, is_empty, reversed, concat_map, countb, find?, take,
}

module _ {ℓ} {A : Type ℓ} where
  pub In-append-left : (a : A) (xs ys : List A) → In a xs → In a (xs ++ ys)
  In-append-left a [] ys m = elim m [ ]
  In-append-left a (x ∷ xs) ys here = here
  In-append-left a (x ∷ xs) ys (there m) = there (In-append-left a xs ys m)

  pub In-append-right : (a : A) (xs ys : List A) → In a ys → In a (xs ++ ys)
  In-append-right a [] ys m = m
  In-append-right a (x ∷ xs) ys m = there (In-append-right a xs ys m)

  pub In-append : (a : A) (xs ys : List A) → In a (xs ++ ys) → In a xs ⊎ In a ys
  In-append a [] ys m = inr m
  In-append a (x ∷ xs) ys here = inl here
  In-append a (x ∷ xs) ys (there m) = elim (In-append a xs ys m) [
    | inl n ↦ inl (there n)
    | inr n ↦ inr n
  ]

pub In-single {ℓ} : {A : Type ℓ} {a b : A} → In a (b ∷ []) → a ≡ b
In-single here = refl
In-single (there n) = elim n [ ]

module _ {ℓ} {A : Type ℓ} where
  pub is_empty-append-left : (xs ys : List A) → is_empty (xs ++ ys) ≡ true → is_empty xs ≡ true
  is_empty-append-left [] ys h = refl
  is_empty-append-left (x ∷ xs) ys h = h

  pub is_empty-append-right : (xs ys : List A) → is_empty (xs ++ ys) ≡ true → is_empty ys ≡ true
  is_empty-append-right [] ys h = h
  is_empty-append-right (x ∷ xs) ys h = cc

  pub is_empty→nil : (xs : List A) → is_empty xs ≡ true → xs ≡ []
  is_empty→nil [] h = refl
  is_empty→nil (x ∷ xs) h = cc

  pub In-filterb : (p : A → Bool) (a : A) (xs : List A) → In a xs → p a ≡ true → In a (filterb p xs)
  In-filterb p a [] m t = elim m [ ]
  In-filterb p a (x ∷ xs) here t = rw t here
  In-filterb p a (x ∷ xs) (there m) t = elim (Bool-cases (p x)) [
    | inl keep ↦ rw keep (there (In-filterb p a xs m t))
    | inr drop ↦ rw drop (In-filterb p a xs m t)
  ]

  pub filterb-In :
      (p : A → Bool) (a : A) (xs : List A) → In a (filterb p xs) → In a xs × (p a ≡ true)
  filterb-In p a [] m = elim m [ ]
  filterb-In p a (x ∷ xs) m = elim (Bool-cases (p x)) [
    | inl keep ↦ elim (In-cons (rw keep at m)) [
      | inl same ↦
          (subst (λ b. In b (x ∷ xs)) (sym same) here, subst (λ b. p b ≡ true) (sym same) keep)
      | inr n ↦ let (k, t) = filterb-In p a xs n in (there k, t)
    ]
    | inr drop ↦ let (k, t) = filterb-In p a xs (rw drop at m) in (there k, t)
  ]

  pub All-of-In {κ} : (P : A → Type κ) (xs : List A) → ((a : A) → In a xs → P a) → All P xs
  All-of-In P [] h = tt
  All-of-In P (x ∷ xs) h = (h x here, All-of-In P xs (λ a m. h a (there m)))

module _ {ℓ κ} {A : Type ℓ} {B : Type κ} where
  pub In-map : (f : A → B) (a : A) (xs : List A) → In a xs → In (f a) (map f xs)
  In-map f a [] m = elim m [ ]
  In-map f a (x ∷ xs) here = here
  In-map f a (x ∷ xs) (there m) = there (In-map f a xs m)

  -- An element of a map is the value of an element.
  pub map-In : (f : A → B) (b : B) (xs : List A) → In b (map f xs) → (a : A) × In a xs × (b ≡ f a)
  map-In f b [] m = elim m [ ]
  map-In f b (x ∷ xs) m = elim (In-cons m) [
    | inl same ↦ (x, here, same)
    | inr n ↦ let (a, k, e) = map-In f b xs n in (a, there k, e)
  ]

module _ {ℓ} {A : Type ℓ} where
  pub filterb-nil : (p : A → Bool) (xs : List A) → All (λ x. p x ≡ false) xs → filterb p xs ≡ []
  filterb-nil p [] h = refl
  filterb-nil p (x ∷ xs) h = rw (h.0, filterb-nil p xs h.1)

  pub In-reversed : (a : A) (xs : List A) → In a xs → In a (reversed xs)
  In-reversed a [] m = m
  In-reversed a (x ∷ xs) here = In-append-right a (reversed xs) (x ∷ []) here
  In-reversed a (x ∷ xs) (there m) = In-append-left a (reversed xs) (x ∷ []) (In-reversed a xs m)

  pub reversed-In : (a : A) (xs : List A) → In a (reversed xs) → In a xs
  reversed-In a [] m = m
  reversed-In a (x ∷ xs) m = elim (In-append a (reversed xs) (x ∷ []) m) [
    | inl n ↦ there (reversed-In a xs n)
    | inr n ↦ subst (λ b. In b (x ∷ xs)) (sym (In-single n)) here
  ]

module _ {ℓ κ} {A : Type ℓ} {B : Type κ} where
  -- An element of the lists of a list stands in one of them.
  pub concat_map-In :
      (f : A → List B) (b : B) (xs : List A)
      → In b (concat_map f xs)
      → (a : A) × In a xs × In b (f a)
  concat_map-In f b [] m = elim m [ ]
  concat_map-In f b (x ∷ xs) m = elim (In-append b (f x) (concat_map f xs) m) [
    | inl n ↦ (x, here, n)
    | inr n ↦ let (a, k, j) = concat_map-In f b xs n in (a, there k, j)
  ]

  pub In-concat_map :
      (f : A → List B) (a : A) (b : B) (xs : List A) → In a xs → In b (f a) → In b (concat_map f xs)
  In-concat_map f a b [] m n = elim m [ ]
  In-concat_map f a b (x ∷ xs) here n = In-append-left b (f x) (concat_map f xs) n
  In-concat_map f a b (x ∷ xs) (there m) n =
      In-append-right b (f x) (concat_map f xs) (In-concat_map f a b xs m n)

  pub concat_map-nil :
      (f : A → List B) (xs : List A) → All (λ x. f x ≡ []) xs → concat_map f xs ≡ []
  concat_map-nil f [] h = refl
  concat_map-nil f (x ∷ xs) h = rw (h.0, concat_map-nil f xs h.1)

  pub map-nil : (f : A → B) (xs : List A) → map f xs ≡ [] → xs ≡ []
  map-nil f [] h = refl
  map-nil f (x ∷ xs) h = cc

module _ {ℓ} {A : Type ℓ} where
  pub nil-filterb : (p : A → Bool) (xs : List A) → filterb p xs ≡ [] → All (λ x. p x ≡ false) xs
  nil-filterb p [] h = tt
  nil-filterb p (x ∷ xs) h = elim (Bool-cases (p x)) [
    | inl keep ↦ let e : x ∷ filterb p xs ≡ [] = rw keep at h in cc
    | inr drop ↦ (drop, nil-filterb p xs (rw drop at h))
  ]

  pub In-countb : (p : A → Bool) (a : A) (xs : List A) → In a xs → p a ≡ true → 1 ≤ countb p xs
  In-countb p a [] m t = elim m [ ]
  In-countb p a (x ∷ xs) here t = ground arith
  In-countb p a (x ∷ xs) (there m) t = ground (arith, In-countb p a xs m t)

module _ {ℓ κ} {A : Type ℓ} {B : Type κ} where
  pub is_empty-map :
      (f : A → B) (xs : List A) {b : Bool} → is_empty xs ≡ b → is_empty (map f xs) ≡ b
  is_empty-map f [] h = h
  is_empty-map f (x ∷ xs) h = h

module _ {ℓ} {A : Type ℓ} where
  pub filterb-append :
      (p : A → Bool) (xs ys : List A) → filterb p (xs ++ ys) ≡ filterb p xs ++ filterb p ys
  filterb-append p [] ys = refl
  filterb-append p (x ∷ xs) ys = elim (Bool-cases (p x)) [
    | inl keep ↦ rw keep (ap (λ zs. x ∷ zs) (filterb-append p xs ys))
    | inr drop ↦ rw drop (filterb-append p xs ys)
  ]

  -- Tests that agree on the elements keep the same ones.
  pub filterb-cong :
      (p q : A → Bool) (xs : List A) → All (λ x. p x ≡ q x) xs → filterb p xs ≡ filterb q xs
  filterb-cong p q [] h = refl
  filterb-cong p q (x ∷ xs) h = elim (Bool-cases (q x)) [
    | inl keep ↦ rw (h.0, keep) (ap (λ zs. x ∷ zs) (filterb-cong p q xs h.1))
    | inr drop ↦ rw (h.0, drop) (filterb-cong p q xs h.1)
  ]

  pub find?-append-none :
      (p : A → Bool) (xs ys : List A) → find? p xs ≡ none → find? p (xs ++ ys) ≡ find? p ys
  find?-append-none p [] ys h = refl
  find?-append-none p (x ∷ xs) ys h = elim (Bool-cases (p x)) [
    | inl yes_x ↦ let e : some x ≡ none = rw yes_x at h in cc
    | inr no_x ↦ rw no_x (find?-append-none p xs ys (rw no_x at h))
  ]

  pub reversed-append : (xs ys : List A) → reversed (xs ++ ys) ≡ reversed ys ++ reversed xs
  reversed-append [] ys = sym (append-nil (reversed ys))
  reversed-append (x ∷ xs) ys =
      ap (λ zs. zs ++ x ∷ []) (reversed-append xs ys)
      ∙ append_assoc (reversed ys) (reversed xs) (x ∷ [])

  -- The elements that come after the first ones.
  pub take-rest : (n : ℕ) (xs : List A) → (rest : List A) × (xs ≡ take n xs ++ rest)
  take-rest zero xs = (xs, refl)
  take-rest (suc n) [] = ([], refl)
  take-rest (suc n) (x ∷ xs) = let (rest, e) = take-rest n xs in (rest, ap (λ zs. x ∷ zs) e)

-- ===== src/Base/Lists.antt =====
-- Lists measured by native numbers, and predicates on lists by recursion.
use Prim.Native.Nat.{◌+◌, ℕ, zero, suc}
use mathlib.Core.Path.{◌≡◌, refl}
use mathlib.Core.Bool.{Bool, true, false, ◌&&◌, ◌||◌}
use mathlib.Core.List.{List, [], ◌∷◌, ◌++◌, map}
use mathlib.Core.Option.{Option, none, some}
use mathlib.Core.Path.{subst, ap, sym}
use mathlib.Core.Logic.{◌⊎◌, inl, inr}
use native.Mathlib.Omega.{arith}
use skill_kernel.Base.Tests.{if◌then◌else◌, Bool-cases}

module _ {ℓ} {A : Type ℓ} where
  abbrev pub length : List A → ℕ
  length [] = 0
  length (x ∷ xs) = suc (length xs)

  abbrev pub take : ℕ → List A → List A
  take zero xs = []
  take (suc n) [] = []
  take (suc n) (x ∷ xs) = x ∷ take n xs

  -- `[x for x in xs if p(x)]`
  abbrev pub filterb : (A → Bool) → List A → List A
  filterb p [] = []
  filterb p (x ∷ xs) = if p x then x ∷ filterb p xs else filterb p xs

  -- `any(p(x) for x in xs)` and `all(p(x) for x in xs)`
  abbrev pub any : (A → Bool) → List A → Bool
  any p [] = false
  any p (x ∷ xs) = p x || any p xs

  abbrev pub all : (A → Bool) → List A → Bool
  all p [] = true
  all p (x ∷ xs) = p x && all p xs

  -- `not xs`, for a Python list
  abbrev pub is_empty : List A → Bool
  is_empty [] = true
  is_empty (x ∷ xs) = false

  -- The predicate holds of every element.
  abbrev pub All {κ} : (A → Type κ) → List A → Type κ
  All P [] = Unit
  All P (x ∷ xs) = P x × All P xs

  -- The element occurs in the list, with its place kept.
  pub data In (a : A) : List A → Type ℓ where
    here : {xs : List A} → In a (a ∷ xs)
    there : {x : A} {xs : List A} → In a xs → In a (x ∷ xs)

  -- `sum(1 for x in xs if p(x))`
  abbrev pub countb : (A → Bool) → List A → ℕ
  countb p [] = 0
  countb p (x ∷ xs) = if p x then suc (countb p xs) else countb p xs

  -- `next((x for x in xs if p(x)), None)`
  abbrev pub find? : (A → Bool) → List A → Option A
  find? p [] = none
  find? p (x ∷ xs) = if p x then some x else find? p xs

  -- No element is related to a later one.
  abbrev pub Apart {κ} : (A → A → Type κ) → List A → Type κ
  Apart R [] = Unit
  Apart R (x ∷ xs) = All (R x) xs × Apart R xs

module _ {ℓ κ} {A : Type ℓ} (P : A → Type κ) where
  pub All-In : {a : A} {xs : List A} → In a xs → All P xs → P a
  All-In here h = h.0
  All-In (there m) h = All-In m h.1

  pub All-append : (xs ys : List A) → All P xs → All P ys → All P (xs ++ ys)
  All-append [] ys h k = k
  All-append (x ∷ xs) ys h k = (h.0, All-append xs ys h.1 k)

module _ {ℓ κ μ} {A : Type ℓ} (P : A → Type κ) (Q : A → Type μ) (f : A → A) where
  pub All-map : ((x : A) → P x → Q (f x)) → (xs : List A) → All P xs → All Q (map f xs)
  All-map h [] k = tt
  All-map h (x ∷ xs) k = (h x k.0, All-map h xs k.1)

module _ {ℓ κ} {A : Type ℓ} (R : A → A → Type κ) where
  -- A map that keeps the relation keeps a list apart.
  pub Apart-map :
      (f : A → A)
      → ((x y : A) → R x y → R (f x) (f y))
      → (xs : List A) → Apart R xs
      → Apart R (map f xs)
  Apart-map f h [] k = tt
  Apart-map f h (x ∷ xs) k = (All-map (R x) (R (f x)) f (h x) xs k.0, Apart-map f h xs k.1)

  pub Apart-snoc : (x : A) (xs : List A) → All (λ y. R y x) xs → Apart R xs → Apart R (xs ++ x ∷ [])
  Apart-snoc x [] h k = (tt, tt)
  Apart-snoc x (y ∷ ys) h k = (All-append (R y) ys (x ∷ []) k.0 (h.0, tt), Apart-snoc x ys h.1 k.1)

module _ {ℓ} {A : Type ℓ} where
  pub find?-In : (p : A → Bool) (xs : List A) (a : A) → find? p xs ≡ some a → In a xs × (p a ≡ true)
  find?-In p [] a h = cc
  find?-In p (x ∷ xs) a h = elim (Bool-cases (p x)) [
    | inl yes_x ↦
        let e : some x ≡ some a = rw yes_x at h in
        let e' : x ≡ a = cc in
        (subst (λ b. In b (x ∷ xs)) e' here, subst (λ b. p b ≡ true) e' yes_x)
    | inr no_x ↦ let (m, t) = find?-In p xs a (rw no_x at h) in (there m, t)
  ]

  pub find?-eq-none : (p : A → Bool) (xs : List A) → find? p xs ≡ none → All (λ a. p a ≡ false) xs
  find?-eq-none p [] h = tt
  find?-eq-none p (x ∷ xs) h = elim (Bool-cases (p x)) [
    | inl yes_x ↦ cc
    | inr no_x ↦ (no_x, find?-eq-none p xs (rw no_x at h))
  ]

  -- The only element that passes the test is found.
  pub find?-unique :
      (p : A → Bool) (a : A) (xs : List A)
      → In a xs
      → p a ≡ true
      → ((b : A) → In b xs → p b ≡ true → a ≡ b)
      → find? p xs ≡ some a
  find?-unique p a [] m t u = elim m [ ]
  find?-unique p a (x ∷ xs) here t u = rw t
  find?-unique p a (x ∷ xs) (there m) t u = elim (Bool-cases (p x)) [
    | inl yes_x ↦ rw yes_x (ap some (sym (u x here yes_x)))
    | inr no_x ↦ rw no_x (find?-unique p a xs m t (λ b n. u b (there n)))
  ]

module _ {ℓ} {A : Type ℓ} where
  pub length-append : (xs ys : List A) → length (xs ++ ys) ≡ length xs + length ys
  length-append [] ys = omega arith
  length-append (x ∷ xs) ys = omega (arith, length-append xs ys)

  pub countb-append :
      (p : A → Bool) (xs ys : List A) → countb p (xs ++ ys) ≡ countb p xs + countb p ys
  countb-append p [] ys = omega arith
  countb-append p (x ∷ xs) ys = ground (arith, countb-append p xs ys)

  pub countb-any : (p : A → Bool) (xs : List A) → any p xs ≡ false → countb p xs ≡ 0
  countb-any p [] h = refl
  countb-any p (x ∷ xs) h = ground (arith, countb-any p xs)

pub In-cons {ℓ} : {A : Type ℓ} {a x : A} {xs : List A} → In a (x ∷ xs) → (a ≡ x) ⊎ In a xs
In-cons here = inl refl
In-cons (there m) = inr m

module _ {ℓ κ} {A : Type ℓ} {B : Type κ} where
  -- `[y for x in xs for y in f(x)]`
  abbrev pub concat_map : (A → List B) → List A → List B
  concat_map f [] = []
  concat_map f (x ∷ xs) = f x ++ concat_map f xs

module _ {ℓ} {A : Type ℓ} where
  -- `reversed(xs)`
  abbrev pub reversed : List A → List A
  reversed [] = []
  reversed (x ∷ xs) = reversed xs ++ x ∷ []

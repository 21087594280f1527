-- ===== src/Base/Texts.antt =====
-- Texts as Python compares, trims, joins and sorts them, and sets of texts.
use Prim.Native.Nat.{ℕ, zero, suc, ◌≤◌, Ordering}
use Prim.Native.Char.{code}
use Prim.Native.String.{String, compare, count, ◌++◌ as append_text}
use text.Mathlib.TextLemmas.{length-cons}
use mathlib.Core.Path.{◌≡◌, subst, sym}
use mathlib.Core.Logic.{◌⊎◌, inl, inr}
use mathlib.Core.Bool.{Bool, true, false, ◌&&◌, ◌||◌, not}
use mathlib.Core.List.{List, [], ◌∷◌}
use text.Mathlib.Text.{◌==◌ as str_eq}
use text.Mathlib.TextEquality.{eq_iff}
use native.Mathlib.Omega.{arith}
use skill_kernel.Base.Tests.{if◌then◌else◌, leb, ◌==◌, Bool-cases}
use skill_kernel.Base.Lists.{In, here, there, In-cons, any, filterb, is_empty}
use skill_kernel.Base.Distinct.{any-In}

-- The code points that `str.isspace` holds of.
abbrev pub is_space : ℕ → Bool
is_space c =
    (leb 9 c && leb c 13)
    || (leb 28 c && leb c 32)
    || c == 133
    || c == 160
    || c == 5760
    || (leb 8192 c && leb c 8202)
    || c == 8232
    || c == 8233
    || c == 8239
    || c == 8287
    || c == 12288

abbrev pub is_blank : String → Bool
is_blank String.[] = true
is_blank (String.◌∷◌ c s) = false

unfoldable pub lstrip : String → String
lstrip String.[] = String.[]
lstrip (String.◌∷◌ c s) =
    let rest : String = lstrip s in if is_space (code c) then rest else String.◌∷◌ c s

unfoldable pub rstrip : String → String
rstrip String.[] = String.[]
rstrip (String.◌∷◌ c s) =
    let rest : String = rstrip s in
    if is_space (code c) && is_blank rest then String.[] else String.◌∷◌ c rest

-- `value.strip()`
unfoldable pub strip : String → String
strip s = rstrip (lstrip s)

-- `separator.join(texts)`
abbrev pub join : String → List String → String
join separator [] = ""
join separator (t ∷ []) = t
join separator (t ∷ u ∷ ts) = append_text t (append_text separator (join separator (u ∷ ts)))

-- `a <= b`: texts are ordered by their code points.
abbrev at_most : String → String → Bool
at_most a b = elim (compare a b) [ Ordering.gt ↦ false | _ ↦ true ]

unfoldable pub insert : String → List String → List String
insert t [] = t ∷ []
insert t (u ∷ us) =
    let rest : List String = insert t us in if at_most t u then t ∷ u ∷ us else u ∷ rest

-- `sorted(texts)`
unfoldable pub sorted : List String → List String
sorted [] = []
sorted (t ∷ ts) = insert t (sorted ts)

-- `t in texts`
abbrev pub member : String → List String → Bool
member t ts = any (str_eq t) ts

-- The operators `-` and `&` of sets.
abbrev pub minus : List String → List String → List String
minus xs ys = filterb (λ x. not (member x ys)) xs

abbrev pub common : List String → List String → List String
common xs ys = filterb (λ x. member x ys) xs

pub member-In : (t : String) (ts : List String) → member t ts ≡ true → In t ts
member-In t ts h = any-In str_eq eq_iff t ts h

pub In-member : (t : String) (ts : List String) → In t ts → member t ts ≡ true
In-member t [] m = elim m [ ]
In-member t (u ∷ us) here = ground (arith, eq_iff t t)
In-member t (u ∷ us) (there m) = ground (arith, In-member t us m)

insert-here : (t : String) (us : List String) → In t (insert t us)
unfolding insert
insert-here t [] = here
insert-here t (u ∷ us) = elim (Bool-cases (at_most t u)) [
  | inl low ↦ rw low here
  | inr high ↦ rw high (there (insert-here t us))
]

insert-there : (t x : String) (us : List String) → In x us → In x (insert t us)
unfolding insert
insert-there t x [] m = there m
insert-there t x (u ∷ us) m = elim (Bool-cases (at_most t u)) [
  | inl low ↦ rw low (there m)
  | inr high ↦ rw high (elim (In-cons m) [
    | inl same ↦ subst (λ y. In y (u ∷ insert t us)) (sym same) here
    | inr n ↦ there (insert-there t x us n)
  ])
]

In-insert : (t x : String) (us : List String) → In x (insert t us) → (x ≡ t) ⊎ In x us
unfolding insert
In-insert t x [] m = In-cons m
In-insert t x (u ∷ us) m = elim (Bool-cases (at_most t u)) [
  | inl low ↦ In-cons (rw low at m)
  | inr high ↦
      let n : In x (u ∷ insert t us) = rw high at m in
      elim (In-cons n) [
        | inl same ↦ inr (subst (λ y. In y (u ∷ us)) (sym same) here)
        | inr k ↦ elim (In-insert t x us k) [ inl e ↦ inl e | inr j ↦ inr (there j) ]
      ]
]

-- Sorting keeps the elements.
pub In-sorted : (x : String) (ts : List String) → In x ts → In x (sorted ts)
unfolding sorted
In-sorted x [] m = m
In-sorted x (t ∷ ts) m = elim (In-cons m) [
  | inl same ↦ subst (λ y. In y (insert t (sorted ts))) (sym same) (insert-here t (sorted ts))
  | inr n ↦ insert-there t x (sorted ts) (In-sorted x ts n)
]

pub sorted-In : (x : String) (ts : List String) → In x (sorted ts) → In x ts
unfolding sorted
sorted-In x [] m = m
sorted-In x (t ∷ ts) m = elim (In-insert t x (sorted ts) m) [
  | inl same ↦ subst (λ y. In y (t ∷ ts)) (sym same) here
  | inr n ↦ there (sorted-In x ts n)
]

insert-ne : (t : String) (us : List String) → is_empty (insert t us) ≡ false
unfolding insert
insert-ne t [] = ground arith
insert-ne t (u ∷ us) = ground arith

pub is_empty-sorted : (ts : List String) → is_empty (sorted ts) ≡ is_empty ts
unfolding sorted
is_empty-sorted [] = ground arith
is_empty-sorted (t ∷ ts) = insert-ne t (sorted ts)

-- `text[:n]`
unfoldable pub text_take : ℕ → String → String
text_take zero s = String.[]
text_take (suc n) String.[] = String.[]
text_take (suc n) (String.◌∷◌ c s) = String.◌∷◌ c (text_take n s)

-- The pieces between the spaces of a text, empty ones included.
unfoldable pub pieces : String → List String
pieces String.[] = "" ∷ []
pieces (String.◌∷◌ c s) = elim (pieces s) [
  | [] ↦ []
  | w ∷ ws ↦ if is_space (code c) then "" ∷ w ∷ ws else String.◌∷◌ c w ∷ ws
]

-- `text.split()`
unfoldable pub words : String → List String
words s = filterb (λ w. not (is_blank w)) (pieces s)

pub count-text_take : (n : ℕ) (s : String) → count (text_take n s) ≤ n
unfolding text_take
count-text_take zero s = omega arith
count-text_take (suc n) String.[] = omega arith
count-text_take (suc n) (String.◌∷◌ c s) =
    omega (arith, count-text_take n s, length-cons c (text_take n s))

pub count-rstrip : (s : String) → count (rstrip s) ≤ count s
unfolding rstrip
count-rstrip String.[] = omega arith
count-rstrip (String.◌∷◌ c s) =
    ground (arith, count-rstrip s, length-cons c (rstrip s), length-cons c s)

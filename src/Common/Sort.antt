-- ===== src/Common/Sort.antt =====
-- Insertion sort by a strict order given as a test, and what filters and cut-offs do to the result.
use mathlib.Core.Path.{◌∙◌, ◌≡◌, refl, ap}
use mathlib.Core.Logic.{◌⊎◌, inl, inr}
use mathlib.Core.Bool.{Bool, true, false, ◌||◌}
use mathlib.Core.List.Perm
use mathlib.Core.List.{Perm, List, [], ◌∷◌, ◌++◌}
use Prim.Native.Nat.{suc}
use native.Mathlib.Omega.{arith}
use baldsky.Common.Tests.{if◌then◌else◌, Bool-cases}
use baldsky.Common.Lists.{length, All, All-at, filter}

-- A strict order with ties: what is not before nor behind a third is told apart by it.
pub record IsStrict {ℓ} {A : Type ℓ} (before : A → A → Bool) : Type ℓ where
  pub irrefl : (a : A) → before a a ≡ false
  pub trans : (a b c : A) → before a b ≡ true → before b c ≡ true → before a c ≡ true
  pub split : (a b c : A) → before a c ≡ true → (before a b ≡ true) ⊎ (before b c ≡ true)

module _ {ℓ} {A : Type ℓ} (before : A → A → Bool) where
  unfoldable pub insert : A → List A → List A
  insert x [] = x ∷ []
  insert x (y ∷ ys) = if before y x then y ∷ insert x ys else x ∷ y ∷ ys

  unfoldable pub sort : List A → List A
  unfolding insert
  sort [] = []
  sort (x ∷ xs) = insert x (sort xs)

  -- No element stands behind one that it is before.
  abbrev pub Sorted : List A → Type 0
  Sorted [] = Unit
  Sorted (x ∷ xs) = All (λ z. before z x ≡ false) xs × Sorted xs

  -- Each element is before all that follow it.
  abbrev pub Strict : List A → Type 0
  Strict [] = Unit
  Strict (x ∷ xs) = All (λ z. before x z ≡ true) xs × Strict xs

  -- Any two elements are told apart by the order.
  abbrev pub Apart : List A → Type 0
  Apart [] = Unit
  Apart (x ∷ xs) = All (λ z. (before x z || before z x) ≡ true) xs × Apart xs

  All-insert {κ} : (P : A → Type κ) (x : A) (ys : List A) → P x → All P ys → All P (insert x ys)
  unfolding insert
  All-insert P x [] p h = (p, tt)
  All-insert P x (y ∷ ys) p h = elim (Bool-cases (before y x)) [
    | inl e ↦ rw e (h.0, All-insert P x ys p h.1)
    | inr e ↦ rw e (p, h)
  ]

  pub All-sort {κ} : (P : A → Type κ) (xs : List A) → All P xs → All P (sort xs)
  unfolding sort
  All-sort P [] h = tt
  All-sort P (x ∷ xs) h = All-insert P x (sort xs) h.0 (All-sort P xs h.1)

  pub All-filter {κ} :
      (P : A → Type κ) (p : A → Bool) (xs : List A) → All P xs → All P (filter p xs)
  All-filter P p [] h = tt
  All-filter P p (x ∷ xs) h = elim (Bool-cases (p x)) [
    | inl e ↦ rw e (h.0, All-filter P p xs h.1)
    | inr e ↦ rw e (All-filter P p xs h.1)
  ]

  pub filter-Apart : (p : A → Bool) (xs : List A) → Apart xs → Apart (filter p xs)
  filter-Apart p [] h = tt
  filter-Apart p (x ∷ xs) h = elim (Bool-cases (p x)) [
    | inl e ↦ rw e (All-filter _ p xs h.0, filter-Apart p xs h.1)
    | inr e ↦ rw e (filter-Apart p xs h.1)
  ]

  insert-perm : (x : A) (ys : List A) → Perm (insert x ys) (x ∷ ys)
  unfolding insert
  insert-perm x [] = Perm.refl (x ∷ [])
  insert-perm x (y ∷ ys) = elim (Bool-cases (before y x)) [
    | inl e ↦ rw e (Perm.trans (Perm.cons y (insert-perm x ys)) (Perm.swap x y ys))
    | inr e ↦ rw e (Perm.refl (x ∷ y ∷ ys))
  ]

  length-insert : (x : A) (ys : List A) → length (insert x ys) ≡ suc (length ys)
  unfolding insert
  length-insert x [] = refl
  length-insert x (y ∷ ys) = ground (arith, length-insert x ys)

  pub length-sort : (xs : List A) → length (sort xs) ≡ length xs
  unfolding sort
  length-sort [] = refl
  length-sort (x ∷ xs) = length-insert x (sort xs) ∙ ap suc (length-sort xs)

  -- Sorting loses and adds nothing.
  pub sort-perm : (xs : List A) → Perm (sort xs) xs
  unfolding sort
  sort-perm [] = Perm.refl []
  sort-perm (x ∷ xs) = Perm.trans (insert-perm x (sort xs)) (Perm.cons x (sort-perm xs))

module _ {ℓ} {A : Type ℓ} {before : A → A → Bool} (o : IsStrict before) where
  All-later :
      (x y : A) (zs : List A)
      → before x y ≡ true
      → All (λ z. before y z ≡ true) zs
      → All (λ z. before x z ≡ true) zs
  All-later x y [] e h = tt
  All-later x y (z ∷ zs) e h = (o.trans x y z e h.0, All-later x y zs e h.1)

  insert-Strict :
      (x : A) (ys : List A)
      → All (λ z. (before x z || before z x) ≡ true) ys
      → Strict before ys
      → Strict before (insert before x ys)
  unfolding insert
  insert-Strict x [] a s = (tt, tt)
  insert-Strict x (y ∷ ys) a s = elim (Bool-cases (before y x)) [
    | inl e ↦ rw e (All-insert before _ x ys e s.0, insert-Strict x ys a.1 s.1)
    | inr e ↦
        let f : before x y ≡ true = ground (arith, a.0) in rw e ((f, All-later x y ys f s.0), s)
  ]

  pub sort-Strict : (xs : List A) → Apart before xs → Strict before (sort before xs)
  unfolding sort
  sort-Strict [] h = tt
  sort-Strict (x ∷ xs) h =
      insert-Strict x (sort before xs) (All-sort before _ xs h.0) (sort-Strict xs h.1)

  -- What does not come after `y` in a sorted list does not come after an `x` that is before `y`.
  not_after : (x y z : A) → before x y ≡ true → before z y ≡ false → before z x ≡ false
  not_after x y z e f = elim (Bool-cases (before z x)) [
    | inl g ↦ let h = o.trans z x y g e in ground arith
    | inr g ↦ g
  ]

  asym : (a b : A) → before a b ≡ true → before b a ≡ false
  asym a b e = elim (Bool-cases (before b a)) [
    | inl f ↦ let g = o.trans a b a e f in let h = o.irrefl a in cc
    | inr f ↦ f
  ]

  none_before :
      (x y : A) (zs : List A)
      → before y x ≡ false
      → All (λ z. before z y ≡ false) zs
      → All (λ z. before z x ≡ false) zs
  none_before x y [] e h = tt
  none_before x y (z ∷ zs) e h = (
    elim (Bool-cases (before z x)) [
      | inl f ↦ elim (o.split z y x f) [ inl g ↦ let k = h.0 in cc | inr g ↦ cc ]
      | inr f ↦ f
    ],
    none_before x y zs e h.1,
  )

  insert-Sorted : (x : A) (ys : List A) → Sorted before ys → Sorted before (insert before x ys)
  unfolding insert
  insert-Sorted x [] s = (tt, tt)
  insert-Sorted x (y ∷ ys) s = elim (Bool-cases (before y x)) [
    | inl e ↦ rw e (All-insert before _ x ys (asym y x e) s.0, insert-Sorted x ys s.1)
    | inr e ↦ rw e ((e, none_before x y ys e s.0), s)
  ]

  pub sort-Sorted : (xs : List A) → Sorted before (sort before xs)
  unfolding sort
  sort-Sorted [] = tt
  sort-Sorted (x ∷ xs) = insert-Sorted x (sort before xs) (sort-Sorted xs)

  -- Sorting what a test keeps is keeping of the sorted.
  insert-filter_skip :
      (p : A → Bool) (x : A) (ys : List A)
      → p x ≡ false
      → filter p (insert before x ys) ≡ filter p ys
  unfolding insert
  insert-filter_skip p x [] e = rw e
  insert-filter_skip p x (y ∷ ys) e = ground (arith, insert-filter_skip p x ys e)

  insert-before-All :
      (x : A) (ys : List A) → All (λ z. before z x ≡ false) ys → insert before x ys ≡ x ∷ ys
  unfolding insert
  insert-before-All x [] h = refl
  insert-before-All x (y ∷ ys) h = rw h.0

  insert-filter_keep :
      (p : A → Bool) (x : A) (ys : List A)
      → p x ≡ true
      → Sorted before ys
      → filter p (insert before x ys) ≡ insert before x (filter p ys)
  unfolding insert
  insert-filter_keep p x [] e s = rw e
  insert-filter_keep p x (y ∷ ys) e s = elim (Bool-cases (before y x)) [
    | inl b ↦ ground (arith, insert-filter_keep p x ys e s.1)
    | inr b ↦
        rw
          (
            b,
            insert-before-All x (filter p (y ∷ ys)) (
                All-filter before (λ z. before z x ≡ false) p (y ∷ ys)
                  (b, none_before x y ys b s.0)),
          )
          (rw e)
  ]

  pub sort-filter :
      (p : A → Bool) (xs : List A) → sort before (filter p xs) ≡ filter p (sort before xs)
  unfolding sort
  sort-filter p [] = refl
  sort-filter p (x ∷ xs) = elim (Bool-cases (p x)) [
    | inl e ↦ rw (e, insert-filter_keep p x (sort before xs) e (sort-Sorted xs), ← sort-filter p xs)
    | inr e ↦ rw (e, insert-filter_skip p x (sort before xs) e) (sort-filter p xs)
  ]

  none_kept : (p : A → Bool) (xs : List A) → All (λ z. p z ≡ false) xs → filter p xs ≡ []
  none_kept p [] h = refl
  none_kept p (x ∷ xs) h = rw h.0 (none_kept p xs h.1)

  All-kept : (p : A → Bool) (xs : List A) → All (λ z. p z ≡ true) xs → filter p xs ≡ xs
  All-kept p [] h = refl
  All-kept p (x ∷ xs) h = rw h.0 (rw (All-kept p xs h.1))

  -- What a strictly sorted list has behind an element is what that element is before.
  pub filter-behind :
      (xs : List A) (a : A) (ys : List A)
      → Strict before (xs ++ a ∷ ys)
      → filter (before a) (xs ++ a ∷ ys) ≡ ys
  filter-behind [] a ys s = rw (o.irrefl a) (All-kept (before a) ys s.0)
  filter-behind (x ∷ xs) a ys s =
      let e : before a x ≡ false = asym x a (All-at (λ z. before x z ≡ true) xs a ys s.0) in
      rw e (filter-behind xs a ys s.1)

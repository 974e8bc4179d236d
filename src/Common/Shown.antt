-- ===== src/Common/Shown.antt =====
-- `%d` writes different numbers differently.
use baldsky.Common.{
  Text, [], ◌∷◌, ◌++◌, ℕ, zero, suc, ◌/◌, ◌<◌, ltb, ltb→lt, Bool-cases, inl, inr, ◌≡◌, ◌≢◌, ◌≤◌,
  refl, sym, arith,
}
use baldsky.Common.Decimal.{show_digits, show}

snoc_split : (xs ys : Text) (a b : ℕ) → xs ++ a ∷ [] ≡ ys ++ b ∷ [] → (xs ≡ ys) × (a ≡ b)
snoc_split [] [] a b h = (refl, cc)
snoc_split [] (y ∷ []) a b h = cc
snoc_split [] (y ∷ z ∷ ys) a b h = cc
snoc_split (x ∷ []) [] a b h = cc
snoc_split (x ∷ z ∷ xs) [] a b h = cc
snoc_split (x ∷ xs) (y ∷ ys) a b h = let (same, last) = snoc_split xs ys a b cc in (cc, last)

snoc_not_nil : (xs : Text) (a : ℕ) → xs ++ a ∷ [] ≢ []
snoc_not_nil [] a e = cc
snoc_not_nil (x ∷ xs) a e = cc

some_digit : (fuel n : ℕ) → 0 < fuel → show_digits fuel n ≢ []
unfolding show_digits
some_digit zero n h e = absurd (omega arith)
some_digit (suc fuel) n h e = snoc_not_nil _ _ e

show_digits-injective : (f g n m : ℕ) → n < f → m < g → show_digits f n ≡ show_digits g m → n ≡ m
unfolding show_digits
show_digits-injective zero g n m h k e = absurd (omega arith)
show_digits-injective (suc f) zero n m h k e = absurd (omega arith)
show_digits-injective (suc f) (suc g) n m h k e =
    let (front, last) = snoc_split _ _ _ _ e in
    elim (Bool-cases (ltb n 10)) [
      | inl a ↦ elim (Bool-cases (ltb m 10)) [
        | inl b ↦ omega (arith, last, ltb→lt n 10 a, ltb→lt m 10 b)
        | inr b ↦
            let e' = rw (a, b) at front in absurd (some_digit g (m / 10) (ground arith) (sym e'))
      ]
      | inr a ↦ elim (Bool-cases (ltb m 10)) [
        | inl b ↦ let e' = rw (a, b) at front in absurd (some_digit f (n / 10) (ground arith) e')
        | inr b ↦
            let e' = rw (a, b) at front in
            let le : 10 ≤ n = ground arith in
            let le' : 10 ≤ m = ground arith in
            let same = show_digits-injective f g (n / 10) (m / 10) (omega arith) (omega arith) e' in
            omega (arith, same, last)
      ]
    ]

pub show-injective : (n m : ℕ) → show n ≡ show m → n ≡ m
unfolding show
show-injective n m e = show_digits-injective (suc n) (suc m) n m (omega arith) (omega arith) e

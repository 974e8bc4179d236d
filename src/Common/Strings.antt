-- ===== src/Common/Strings.antt =====
-- Go strings, as lists of numbers (bytes or runes), and the functions of `strings` on them.
use Prim.Native.Char.{code}
use Prim.Native.String.{String}
use Prim.Native.Nat.{ℕ}
use mathlib.Core.Path.{◌≡◌, refl}
use mathlib.Core.Logic.{◌↔◌, ◌≢◌, ◌⊎◌, inl, inr}
use mathlib.Core.Bool.{Bool, true, false, ◌&&◌}
use mathlib.Core.List.{List, [], ◌∷◌, ◌++◌, Memᴰ}
use mathlib.Core.Option.{Option, none, some}
use native.Mathlib.Omega.{arith}
use baldsky.Common.Tests.{◌==◌, ==_iff, if◌then◌else◌, and_split, Bool-cases, Option-cases}
use baldsky.Common.Lists.{any, any_sound, any_complete, All}

abbrev pub Text : Type 0
Text = List ℕ

abbrev pub codes : String → Text
codes String.[] = []
codes (String.◌∷◌ c s) = code c ∷ codes s

unfoldable pub text_eq : Text → Text → Bool
text_eq [] [] = true
text_eq (c ∷ s) (d ∷ t) = c == d && text_eq s t
text_eq _ _ = false

text_eq_sound : (s t : Text) → text_eq s t ≡ true → s ≡ t
unfolding text_eq
text_eq_sound [] [] h = refl
text_eq_sound [] (d ∷ t) h = cc
text_eq_sound (c ∷ s) [] h = cc
text_eq_sound (c ∷ s) (d ∷ t) h =
    let (same, rest) = and_split (c == d) (text_eq s t) h in
    cc ((==_iff c d).0 same, text_eq_sound s t rest)

pub text_eq_refl : (s : Text) → text_eq s s ≡ true
unfolding text_eq
text_eq_refl [] = refl
text_eq_refl (c ∷ s) = ground (arith, text_eq_refl s)

pub text_eq_iff : (s t : Text) → (text_eq s t ≡ true) ↔ (s ≡ t)
text_eq_iff s t = (text_eq_sound s t, λ e. rw e (text_eq_refl t))

pub text_eq_comm : (s t : Text) → text_eq s t ≡ text_eq t s
unfolding text_eq
text_eq_comm [] [] = refl
text_eq_comm [] (d ∷ t) = refl
text_eq_comm (c ∷ s) [] = refl
text_eq_comm (c ∷ s) (d ∷ t) = ground (arith, text_eq_comm s t)

-- Membership in a set of texts, a Go `map[string]struct{}`.
abbrev pub member : Text → List Text → Bool
member s set = any (text_eq s) set

pub member_iff : (s : Text) (set : List Text) → (member s set ≡ true) ↔ Memᴰ s set
member_iff s set = (
  λ h. let (t, m, e) = any_sound (text_eq s) set h in rw ((text_eq_iff s t).0 e) m,
  λ m. any_complete (text_eq s) set m (text_eq_refl s),
)

abbrev pub is_empty : Text → Bool
is_empty [] = true
is_empty (c ∷ s) = false

-- What is left of `s` behind the prefix: `strings.CutPrefix`.
unfoldable pub cut_prefix : Text → Text → Option Text
cut_prefix s [] = some s
cut_prefix [] (d ∷ p) = none
cut_prefix (c ∷ s) (d ∷ p) = if c == d then cut_prefix s p else none

-- `strings.HasPrefix`.
unfoldable pub has_prefix : Text → Text → Bool
unfolding cut_prefix
has_prefix s p = elim (cut_prefix s p) [ none ↦ false | some _ ↦ true ]

-- `strings.TrimPrefix`.
unfoldable pub trim_prefix : Text → Text → Text
unfolding cut_prefix
trim_prefix s p = elim (cut_prefix s p) [ none ↦ s | some rest ↦ rest ]

pub cut_prefix-append : (p s : Text) → cut_prefix (p ++ s) p ≡ some s
unfolding cut_prefix
cut_prefix-append [] s = refl
cut_prefix-append (c ∷ p) s = ground (arith, cut_prefix-append p s)

pub cut_prefix_sound : (s p rest : Text) → cut_prefix s p ≡ some rest → s ≡ p ++ rest
unfolding cut_prefix
cut_prefix_sound s [] rest h = ground arith
cut_prefix_sound [] (d ∷ p) rest h = cc
cut_prefix_sound (c ∷ s) (d ∷ p) rest h = elim (Bool-cases (c == d)) [
  | inl same ↦
      let tail : s ≡ p ++ rest = cut_prefix_sound s p rest (rw same at h) in
      cc ((==_iff c d).0 same)
  | inr other ↦ ground arith
]

-- The character in front of the first part.
abbrev pub prepend : ℕ → List Text → List Text
prepend c [] = (c ∷ []) ∷ []
prepend c (t ∷ ts) = (c ∷ t) ∷ ts

-- `strings.Split` by a separator of one byte.
unfoldable pub split : ℕ → Text → List Text
split sep [] = [] ∷ []
split sep (c ∷ s) = if c == sep then [] ∷ split sep s else prepend c (split sep s)

-- The text before and behind the first occurrence of `sep`: `strings.Cut`, and `SplitN` with 2.
unfoldable pub cut : Text → Text → Option (Text × Text)
unfolding cut_prefix
cut [] sep = elim (cut_prefix [] sep) [ none ↦ none | some rest ↦ some ([], rest) ]
cut (c ∷ s) sep =
    let later = cut s sep in
    elim (cut_prefix (c ∷ s) sep) [
      | none ↦ elim later [ none ↦ none | some (a, b) ↦ some (c ∷ a, b) ]
      | some rest ↦ some ([], rest)
    ]

pub cut_sound : (s sep a b : Text) → cut s sep ≡ some (a, b) → s ≡ a ++ (sep ++ b)
unfolding cut
cut_sound [] sep a b h = ground (arith, cut_prefix_sound [] sep b)
cut_sound (c ∷ s) sep a b h = elim (Option-cases (cut_prefix (c ∷ s) sep)) [
  | inl e ↦ elim (Option-cases (cut s sep)) [
    | inl f ↦ ground arith
    | inr ((a', b'), f) ↦ let ih = cut_sound s sep a' b' f in ground arith
  ]
  | inr (rest, e) ↦ let p = cut_prefix_sound (c ∷ s) sep rest e in ground arith
]

-- No "::" begins in the text, also if one more ":" follows it.
abbrev pub NoColons : Text → Type 0
NoColons [] = Unit
NoColons (c ∷ []) = c ≢ b':'
NoColons (c ∷ d ∷ s) = ((c ≢ b':') ⊎ (d ≢ b':')) × NoColons (d ∷ s)

abbrev pub colons : Text
colons = b':' ∷ b':' ∷ []

pub cut-append : (a b : Text) → NoColons a → cut (a ++ (colons ++ b)) colons ≡ some (a, b)
unfolding cut
cut-append [] b h = refl
cut-append (c ∷ []) b h = ground (arith, cut-append [] b)
cut-append (c ∷ d ∷ s) b h = ground (arith, cut-append (d ∷ s) b)

-- A part that holds no separator is the first part.
pub split-append :
    (sep : ℕ) (a s : Text) → All (λ c. c ≢ sep) a → split sep (a ++ sep ∷ s) ≡ a ∷ split sep s
unfolding split
split-append sep [] s h = ground arith
split-append sep (c ∷ a) s h = ground (arith, split-append sep a s h.1)

pub split_single : (sep : ℕ) (a : Text) → All (λ c. c ≢ sep) a → split sep a ≡ a ∷ []
unfolding split
split_single sep [] h = refl
split_single sep (c ∷ a) h = ground (arith, split_single sep a h.1)

pub trim_prefix-append : (p s : Text) → trim_prefix (p ++ s) p ≡ s
unfolding trim_prefix
trim_prefix-append p s = ground (arith, cut_prefix-append p s)

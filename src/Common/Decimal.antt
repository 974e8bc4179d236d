-- ===== src/Common/Decimal.antt =====
-- `strconv.Atoi`: an optional sign and decimal digits, within the range of `int64`.
use Prim.Native.Nat.{ℕ, zero, suc, ◌+◌, ◌-◌, ◌*◌, ◌/◌, ◌%◌}
use mathlib.Core.Bool.{◌&&◌}
use mathlib.Core.List.{[], ◌∷◌, ◌++◌}
use mathlib.Core.Option.{Option, none, some}
use baldsky.Common.Tests.{leb, ltb, ◌==◌, if◌then◌else◌}
use baldsky.Common.Strings.{Text}
use baldsky.Common.Int.{ℤ, pos, sub_ℕ}

unfoldable pub digits_from : ℕ → Text → Option ℕ
digits_from acc [] = some acc
digits_from acc (c ∷ s) =
    let rest = digits_from (acc * 10 + (c - b'0')) s in
    if leb b'0' c && leb c b'9' then rest else none

unfoldable pub digits : Text → Option ℕ
unfolding digits_from
digits [] = none
digits (c ∷ s) = digits_from 0 (c ∷ s)

abbrev max_int64 : ℕ
max_int64 = 9223372036854775807

abbrev positive : Text → Option ℤ
positive s = elim (digits s) [
  | none ↦ none
  | some n ↦ if leb n max_int64 then some (pos n) else none
]

abbrev negative : Text → Option ℤ
negative s = elim (digits s) [
  | none ↦ none
  | some n ↦ if leb n (max_int64 + 1) then some (sub_ℕ 0 n) else none
]

unfoldable pub atoi : Text → Option ℤ
unfolding digits
atoi [] = none
atoi (c ∷ s) = if c == b'-' then negative s else if c == b'+' then positive s else positive (c ∷ s)

-- `%d` of a number that is not negative; the fuel is more than the digits.
unfoldable pub show_digits : ℕ → ℕ → Text
show_digits zero n = []
show_digits (suc fuel) n =
    let front = show_digits fuel (n / 10) in
    (if ltb n 10 then [] else front) ++ (b'0' + n % 10) ∷ []

unfoldable pub show : ℕ → Text
unfolding show_digits
show n = show_digits (suc n) n

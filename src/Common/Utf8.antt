-- ===== src/Common/Utf8.antt =====
-- Go strings as bytes: the UTF-8 encoding of a text, and percent encoding over it.
use Prim.Native.Nat.{ℕ, ◌+◌, ◌-◌, ◌/◌, ◌%◌}
use mathlib.Core.Bool.{Bool}
use mathlib.Core.List.{List, [], ◌∷◌, ◌++◌}
use baldsky.Common.Tests.{ltb, if◌then◌else◌}
use baldsky.Common.Strings.{Text}

-- The bytes of a rune in UTF-8.
abbrev pub rune_bytes : ℕ → List ℕ
rune_bytes c =
    if ltb c 128
    then c ∷ []
    else if ltb c 2048
    then (192 + c / 64) ∷ (128 + c % 64) ∷ []
    else if ltb c 65536
    then (224 + c / 4096) ∷ (128 + (c / 64) % 64) ∷ (128 + c % 64) ∷ []
    else (240 + c / 262144) ∷ (128 + (c / 4096) % 64) ∷ (128 + (c / 64) % 64) ∷ (128 + c % 64) ∷ []

-- `[]byte(s)`.
unfoldable pub to_bytes : Text → List ℕ
to_bytes [] = []
to_bytes (c ∷ s) = rune_bytes c ++ to_bytes s

abbrev hex_digit : ℕ → ℕ
hex_digit n = if ltb n 10 then b'0' + n else b'A' + (n - 10)

-- The percent encoding of bytes, but for those that may stand for themselves.
unfoldable pub escape : (ℕ → Bool) → List ℕ → Text
escape plain [] = []
escape plain (c ∷ s) =
    if plain c
    then c ∷ escape plain s
    else b'%' ∷ hex_digit (c / 16) ∷ hex_digit (c % 16) ∷ escape plain s

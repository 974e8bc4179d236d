-- ===== src/Logger.antt =====
-- The levels of logger/logger.go, and the logger that a context carries.
use baldsky.Common.{
  Text, List, [], ◌∷◌, Option, none, some, codes, text_eq, if◌then◌else◌, ◌≡◌, refl, ap, ℕ,
}
use baldsky.Pipeline.Build.{Runtime, to_lower}

pub data Level : Type 0 where
  debug : Level
  info : Level
  warn : Level
  error : Level

unfoldable pub level_of : Text → Level
level_of level =
    if text_eq level (codes "debug")
    then debug
    else if text_eq level (codes "info")
    then info
    else if text_eq level (codes "warn")
    then warn
    else if text_eq level (codes "error")
    then error
    else info

-- `LevelFromString`.
unfoldable pub level_from_string : Runtime → Text → Level
unfolding level_of
level_from_string rt level = level_of (to_lower rt level)

-- The level of the handler that `New` makes, of its arguments.
abbrev pub new : Runtime → List Text → Level
new rt [] = level_from_string rt []
new rt (level ∷ levels) = level_from_string rt level

-- `FromContext`: a context that is nil, or has no logger, gives one that discards.
abbrev pub from_context : {L : Type 0} → L → Option (Option L) → L
from_context discard none = discard
from_context discard (some none) = discard
from_context discard (some (some logger)) = logger

-- `WithContext`.
abbrev pub with_context : {L : Type 0} → L → Option L
with_context logger = some logger

lowered_again :
    (rt : Runtime) (s : Text)
    → ((c : ℕ) → rt.to_lower_rune (rt.to_lower_rune c) ≡ rt.to_lower_rune c)
    → to_lower rt (to_lower rt s) ≡ to_lower rt s
lowered_again rt [] h = refl
lowered_again rt (c ∷ s) h = rw (h c, lowered_again rt s h) refl

-- The case of the letters does not matter, if lowering twice is lowering once.
level_from_string-to_lower :
    (rt : Runtime) (s : Text)
    → ((c : ℕ) → rt.to_lower_rune (rt.to_lower_rune c) ≡ rt.to_lower_rune c)
    → level_from_string rt (to_lower rt s) ≡ level_from_string rt s
unfolding level_from_string
level_from_string-to_lower rt s h = ap level_of (lowered_again rt s h)

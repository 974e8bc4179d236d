-- ===== src/Pipeline/Regexp.antt =====
-- The part of Go's package `regexp` that subscription/subscription.go uses: a pattern without
-- repetition, matched at each position of the text by backtracking, and the one pattern that
-- `NewPipeline` compiles for a keyword. A text is the sequence of its runes.
use baldsky.Common.{
  ℕ, Bool, true, false, not, ◌&&◌, ◌||◌, List, [], ◌∷◌, Text, leb, ◌==◌, any, is_empty,
}

pub data Regexp : Type 0 where
  empty : Regexp
  begin_text : Regexp
  end_text : Regexp
  -- `[^…]`: any one rune outside the ranges
  none_of : List (ℕ × ℕ) → Regexp
  rune : ℕ → Regexp
  concat : Regexp → Regexp → Regexp
  alternate : Regexp → Regexp → Regexp

abbrev pub in_range : ℕ → ℕ × ℕ → Bool
in_range c (lo, hi) = leb lo c && leb c hi

abbrev pub in_class : List (ℕ × ℕ) → ℕ → Bool
in_class ranges c = any (in_range c) ranges

-- Matches a prefix of the text and hands the rest to the continuation; the Boolean says whether
-- the position is the start of the text.
unfoldable pub match_here : Regexp → Bool → Text → (Bool → Text → Bool) → Bool
match_here empty at s k = k at s
match_here begin_text at s k = at && k at s
match_here end_text at s k = is_empty s && k at s
match_here (none_of ranges) at [] k = false
match_here (none_of ranges) at (c ∷ s) k = not (in_class ranges c) && k false s
match_here (rune d) at [] k = false
match_here (rune d) at (c ∷ s) k = c == d && k false s
match_here (concat a b) at s k = match_here a at s (λ at' rest. match_here b at' rest k)
match_here (alternate a b) at s k = match_here a at s k || match_here b at s k

abbrev pub accept : Bool → Text → Bool
accept at s = true

unfoldable pub match_from : Regexp → Bool → Text → Bool
unfolding match_here
match_from re at [] = match_here re at [] accept
match_from re at (c ∷ s) = match_here re at (c ∷ s) accept || match_from re false s

-- `re.MatchString(s)`.
unfoldable pub match_string : Regexp → Text → Bool
unfolding match_from
match_string re s = match_from re true s

-- `a-zA-Z0-9-`.
abbrev pub word_ranges : List (ℕ × ℕ)
word_ranges = (b'a', b'z') ∷ (b'A', b'Z') ∷ (b'0', b'9') ∷ (b'-', b'-') ∷ []

-- The literal that `regexp.QuoteMeta(kw)` denotes.
unfoldable pub quote_meta : Text → Regexp
quote_meta [] = empty
quote_meta (c ∷ kw) = concat (rune c) (quote_meta kw)

-- `(?:[^a-zA-Z0-9-]|$)`.
abbrev pub right_edge : Regexp
right_edge = alternate (none_of word_ranges) end_text

-- `(?:^|[^a-zA-Z0-9-])`.
abbrev pub left_edge : Regexp
left_edge = alternate begin_text (none_of word_ranges)

-- `(?:^|[^a-zA-Z0-9-])` + QuoteMeta(kw) + `(?:[^a-zA-Z0-9-]|$)`.
unfoldable pub keyword_pattern : Text → Regexp
unfolding quote_meta
keyword_pattern kw = concat left_edge (concat (quote_meta kw) right_edge)

-- ===== src/Pipeline/Words.antt =====
-- What the keyword pattern of subscription/subscription.go finds: the keyword as a whole word.
use baldsky.Common.{
  ℕ, Bool, true, false, not, ◌&&◌, ◌||◌, [], ◌∷◌, ◌++◌, Text, ◌≡◌, refl, ◌↔◌, inl, inr, ◌==◌,
  ==_iff, arith, and_split, or_split, ap,
}
use baldsky.Pipeline.Regexp.{
  Regexp, match_here, match_from, match_string, accept, word_ranges, in_class, quote_meta,
  right_edge, keyword_pattern,
}

-- A rune that a keyword may not touch: an ASCII letter, a digit or a hyphen.
unfoldable pub is_word : ℕ → Bool
is_word c = in_class word_ranges c

-- The text behind the keyword is empty or starts with another rune.
abbrev pub StartsOpen : Text → Type 0
StartsOpen [] = Unit
StartsOpen (c ∷ s) = is_word c ≡ false

-- The text before the keyword ends with another rune; `edge` says whether an empty one will do.
abbrev pub EndsOpen : Bool → Text → Type 0
EndsOpen edge [] = edge ≡ true
EndsOpen edge (c ∷ s) = EndsOpen (not (is_word c)) s

-- The keyword stands somewhere in the text, touching no letter, digit or hyphen on either side.
pub record HasWord (kw : Text) (s : Text) : Type 0 where
  pub before : Text
  pub after : Text
  pub splits : s ≡ before ++ (kw ++ after)
  pub opens : EndsOpen true before
  pub closes : StartsOpen after

-- The keyword stands at the front of the text, touching nothing behind it.
record Front (kw : Text) (s : Text) : Type 0 where
  after : Text
  splits : s ≡ kw ++ after
  closes : StartsOpen after

tail_match : Text → Bool → Text → Bool
tail_match kw at s =
    match_here (quote_meta kw) at s (λ at' rest. match_here right_edge at' rest accept)

tail_sound : (kw : Text) (at : Bool) (s : Text) → tail_match kw at s ≡ true → Front kw s
unfolding tail_match quote_meta match_here is_word
tail_sound [] at [] h = record { after = []; splits = refl; closes = tt }
tail_sound [] at (c ∷ s) h = record { after = c ∷ s; splits = refl; closes = ground arith }
tail_sound (d ∷ kw) at [] h = cc
tail_sound (d ∷ kw) at (c ∷ s) h =
    let (same, rest) = and_split (c == d) _ h in
    let f = tail_sound kw false s rest in
    record { after = f.after; splits = cc ((==_iff c d).0 same, f.splits); closes = f.closes }

tail_complete :
    (kw : Text) (at : Bool) (after : Text)
    → StartsOpen after
    → tail_match kw at (kw ++ after) ≡ true
unfolding tail_match quote_meta match_here is_word
tail_complete [] at [] h = refl
tail_complete [] at (c ∷ s) h = ground arith
tail_complete (d ∷ kw) at after h = ground (arith, tail_complete kw false after h)

here_eq_nil :
    (kw : Text) (at : Bool)
    → match_here (keyword_pattern kw) at [] accept ≡ (at && tail_match kw at [])
unfolding tail_match keyword_pattern match_here is_word
here_eq_nil kw at = ground arith

here_eq :
    (kw : Text) (at : Bool) (c : ℕ) (s : Text)
    → match_here (keyword_pattern kw) at (c ∷ s) accept
      ≡ ((at && tail_match kw at (c ∷ s)) || (not (is_word c) && tail_match kw false s))
unfolding tail_match keyword_pattern match_here is_word
here_eq kw at c s = refl

-- The keyword stands in a text that follows a rune (or the start, for `edge` true).
record Within (edge : Bool) (kw : Text) (s : Text) : Type 0 where
  before : Text
  after : Text
  splits : s ≡ before ++ (kw ++ after)
  opens : EndsOpen edge before
  closes : StartsOpen after

at-Front : {edge : Bool} {kw s : Text} → edge ≡ true → Front kw s → Within edge kw s
at-Front e f = record {
  before = [];
  after = f.after;
  splits = f.splits;
  opens = e;
  closes = f.closes;
}

behind :
    {edge : Bool} {kw s : Text} (c : ℕ) → is_word c ≡ false → Front kw s → Within edge kw (c ∷ s)
behind c e f = record {
  before = c ∷ [];
  after = f.after;
  splits = ap (λ t. c ∷ t) f.splits;
  opens = ground arith;
  closes = f.closes;
}

further_at :
    {edge : Bool} {kw s : Text} (c : ℕ) (before after : Text)
    → s ≡ before ++ (kw ++ after)
    → EndsOpen false before
    → StartsOpen after
    → Within edge kw (c ∷ s)
further_at c [] after e o h = cc
further_at c (d ∷ before) after e o h = record {
  before = c ∷ d ∷ before;
  after = after;
  splits = ap (λ t. c ∷ t) e;
  opens = o;
  closes = h;
}

further : {edge : Bool} {kw s : Text} (c : ℕ) → Within false kw s → Within edge kw (c ∷ s)
further c w = further_at c w.before w.after w.splits w.opens w.closes

not_word : (b : Bool) → not b ≡ true → b ≡ false
not_word b h = ground arith

match_from_sound :
    (kw : Text) (edge : Bool) (s : Text)
    → match_from (keyword_pattern kw) edge s ≡ true
    → Within edge kw s
unfolding match_from
match_from_sound kw edge [] h =
    let (e, m) = and_split edge _ (rw here_eq_nil at h) in at-Front e (tail_sound kw edge [] m)
match_from_sound kw edge (c ∷ s) h =
    elim (or_split (match_here (keyword_pattern kw) edge (c ∷ s) accept)
      (match_from (keyword_pattern kw) false s) h) [
        | inl here ↦ elim (or_split _ _ (rw here_eq at here)) [
          | inl front ↦
              let (e, m) = and_split edge _ front in at-Front e (tail_sound kw edge (c ∷ s) m)
          | inr next ↦
              let (e, m) = and_split _ _ next in
              behind c (not_word (is_word c) e) (tail_sound kw false s m)
        ]
        | inr later ↦ further c (match_from_sound kw false s later)
      ]

here_front :
    (kw s : Text)
    → tail_match kw true s ≡ true
    → match_here (keyword_pattern kw) true s accept ≡ true
here_front kw [] h = rw here_eq_nil h
here_front kw (c ∷ s) h = rw (here_eq, h)

match_from_here :
    (re : Regexp) (edge : Bool) (s : Text)
    → match_here re edge s accept ≡ true
    → match_from re edge s ≡ true
unfolding match_from
match_from_here re edge [] h = h
match_from_here re edge (c ∷ s) h = rw h

match_from_complete :
    (kw before after : Text) (edge : Bool)
    → EndsOpen edge before
    → StartsOpen after
    → match_from (keyword_pattern kw) edge (before ++ (kw ++ after)) ≡ true
unfolding match_from
match_from_complete kw [] after edge o h = rw o (
    match_from_here (keyword_pattern kw) true (kw ++ after)
      (here_front kw (kw ++ after) (tail_complete kw true after h)))
match_from_complete kw (c ∷ []) after edge o h =
    rw (here_eq, tail_complete kw false after h) (ground arith)
match_from_complete kw (c ∷ d ∷ before) after edge o h =
    ground (arith, match_from_complete kw (d ∷ before) after false o h)

-- The compiled pattern matches a text exactly when the keyword stands in it as a whole word.
pub match_string_iff : (kw s : Text) → (match_string (keyword_pattern kw) s ≡ true) ↔ HasWord kw s
unfolding match_string
match_string_iff kw s = (
  λ h.
      let w = match_from_sound kw true s h in
      record {
        before = w.before;
        after = w.after;
        splits = w.splits;
        opens = w.opens;
        closes = w.closes;
      },
  λ w. rw w.splits (match_from_complete kw w.before w.after true w.opens w.closes),
)

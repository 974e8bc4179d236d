-- ===== src/Pipeline/Match.antt =====
-- `matches`, `MatchesPost` and `shouldInsert` of subscription/subscription.go.
use baldsky.Common.{
  Text, Bool, true, false, not, ◌&&◌, List, [], ◌∷◌, Option, none, some, any, member, if◌then◌else◌,
}
use baldsky.Pipeline.Regexp.{Regexp, match_string}
use baldsky.Pipeline.Build.{Runtime, to_lower, Pipeline}

-- The fields of `bsky.FeedPost` that the pipelines read; `has_embed` is `post.Embed != nil`.
pub record FeedPost : Type 0 where
  pub text : Text
  pub langs : List Text
  pub has_embed : Bool

-- The inner loop over the regular expressions of one tier.
abbrev pub matches_any : List Regexp → Text → Bool
matches_any res lower = any (λ re. match_string re lower) res

-- The first loop of `matches`: `some` is a return from within the loop.
unfoldable pub scan_keywords : List Regexp → List Regexp → Text → Option Bool
scan_keywords excludes [] lower = none
scan_keywords excludes (re ∷ res) lower =
    if match_string re lower
    then (if matches_any excludes lower then some false else some true)
    else scan_keywords excludes res lower

-- The second loop, whose keywords need a context word beside them.
unfoldable pub scan_context : List Regexp → List Regexp → List Regexp → Text → Option Bool
scan_context excludes words [] lower = none
scan_context excludes words (re ∷ res) lower =
    let rest = scan_context excludes words res lower in
    if match_string re lower
    then (if not (matches_any words lower)
        then rest
        else if matches_any excludes lower
        then some false
        else some true)
    else rest

abbrev pub not_empty : List Text → Bool
not_empty [] = false
not_empty (s ∷ l) = true

module _ {S : Type 0} (rt : Runtime) (p : Pipeline S) where
  unfoldable pub matches : Text → Bool
  unfolding scan_keywords scan_context
  matches text =
      let lower = to_lower rt text in
      elim (scan_keywords p.exclude_regexps p.keyword_regexps lower) [
        | some result ↦ result
        | none ↦
            elim (scan_context p.exclude_regexps p.context_word_regexps p.context_keyword_regexps
              lower) [ some result ↦ result | none ↦ false ]
      ]

  -- The loop over the post's languages.
  abbrev pub speaks : List Text → Bool
  speaks langs = any (λ lang. member (to_lower rt lang) p.languages) langs

  unfoldable pub matches_post : Text → List Text → Bool → Bool
  unfolding matches
  matches_post text langs has_embed =
      if p.require_media && not has_embed
      then false
      else if (not_empty p.languages && not_empty langs) && not (speaks langs)
      then false
      else matches text

  unfoldable pub should_insert : Text → FeedPost → Bool
  unfolding matches
  should_insert actor post =
      if member actor p.blocked_dids
      then false
      else if p.require_media && not post.has_embed
      then false
      else if (not_empty p.languages && not_empty post.langs) && not (speaks post.langs)
      then false
      else matches post.text

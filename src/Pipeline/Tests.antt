-- ===== src/Pipeline/Tests.antt =====
-- Runs of the pipelines of subscription/subscription.go, and the theorems at concrete inputs.
use baldsky.Common.{
  Text, true, false, List, [], ◌∷◌, Memᴰ, ◌≡◌, refl, ◌↔◌, ok, codes, none, ℕ, leb, ◌&&◌, ◌+◌,
  if◌then◌else◌, text_eq,
}
use baldsky.Pipeline.Regexp.{match_string, keyword_pattern}
use baldsky.Pipeline.Build.{Runtime, Pipeline, PipelineStore, new_pipeline, compile_all}
use baldsky.Pipeline.Match.{FeedPost, should_insert, matches_post}
use baldsky.Pipeline.Words.{HasWord, match_string_iff}
use baldsky.Pipeline.Rule.{built}
use baldsky.Pipeline.Admission.{Suits, should_insert_iff, matches_post_iff}

-- Lower case over ASCII.
abbrev pub ascii_lower : ℕ → ℕ
ascii_lower c = if leb b'A' c && leb c b'Z' then c + 32 else c

abbrev pub ascii : Runtime
ascii = record { to_lower_rune = ascii_lower; regexp_fits = λ kw. true }

-- A store that counts its calls.
abbrev counting : PipelineStore ℕ
counting = record { insert_post = λ f u c n. (n + 1, none); delete_posts = λ us n. (n + 1, none) }

abbrev kws : List Text
kws = codes "shaved head" ∷ []

abbrev excludes : List Text
excludes = codes "eagle" ∷ []

abbrev context_kws : List Text
context_kws = codes "Bald" ∷ []

abbrev words : List Text
words = codes "scalp" ∷ codes "shave" ∷ []

abbrev pub bald : Pipeline ℕ
bald =
    built ascii (codes "bald") kws excludes context_kws words (codes "did:plc:spam" ∷ [])
      (codes "en" ∷ []) false counting

bald_built :
    new_pipeline ascii
      (codes "bald")
      kws
      excludes
      context_kws
      words
      (codes "did:plc:spam" ∷ [])
      (codes "en" ∷ [])
      false
      counting
    ≡ ok bald
unfolding new_pipeline compile_all
bald_built = refl

abbrev pub post : FeedPost
post = record {
  text = codes "Going BALD, time to shave.";
  langs = codes "EN" ∷ [];
  has_embed = false;
}

post_taken : should_insert ascii bald (codes "did:plc:me") post ≡ true
unfolding should_insert match_string keyword_pattern text_eq
post_taken = refl

eagle_refused :
    should_insert ascii bald (codes "did:plc:me") (record post { text = codes "shaved head eagle" })
    ≡ false
unfolding should_insert match_string keyword_pattern text_eq
eagle_refused = refl

should_insert_iff_example : (should_insert ascii bald (codes "did:plc:me") post ≡ true) ↔ (
    (¬ Memᴰ (codes "did:plc:me") (codes "did:plc:spam" ∷ []))
    × Suits ascii kws excludes context_kws words (codes "en" ∷ []) false post)
should_insert_iff_example =
    should_insert_iff ascii (codes "bald") kws excludes context_kws words
      (codes "did:plc:spam" ∷ []) (codes "en" ∷ []) false counting bald bald_built
      (codes "did:plc:me") post

matches_post_iff_example :
    (matches_post ascii bald post.text post.langs post.has_embed ≡ true)
    ↔ Suits ascii kws excludes context_kws words (codes "en" ∷ []) false post
matches_post_iff_example =
    matches_post_iff ascii (codes "bald") kws excludes context_kws words (codes "did:plc:spam" ∷ [])
      (codes "en" ∷ []) false counting bald bald_built post

match_string_iff_example :
    (match_string (keyword_pattern (codes "bald")) (codes "not balding, bald!") ≡ true)
    ↔ HasWord (codes "bald") (codes "not balding, bald!")
match_string_iff_example = match_string_iff (codes "bald") (codes "not balding, bald!")

-- ===== src/Pipeline/Rule.antt =====
-- The two tiers of keywords and the excluded ones, as `matches` of subscription/subscription.go
-- combines them.
use baldsky.Common.{
  Text, Bool, true, not, ◌&&◌, ◌||◌, List, [], ◌∷◌, map, Memᴰ, none, some, ◌≡◌, refl, inl, inr,
  arith, ok, >>=-eq-ok, Bool-cases, if◌then◌else◌,
}
use baldsky.Pipeline.Regexp.{Regexp, match_string, keyword_pattern}
use baldsky.Pipeline.Build.{
  Runtime, to_lower, Pipeline, PipelineStore, BuildError, compile_all, new_pipeline,
}
use baldsky.Pipeline.Match.{matches_any, scan_keywords, scan_context, matches}
use baldsky.Pipeline.Words.{HasWord, match_string_iff}

scan_keywords_lem :
    (ex res : List Regexp) (s : Text)
    → scan_keywords ex res s ≡ (if matches_any res s then some (not (matches_any ex s)) else none)
unfolding scan_keywords
scan_keywords_lem ex [] s = refl
scan_keywords_lem ex (re ∷ res) s = ground (arith, scan_keywords_lem ex res s)

scan_context_lem :
    (ex words res : List Regexp) (s : Text)
    → scan_context ex words res s
      ≡ (if matches_any res s && matches_any words s then some (not (matches_any ex s)) else none)
unfolding scan_context
scan_context_lem ex words [] s = refl
scan_context_lem ex words (re ∷ res) s = ground (arith, scan_context_lem ex words res s)

-- The two loops together are one Boolean formula over the four lists.
pub matches_lem :
    {S : Type 0} (rt : Runtime) (p : Pipeline S) (text : Text)
    → matches rt p text ≡ (
        (matches_any p.keyword_regexps (to_lower rt text)
          || (matches_any p.context_keyword_regexps (to_lower rt text)
              && matches_any p.context_word_regexps (to_lower rt text)))
        && not (matches_any p.exclude_regexps (to_lower rt text)))
unfolding matches
matches_lem rt p text = ground (
  arith,
  scan_keywords_lem p.exclude_regexps p.keyword_regexps (to_lower rt text),
  scan_context_lem p.exclude_regexps p.context_word_regexps p.context_keyword_regexps
      (to_lower rt text),
)

-- One of the keywords stands in the text as a whole word, letter case aside.
pub record HasAny (rt : Runtime) (kws : List Text) (text : Text) : Type 0 where
  pub keyword : Text
  pub listed : Memᴰ keyword kws
  pub found : HasWord (to_lower rt keyword) (to_lower rt text)

-- The patterns of a list of keywords.
abbrev pub patterns : Runtime → List Text → List Regexp
patterns rt [] = []
patterns rt (kw ∷ kws) = keyword_pattern (to_lower rt kw) ∷ patterns rt kws

pub matches_any_sound :
    (rt : Runtime) (kws : List Text) (text : Text)
    → matches_any (patterns rt kws) (to_lower rt text) ≡ true
    → HasAny rt kws text
matches_any_sound rt [] text h = cc
matches_any_sound rt (kw ∷ kws) text h =
    elim (Bool-cases (match_string (keyword_pattern (to_lower rt kw)) (to_lower rt text))) [
      | inl e ↦ record { keyword = kw; listed = Memᴰ.head refl; found = (match_string_iff _ _).0 e }
      | inr e ↦
          let w = matches_any_sound rt kws text (rw e at h) in
          record { keyword = w.keyword; listed = Memᴰ.tail w.listed; found = w.found }
    ]

matches_any_listed :
    (rt : Runtime) (kw : Text) (kws : List Text) (text : Text)
    → Memᴰ kw kws
    → HasWord (to_lower rt kw) (to_lower rt text)
    → matches_any (patterns rt kws) (to_lower rt text) ≡ true
matches_any_listed rt kw [] text m w = elim m [ ]
matches_any_listed rt kw (k ∷ kws) text (Memᴰ.head e) w = rw (← e) (rw ((match_string_iff _ _).1 w))
matches_any_listed rt kw (k ∷ kws) text (Memᴰ.tail m) w =
    ground (arith, matches_any_listed rt kw kws text m w)

pub matches_any_complete :
    (rt : Runtime) (kws : List Text) (text : Text)
    → HasAny rt kws text
    → matches_any (patterns rt kws) (to_lower rt text) ≡ true
matches_any_complete rt kws text h = matches_any_listed rt h.keyword kws text h.listed h.found

compile_all_ok :
    (rt : Runtime) (wrap : Text → BuildError) (kws : List Text) (res : List Regexp)
    → compile_all rt wrap (map (to_lower rt) kws) ≡ ok res
    → res ≡ patterns rt kws
unfolding compile_all
compile_all_ok rt wrap [] res h = cc
compile_all_ok rt wrap (kw ∷ kws) res h = elim (Bool-cases (rt.regexp_fits (to_lower rt kw))) [
  | inl fits ↦
      let (rest, others, done) =
        >>=-eq-ok (compile_all rt wrap (map (to_lower rt) kws))
          (λ r. ok (keyword_pattern (to_lower rt kw) ∷ r)) (rw fits at h) in
      cc (compile_all_ok rt wrap kws rest others)
  | inr large ↦ let e = rw large at h in cc
]

module _ {S : Type 0} (rt : Runtime) (name : Text)
    (keywords exclude_keywords context_keywords context_words : List Text)
    (block_dids languages : List Text) (require_media : Bool) (store : PipelineStore S) where
  -- What `NewPipeline` returns when every pattern compiles.
  abbrev pub built : Pipeline S
  built = record {
    name = name;
    keywords = map (to_lower rt) keywords;
    exclude_keywords = map (to_lower rt) exclude_keywords;
    context_keywords = map (to_lower rt) context_keywords;
    context_words = map (to_lower rt) context_words;
    keyword_regexps = patterns rt keywords;
    exclude_regexps = patterns rt exclude_keywords;
    context_keyword_regexps = patterns rt context_keywords;
    context_word_regexps = patterns rt context_words;
    languages = map (to_lower rt) languages;
    blocked_dids = block_dids;
    require_media = require_media;
    store = store;
  }

  pub new_pipeline_ok :
      (p : Pipeline S)
      → new_pipeline rt name keywords exclude_keywords context_keywords context_words block_dids
          languages require_media store
        ≡ ok p
      → p ≡ built
  unfolding new_pipeline
  new_pipeline_ok p h =
      let (r1, e1, h1) = >>=-eq-ok _ _ h in
      let (r2, e2, h2) = >>=-eq-ok _ _ h1 in
      let (r3, e3, h3) = >>=-eq-ok _ _ h2 in
      let (r4, e4, h4) = >>=-eq-ok _ _ h3 in
      cc (
        compile_all_ok rt _ keywords r1 e1,
        compile_all_ok rt _ exclude_keywords r2 e2,
        compile_all_ok rt _ context_keywords r3 e3,
        compile_all_ok rt _ context_words r4 e4,
      )

-- ===== src/Pipeline/Admission.antt =====
-- Which posts a configured pipeline takes: `NewPipeline` and `shouldInsert` of
-- subscription/subscription.go together, against the rule that README.md gives in words.
use baldsky.Common.{
  Text, Bool, true, false, not, ◌&&◌, List, [], ◌∷◌, map, Memᴰ, ◌≡◌, refl, ◌↔◌, ◌⊎◌, inl, inr,
  arith, ok, member, member_iff, any_sound, any_complete, Bool-cases, and_split, or_split, not-true,
}
use baldsky.Pipeline.Build.{Runtime, to_lower, Pipeline, PipelineStore, new_pipeline}
use baldsky.Pipeline.Match.{
  FeedPost, matches_any, matches, should_insert, matches_post, speaks, not_empty,
}
use baldsky.Pipeline.Rule.{
  HasAny, patterns, built, new_pipeline_ok, matches_lem, matches_any_sound, matches_any_complete,
}

-- A language of the post is one of the pipeline's, letter case aside.
pub record SharesLanguage (rt : Runtime) (languages langs : List Text) : Type 0 where
  pub language : Text
  pub spoken : Memᴰ language langs
  pub wanted : Memᴰ (to_lower rt language) (map (to_lower rt) languages)

-- The keyword rule: a keyword, or a context keyword with a context word; and no excluded one.
pub record KeywordRule (rt : Runtime)
    (keywords exclude_keywords context_keywords context_words : List Text) (text : Text)
    : Type 0 where
  pub wanted :
      HasAny rt keywords text ⊎ (HasAny rt context_keywords text × HasAny rt context_words text)
  pub not_excluded : ¬ HasAny rt exclude_keywords text

-- The post passes the media and language requirements and the keyword rule.
pub record Suits (rt : Runtime)
    (keywords exclude_keywords context_keywords context_words languages : List Text)
    (require_media : Bool) (post : FeedPost) : Type 0 where
  pub media : require_media ≡ true → post.has_embed ≡ true
  pub language : (languages ≡ []) ⊎ ((post.langs ≡ []) ⊎ SharesLanguage rt languages post.langs)
  pub keywords_hold :
      KeywordRule rt keywords exclude_keywords context_keywords context_words post.text

module _ {S : Type 0} (rt : Runtime) (name : Text)
    (keywords exclude_keywords context_keywords context_words : List Text)
    (block_dids languages : List Text) (require_media : Bool) (store : PipelineStore S) where
  abbrev the_pipeline : Pipeline S
  the_pipeline =
      built rt name keywords exclude_keywords context_keywords context_words block_dids languages
        require_media store

  matches_iff :
      (text : Text)
      → (matches rt the_pipeline text ≡ true)
        ↔ KeywordRule rt keywords exclude_keywords context_keywords context_words text
  matches_iff text = (
    λ h.
        let h' = rw matches_lem at h in
        let (w, e) = and_split _ _ h' in
        record {
          wanted = elim (or_split _ _ w) [
            | inl k ↦ inl (matches_any_sound rt keywords text k)
            | inr c ↦
                let (k, cw) = and_split _ _ c in
                inr (
                  matches_any_sound rt context_keywords text k,
                  matches_any_sound rt context_words text cw,
                )
          ];
          not_excluded =
              λ x. let f = matches_any_complete rt exclude_keywords text x in ground arith;
        },
    λ r.
        let excluded : matches_any (patterns rt exclude_keywords) (to_lower rt text) ≡ false =
          not-true (λ e. r.not_excluded (matches_any_sound rt exclude_keywords text e)) in
        rw (matches_lem, excluded)
          (elim r.wanted [
            | inl k ↦ let e = matches_any_complete rt keywords text k in ground arith
            | inr c ↦
                let e = matches_any_complete rt context_keywords text c.0 in
                let f = matches_any_complete rt context_words text c.1 in ground arith
          ]),
  )

  speaks_sound :
      (langs : List Text) → speaks rt the_pipeline langs ≡ true → SharesLanguage rt languages langs
  speaks_sound langs h =
      let (lang, m, e) = any_sound _ langs h in
      record { language = lang; spoken = m; wanted = (member_iff _ _).0 e }

  speaks_complete :
      (langs : List Text) → SharesLanguage rt languages langs → speaks rt the_pipeline langs ≡ true
  speaks_complete langs w = any_complete _ langs w.spoken ((member_iff _ _).1 w.wanted)

  language_sound :
      (langs : List Text)
      → ((not_empty (map (to_lower rt) languages) && not_empty langs)
          && not (speaks rt the_pipeline langs))
        ≡ false
      → (languages ≡ []) ⊎ ((langs ≡ []) ⊎ SharesLanguage rt languages langs)
  language_sound langs h = elim (Bool-cases (speaks rt the_pipeline langs)) [
    | inl e ↦ inr (inr (speaks_sound langs e))
    | inr e ↦ lists_empty languages langs (rw e at h)
  ]
    where
      lists_empty :
          (ls ms : List Text)
          → ((not_empty (map (to_lower rt) ls) && not_empty ms) && true) ≡ false
          → (ls ≡ []) ⊎ ((ms ≡ []) ⊎ SharesLanguage rt languages langs)
      lists_empty [] ms e = inl refl
      lists_empty (l ∷ ls) [] e = inr (inl refl)
      lists_empty (l ∷ ls) (m ∷ ms) e = cc

  language_complete :
      (langs : List Text)
      → (languages ≡ []) ⊎ ((langs ≡ []) ⊎ SharesLanguage rt languages langs)
      → ((not_empty (map (to_lower rt) languages) && not_empty langs)
          && not (speaks rt the_pipeline langs))
        ≡ false
  language_complete langs (inl e) = rw e
  language_complete langs (inr (inl e)) = rw e (ground arith)
  language_complete langs (inr (inr w)) = rw (speaks_complete langs w) (ground arith)

  matches_post_iff_built :
      (post : FeedPost)
      → (matches_post rt the_pipeline post.text post.langs post.has_embed ≡ true)
        ↔ Suits rt keywords exclude_keywords context_keywords context_words languages require_media
            post
  unfolding matches_post
  matches_post_iff_built post = (
    λ h. elim (Bool-cases (require_media && not post.has_embed)) [
      | inl e ↦ let h' = rw e at h in cc
      | inr e ↦
          let h' = rw e at h in
          elim (Bool-cases (
            (not_empty (map (to_lower rt) languages) && not_empty post.langs)
            && not (speaks rt the_pipeline post.langs))) [
              | inl f ↦ let h'' = rw f at h' in cc
              | inr f ↦ record {
                media = λ r. ground arith;
                language = language_sound post.langs f;
                keywords_hold = (matches_iff post.text).0 (rw f at h');
              }
            ]
    ],
    λ w.
        let e : (require_media && not post.has_embed) ≡ false = ground (arith, w.media) in
        rw e (
          rw (language_complete post.langs w.language) ((matches_iff post.text).1 w.keywords_hold)),
  )

  should_insert-matches_post :
      (actor : Text) (post : FeedPost) (p : Pipeline S)
      → should_insert rt p actor post ≡ (
          not (member actor p.blocked_dids)
          && matches_post rt p post.text post.langs post.has_embed)
  unfolding should_insert matches_post
  should_insert-matches_post actor post p = ground arith

  -- A pipeline that `NewPipeline` returned inserts a post exactly when the author is not blocked
  -- and the post passes the media requirement, the language requirement and the keyword rule that
  -- the arguments of `NewPipeline` state.
  pub should_insert_iff :
      (p : Pipeline S)
      → new_pipeline rt name keywords exclude_keywords context_keywords context_words block_dids
          languages require_media store
        ≡ ok p
      → (actor : Text) (post : FeedPost)
      → (should_insert rt p actor post ≡ true) ↔ (
          (¬ Memᴰ actor block_dids)
          × Suits rt keywords exclude_keywords context_keywords context_words languages
              require_media post)
  should_insert_iff p made actor post =
      rw
        (
          new_pipeline_ok rt name keywords exclude_keywords context_keywords context_words
              block_dids languages require_media store p made,
          should_insert-matches_post,
        )
        (
          λ h.
              let (free, m) = and_split _ _ h in
              (
                λ b. let f = (member_iff actor block_dids).1 b in ground arith,
                (matches_post_iff_built post).0 m,
              ),
          λ (free, w).
              let f : member actor block_dids ≡ false =
                not-true (λ e. free ((member_iff actor block_dids).0 e)) in
              rw f ((matches_post_iff_built post).1 w),
        )

  -- For a pipeline that `NewPipeline` returned, `MatchesPost`, by which the purge judges the stored
  -- posts, is the rule for inserting a post without the check of the author against the block list.
  pub matches_post_iff :
      (p : Pipeline S)
      → new_pipeline rt name keywords exclude_keywords context_keywords context_words block_dids
          languages require_media store
        ≡ ok p
      → (post : FeedPost)
      → (matches_post rt p post.text post.langs post.has_embed ≡ true)
        ↔ Suits rt keywords exclude_keywords context_keywords context_words languages require_media
            post
  matches_post_iff p made post =
      rw
        (new_pipeline_ok rt name keywords exclude_keywords context_keywords context_words block_dids
          languages require_media store p made)
        (matches_post_iff_built post)

-- ===== src/Pipeline/Build.antt =====
-- `Pipeline` and `NewPipeline` of subscription/subscription.go.
use baldsky.Common.{
  Text, Bool, List, [], ◌∷◌, map, ℕ, Result, ok, err, ◌>>=◌, Error, Option, if◌then◌else◌,
}
use baldsky.Pipeline.Regexp.{Regexp, keyword_pattern}

-- What Go's standard library fixes by tables and internal limits: `unicode.ToLower`, and whether
-- `regexp.Compile` accepts the pattern of a keyword (it refuses one that is too large).
pub record Runtime : Type 0 where
  pub to_lower_rune : ℕ → ℕ
  pub regexp_fits : Text → Bool

-- `strings.ToLower`.
abbrev pub to_lower : Runtime → Text → Text
to_lower rt s = map rt.to_lower_rune s

-- The interface `PipelineStore`, over the state `S` that its calls change.
pub record PipelineStore (S : Type 0) : Type 0 where
  pub insert_post : Text → Text → Text → S → S × Option Error
  pub delete_posts : List Text → S → S × Option Error

-- A Go set of strings is the list of its members, looked up by `member`.
pub record Pipeline (S : Type 0) : Type 0 where
  pub name : Text
  pub keywords : List Text
  pub exclude_keywords : List Text
  pub context_keywords : List Text
  pub context_words : List Text
  pub keyword_regexps : List Regexp
  pub exclude_regexps : List Regexp
  pub context_keyword_regexps : List Regexp
  pub context_word_regexps : List Regexp
  pub languages : List Text
  pub blocked_dids : List Text
  pub require_media : Bool
  pub store : PipelineStore S

pub data BuildError : Type 0 where
  keyword_regexp : Text → BuildError
  exclude_keyword_regexp : Text → BuildError
  context_keyword_regexp : Text → BuildError
  context_word_regexp : Text → BuildError

compile : Runtime → (Text → BuildError) → Text → Result BuildError Regexp
compile rt wrap kw = if rt.regexp_fits kw then ok (keyword_pattern kw) else err (wrap kw)

unfoldable pub compile_all :
    Runtime → (Text → BuildError) → List Text → Result BuildError (List Regexp)
unfolding compile
compile_all rt wrap [] = ok []
compile_all rt wrap (kw ∷ kws) = do
  re ← compile rt wrap kw
  res ← compile_all rt wrap kws
  ok (re ∷ res)

unfoldable pub new_pipeline :
    {S : Type 0}
    → Runtime
    → (name : Text) (keywords exclude_keywords context_keywords context_words : List Text)
      (block_dids languages : List Text) (require_media : Bool)
    → PipelineStore S
    → Result BuildError (Pipeline S)
new_pipeline rt name keywords exclude_keywords context_keywords context_words block_dids languages
      require_media store =
    do
      let lower_kw = map (to_lower rt) keywords
      let lower_exclude = map (to_lower rt) exclude_keywords
      kw_regexps ← compile_all rt keyword_regexp lower_kw
      exclude_regexps ← compile_all rt exclude_keyword_regexp lower_exclude
      let lower_ctx_kw = map (to_lower rt) context_keywords
      ctx_kw_regexps ← compile_all rt context_keyword_regexp lower_ctx_kw
      let lower_ctx_w = map (to_lower rt) context_words
      ctx_w_regexps ← compile_all rt context_word_regexp lower_ctx_w
      let langs = map (to_lower rt) languages
      ok (record {
        name = name;
        keywords = lower_kw;
        exclude_keywords = lower_exclude;
        context_keywords = lower_ctx_kw;
        context_words = lower_ctx_w;
        keyword_regexps = kw_regexps;
        exclude_regexps = exclude_regexps;
        context_keyword_regexps = ctx_kw_regexps;
        context_word_regexps = ctx_w_regexps;
        languages = langs;
        blocked_dids = block_dids;
        require_media = require_media;
        store = store;
      })

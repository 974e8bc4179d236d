-- ===== src/Serve.antt =====
-- What `serve` of cmd/serve.go makes of the configured pipelines: the feeds that are served and the
-- pipelines that fill them.
pub mod Roles
pub mod Wiring
pub mod Tests
use baldsky.Common.{
  Text, List, [], ◌∷◌, Bool, true, false, not, Result, ok, err, ◌>>=◌, >>=-eq-ok, if◌then◌else◌,
  map, filter, ◌≡◌, refl, ap, Bool-cases, inl, inr,
}
use baldsky.Config.{PipelineConfig}
use baldsky.Feed.Service.{FeedEntry}
use baldsky.Pipeline.Build.{Runtime, Pipeline, PipelineStore, BuildError, new_pipeline}
use baldsky.Pipeline.Rule.{built, new_pipeline_ok}

abbrev pub entry_of : PipelineConfig → FeedEntry
entry_of p = record {
  short_name = p.short_name;
  display_name = p.display_name;
  description = p.description;
  collection_name = p.collection_name;
  link_label = p.link_label;
  link_url = p.link_url;
}

-- The loop of `serve` over the configured pipelines.
unfoldable pub feed_entries : List PipelineConfig → List FeedEntry
feed_entries [] = []
feed_entries (p ∷ ps) = if not p.enabled then feed_entries ps else entry_of p ∷ feed_entries ps

module _ {S : Type 0} (rt : Runtime) (store : PipelineStore S) where
  unfoldable pub pipeline_of : PipelineConfig → Result BuildError (Pipeline S)
  pipeline_of p =
      new_pipeline rt p.short_name p.keywords p.exclude_keywords p.context_keywords p.context_words
        p.block_dids p.languages p.require_media store

  abbrev pub add_pipeline :
      Result BuildError (Pipeline S)
      → Result BuildError (List (Pipeline S))
      → Result BuildError (List (Pipeline S))
  add_pipeline made rest = do pipeline ← made; pipelines ← rest; ok (pipeline ∷ pipelines)

  -- `buildPipelines`.
  unfoldable pub build_pipelines : List PipelineConfig → Result BuildError (List (Pipeline S))
  unfolding pipeline_of
  build_pipelines [] = ok []
  build_pipelines (p ∷ ps) =
      let rest = build_pipelines ps in
      if not p.enabled then rest else add_pipeline (pipeline_of p) rest

  pipeline_of_name :
      (p : PipelineConfig) (made : Pipeline S) → pipeline_of p ≡ ok made → made.name ≡ p.short_name
  unfolding pipeline_of
  pipeline_of_name p made h =
      ap (λ q. q.name)
        (new_pipeline_ok rt p.short_name p.keywords p.exclude_keywords p.context_keywords
          p.context_words p.block_dids p.languages p.require_media store made h)

  -- If the pipelines of a configuration can be built, their names are the short names of the feeds
  -- that are served, in the same order.
  pub build_pipelines-feed_entries :
      (ps : List PipelineConfig) (pipelines : List (Pipeline S))
      → build_pipelines ps ≡ ok pipelines
      → map (λ q. q.name) pipelines ≡ map (λ e. e.short_name) (feed_entries ps)
  unfolding build_pipelines feed_entries
  build_pipelines-feed_entries [] pipelines h = cc
  build_pipelines-feed_entries (p ∷ ps) pipelines h = elim (Bool-cases p.enabled) [
    | inr off ↦ simp off (build_pipelines-feed_entries ps pipelines (simp off at h))
    | inl on ↦
        let (made, first, next) =
          >>=-eq-ok (pipeline_of p) (λ q. build_pipelines ps >>= λ qs. ok (q ∷ qs))
            (simp on at h) in
        let (rest, others, last) = >>=-eq-ok (build_pipelines ps) (λ qs. ok (made ∷ qs)) next in
        let ih = build_pipelines-feed_entries ps rest others in
        let name = pipeline_of_name p made first in simp on (cc (ih, name, last))
  ]

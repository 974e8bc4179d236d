-- ===== src/Purge/DryRun.antt =====
-- The purge of cmd/purge.go with the flag `--dry-run`.
use baldsky.Common.{
  Text, List, [], ◌∷◌, Option, none, some, true, Result, ok, err, ℕ, ◌≡◌, refl, Bool-cases, inl,
  inr, All, All-append,
}
use baldsky.Config.{Config, PipelineConfig}
use baldsky.Db.Tables.{Collation}
use baldsky.Pipeline.Build.{Runtime, Pipeline, PipelineStore, BuildError}
use baldsky.Serve.{pipeline_of}
use baldsky.Purge.{StalePost, PurgeError, find_stale_posts}
use baldsky.Purge.Run.{
  Surroundings, Line, purge_stale, Outcome, and_then, after_search, with_pipeline, purge_pipelines,
  run_purge, no_stale_posts, would_delete,
}

-- A line that names no deletion.
abbrev pub Announces : Line → Type 0
Announces (no_stale_posts name) = Unit
Announces (would_delete name stale) = Unit
Announces _ = ⊥

module _ {W : Type 0} (out : Surroundings W) where
  -- The outcome leaves the state, and announces only.
  abbrev pub Harmless : W → Outcome out → Type 0
  Harmless w none = Unit
  Harmless w (some ((lines, e), w')) = (w' ≡ w) × All Announces lines

  and_then-Harmless :
      (w : W) (lines : List Line) (o : Outcome out)
      → All Announces lines
      → Harmless w o
      → Harmless w (and_then out lines o)
  and_then-Harmless w lines none a h = tt
  and_then-Harmless w lines (some ((more, e), w')) a h =
      (h.0, All-append Announces lines more a h.1)

  module _ {R S : Type 0} (rt : Runtime) (c : Collation) (nil : PipelineStore S) (fuel : ℕ)
      (cfg : Config R) where
    after_search-Harmless :
        (next : W → Outcome out) (name : Text) (o : Option (Result PurgeError (List StalePost)))
        (w : W)
        → Harmless w (next w)
        → Harmless w (after_search out rt c nil fuel cfg true next name o w)
    unfolding purge_stale
    after_search-Harmless next name none w h = tt
    after_search-Harmless next name (some (err e)) w h = (refl, tt)
    after_search-Harmless next name (some (ok [])) w h =
        and_then-Harmless w (no_stale_posts name ∷ []) (next w) (tt, tt) h
    after_search-Harmless next name (some (ok (sp ∷ stale))) w h =
        and_then-Harmless w (would_delete name (sp ∷ stale) ∷ []) (next w) (tt, tt) h

    with_pipeline-Harmless :
        (next : W → Outcome out) (name : Text) (o : Result BuildError (Pipeline S)) (w : W)
        → Harmless w (next w)
        → Harmless w (with_pipeline out rt c nil fuel cfg true next name o w)
    with_pipeline-Harmless next name (err e) w h = (refl, tt)
    with_pipeline-Harmless next name (ok p) w h =
        after_search-Harmless next name
          (find_stale_posts rt p (out.get_posts w) c fuel name (out.database w)) w h

    purge_pipelines-Harmless :
        (ps : List PipelineConfig) (w : W)
        → Harmless w (purge_pipelines out rt c nil fuel cfg true ps w)
    unfolding purge_pipelines
    purge_pipelines-Harmless [] w = (refl, tt)
    purge_pipelines-Harmless (p ∷ ps) w = elim (Bool-cases p.enabled) [
      | inl e ↦ simp e (
          with_pipeline-Harmless (λ w'. purge_pipelines out rt c nil fuel cfg true ps w')
            p.short_name (pipeline_of rt nil p) w (purge_pipelines-Harmless ps w))
      | inr e ↦ simp e (purge_pipelines-Harmless ps w)
    ]

    -- A dry run sends no request, so that it leaves everything as it was, and prints only which
    -- posts it would delete, or that there are none; whether it returns an error or not.
    pub run_purge-Harmless : (w : W) → Harmless w (run_purge out rt c nil fuel cfg true w)
    unfolding run_purge
    run_purge-Harmless w = purge_pipelines-Harmless cfg.pipelines w

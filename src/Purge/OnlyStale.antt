-- ===== src/Purge/OnlyStale.antt =====
-- Which requests `runPurge` of cmd/purge.go sends.
use baldsky.Common.{
  Text, List, [], ◌∷◌, Option, none, some, Bool, true, false, Result, ok, err, ◌≡◌, refl, ℕ,
  Bool-cases, inl, inr, Memᴰ,
}
use baldsky.Config.{Config, PipelineConfig}
use baldsky.Db.Tables.{Collation}
use baldsky.Pipeline.Build.{Runtime, Pipeline, PipelineStore, BuildError}
use baldsky.Serve.{pipeline_of}
use baldsky.Purge.{StalePost, PurgeError, find_stale_posts}
use baldsky.Purge.Run.{
  Surroundings, Line, delete_request, delete_post, delete_each, summary, purge_stale, Outcome,
  and_then, after_search, with_pipeline, purge_pipelines, run_purge,
}

module _ {W : Type 0} (out : Surroundings W) (host token : Text) (Asked : Text → Type 0) where
  -- Some deletions are sent, each of a URI that may be asked for.
  pub data Sent : W → W → Type 0 where
    nothing : (w : W) → Sent w w
    send_one :
        (w : W) (uri : Text) {w' : W}
        → Asked uri
        → Sent (out.send (delete_request host token uri) w).1 w'
        → Sent w w'

  Sent-trans : {w v u : W} → Sent w v → Sent v u → Sent w u
  Sent-trans (nothing w) t = t
  Sent-trans (send_one w uri a s) t = send_one w uri a (Sent-trans s t)

  -- The outcome is reached by such deletions.
  abbrev pub Reaches : W → Outcome out → Type 0
  Reaches w none = Unit
  Reaches w (some ((lines, e), w')) = Sent w w'

  and_then-Reaches :
      (w v : W) (lines : List Line) (o : Outcome out)
      → Sent w v
      → Reaches v o
      → Reaches w (and_then out lines o)
  and_then-Reaches w v lines none s r = tt
  and_then-Reaches w v lines (some ((more, e), u)) s r = Sent-trans s r

  delete_each-Sent :
      (name : Text) (stale : List StalePost) (w : W)
      → ((sp : StalePost) → Memᴰ sp stale → Asked sp.uri)
      → Sent w (delete_each out host token name stale w).1
  unfolding delete_each delete_post
  delete_each-Sent name [] w may = nothing w
  delete_each-Sent name (sp ∷ stale) w may = send_one w sp.uri (may sp (Memᴰ.head refl)) (
      delete_each-Sent name stale (out.send (delete_request host token sp.uri) w).1
        (λ q m. may q (Memᴰ.tail m)))

  summary_state :
      (name : Text) (total : ℕ) (o : (List Line × ℕ) × W) → (summary out name total o).1 ≡ o.1
  summary_state name total ((lines, n), w) = refl

  purge_stale-Sent :
      (dry_run : Bool) (name : Text) (stale : List StalePost) (w : W)
      → ((sp : StalePost) → Memᴰ sp stale → Asked sp.uri)
      → Sent w (purge_stale out dry_run host token name stale w).1
  unfolding purge_stale
  purge_stale-Sent dry_run name [] w may = nothing w
  purge_stale-Sent true name (sp ∷ stale) w may = nothing w
  purge_stale-Sent false name (sp ∷ stale) w may =
      rw (summary_state name _ (delete_each out host token name (sp ∷ stale) w))
        (delete_each-Sent name (sp ∷ stale) w may)

module _ {W R S : Type 0} (out : Surroundings W) (rt : Runtime) (c : Collation)
    (nil : PipelineStore S) (fuel : ℕ) (cfg : Config R) (dry_run : Bool) where
  -- In some state, a search with an enabled pipeline of the configuration found the post stale.
  pub record FoundStale (uri : Text) : Type 0 where
    pub config : PipelineConfig
    pub configured : Memᴰ config cfg.pipelines
    pub enabled : config.enabled ≡ true
    pub pipeline : Pipeline S
    pub built : pipeline_of rt nil config ≡ ok pipeline
    pub state : W
    pub stale : List StalePost
    pub found :
        find_stale_posts rt pipeline
          (out.get_posts state)
          c
          fuel
          config.short_name
          (out.database state)
        ≡ some (ok stale)
    pub post : StalePost
    pub in_stale : Memᴰ post stale
    pub named : post.uri ≡ uri

  abbrev pub OnlyStale : W → Outcome out → Type 0
  OnlyStale w o = Reaches out cfg.server.hostname cfg.server.admin_token FoundStale w o

  module _ (p : PipelineConfig) (is_configured : Memᴰ p cfg.pipelines) (on : p.enabled ≡ true)
      (next : W → Outcome out) (rest : (v : W) → OnlyStale v (next v)) where
    after_search-OnlyStale :
        (pl : Pipeline S) (w : W)
        → pipeline_of rt nil p ≡ ok pl
        → (o : Option (Result PurgeError (List StalePost)))
        → find_stale_posts rt pl (out.get_posts w) c fuel p.short_name (out.database w) ≡ o
        → OnlyStale w (after_search out rt c nil fuel cfg dry_run next p.short_name o w)
    after_search-OnlyStale pl w made none e = tt
    after_search-OnlyStale pl w made (some (err x)) e = nothing w
    after_search-OnlyStale pl w made (some (ok stale)) e =
        and_then-Reaches out cfg.server.hostname cfg.server.admin_token FoundStale w
          (purge_stale out dry_run cfg.server.hostname cfg.server.admin_token p.short_name stale
            w).1
          _ (next _)
          (purge_stale-Sent out cfg.server.hostname cfg.server.admin_token FoundStale dry_run
            p.short_name stale w
            (λ sp m. record {
              config = p;
              configured = is_configured;
              enabled = on;
              pipeline = pl;
              built = made;
              state = w;
              stale = stale;
              found = e;
              post = sp;
              in_stale = m;
              named = refl;
            }))
          (rest _)

    with_pipeline-OnlyStale :
        (o : Result BuildError (Pipeline S)) (w : W)
        → pipeline_of rt nil p ≡ o
        → OnlyStale w (with_pipeline out rt c nil fuel cfg dry_run next p.short_name o w)
    with_pipeline-OnlyStale (err e) w made = nothing w
    with_pipeline-OnlyStale (ok pl) w made =
        after_search-OnlyStale pl w made
          (find_stale_posts rt pl (out.get_posts w) c fuel p.short_name (out.database w)) refl

  purge_pipelines-OnlyStale :
      (ps : List PipelineConfig) (w : W)
      → ((p : PipelineConfig) → Memᴰ p ps → Memᴰ p cfg.pipelines)
      → OnlyStale w (purge_pipelines out rt c nil fuel cfg dry_run ps w)
  unfolding purge_pipelines
  purge_pipelines-OnlyStale [] w sub = nothing w
  purge_pipelines-OnlyStale (p ∷ ps) w sub = elim (Bool-cases p.enabled) [
    | inl e ↦ simp e (
        with_pipeline-OnlyStale p (sub p (Memᴰ.head refl)) e
          (λ w'. purge_pipelines out rt c nil fuel cfg dry_run ps w')
          (λ v. purge_pipelines-OnlyStale ps v (λ q m. sub q (Memᴰ.tail m))) (pipeline_of rt nil p)
          w refl)
    | inr e ↦ simp e (purge_pipelines-OnlyStale ps w (λ q m. sub q (Memᴰ.tail m)))
  ]

  -- Whether it returns an error or not, and whatever the database, the API and the server answer, the
  -- purge sends nothing but deletions, with the configured host and token, of posts that a search with
  -- an enabled pipeline of the configuration found stale.
  pub run_purge-OnlyStale : (w : W) → OnlyStale w (run_purge out rt c nil fuel cfg dry_run w)
  unfolding run_purge
  run_purge-OnlyStale w = purge_pipelines-OnlyStale cfg.pipelines w (λ p m. m)

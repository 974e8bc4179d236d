-- ===== src/Purge/Run.antt =====
-- `runPurge` and `deletePost` of cmd/purge.go, once the configuration is read and the database is
-- connected.
use baldsky.Common.{
  Text, List, [], ◌∷◌, ◌++◌, Option, none, some, Bool, not, ◌||◌, Result, ok, err, Error, ℕ, ◌+◌,
  ◌==◌, length, is_empty, codes, if◌then◌else◌,
}
use baldsky.Common.Utf8.{to_bytes, escape}
use baldsky.Config.{Config, PipelineConfig}
use baldsky.Db.Tables.{Collation, Database}
use baldsky.Ingest.Uri.{is_alphanumeric, one_of}
use baldsky.Pipeline.Build.{Runtime, Pipeline, PipelineStore, BuildError}
use baldsky.Serve.{pipeline_of}
use baldsky.Purge.{StalePost, GetPosts, PurgeError, find_stale_posts}

pub record HttpRequest : Type 0 where
  pub method : Text
  pub url : Text
  pub authorization : Text

-- What lies outside the command, over its state `W`: the rows that the database holds, the API of
-- Bluesky, and the HTTP client, which builds and sends a request and gives the status.
pub record Surroundings (W : Type 0) : Type 0 where
  pub database : W → Database
  pub get_posts : W → GetPosts
  pub send : HttpRequest → W → Result Error ℕ × W

plain_in_segment : ℕ → Bool
plain_in_segment c = is_alphanumeric c || one_of (codes "-_.~") c || one_of (codes "$&+:=@") c

-- `url.PathEscape`.
unfoldable pub path_escape : Text → Text
unfolding plain_in_segment
path_escape s = escape plain_in_segment (to_bytes s)

-- `strings.TrimRight(s, "/")`.
unfoldable pub trim_slashes : Text → Text
trim_slashes [] = []
trim_slashes (c ∷ s) =
    let rest = trim_slashes s in
    if is_empty rest then (if c == b'/' then [] else c ∷ []) else c ∷ rest

unfoldable pub delete_request : Text → Text → Text → HttpRequest
unfolding path_escape trim_slashes
delete_request host token post_uri = record {
  method = codes "DELETE";
  url = trim_slashes host ++ (codes "/admin/posts/" ++ path_escape post_uri);
  authorization = codes "Bearer " ++ token;
}

pub data DeleteError : Type 0 where
  not_sent : Error → DeleteError
  server_returned : ℕ → DeleteError

abbrev pub status_error : Result Error ℕ → Option DeleteError
status_error (err e) = some (not_sent e)
status_error (ok status) = if status == 204 then none else some (server_returned status)

-- What the command prints.
pub data Line : Type 0 where
  no_stale_posts : Text → Line
  would_delete : Text → List StalePost → Line
  failed_to_delete : Text → Text → DeleteError → Line
  deleted : Text → Text → Line
  deleted_of : Text → ℕ → ℕ → Line

pub data RunError : Type 0 where
  building_pipeline : Text → BuildError → RunError
  purging_pipeline : Text → PurgeError → RunError

module _ {W : Type 0} (out : Surroundings W) where
  unfoldable pub delete_post : Text → Text → Text → W → Option DeleteError × W
  delete_post host token post_uri w =
      let (answer, w') = out.send (delete_request host token post_uri) w in
      (status_error answer, w')

  abbrev pub noted : Text → Text → Option DeleteError → List Line × ℕ → List Line × ℕ
  noted name uri (some e) (lines, n) = (failed_to_delete name uri e ∷ lines, n)
  noted name uri none (lines, n) = (deleted name uri ∷ lines, n + 1)

  -- The loop over the stale posts: what is printed, how many were deleted.
  unfoldable pub delete_each : Text → Text → Text → List StalePost → W → (List Line × ℕ) × W
  unfolding delete_post
  delete_each host token name [] w = (([], 0), w)
  delete_each host token name (sp ∷ stale) w =
      let (e, w') = delete_post host token sp.uri w in
      let (rest, w'') = delete_each host token name stale w' in (noted name sp.uri e rest, w'')

  abbrev pub summary : Text → ℕ → (List Line × ℕ) × W → List Line × W
  summary name total ((lines, n), w) = (lines ++ deleted_of name n total ∷ [], w)

  -- What is done with the stale posts of a pipeline.
  unfoldable pub purge_stale : Bool → Text → Text → Text → List StalePost → W → List Line × W
  unfolding delete_each
  purge_stale dry_run host token name [] w = (no_stale_posts name ∷ [], w)
  purge_stale dry_run host token name (sp ∷ stale) w =
      if dry_run
      then (would_delete name (sp ∷ stale) ∷ [], w)
      else summary name (length (sp ∷ stale)) (delete_each host token name (sp ∷ stale) w)

  -- The lines printed, the error returned, and the state; `none` if the fuel of a search runs out.
  abbrev pub Outcome : Type 0
  Outcome = Option ((List Line × Option RunError) × W)

  abbrev pub and_then : List Line → Outcome → Outcome
  and_then lines none = none
  and_then lines (some ((more, e), w)) = some ((lines ++ more, e), w)

  module _ {R S : Type 0} (rt : Runtime) (c : Collation) (nil : PipelineStore S) (fuel : ℕ)
      (cfg : Config R) (dry_run : Bool) where
    abbrev pub after_search :
        (W → Outcome) → Text → Option (Result PurgeError (List StalePost)) → W → Outcome
    after_search next name none w = none
    after_search next name (some (err e)) w = some (([], some (purging_pipeline name e)), w)
    after_search next name (some (ok stale)) w =
        let (lines, w') =
          purge_stale dry_run cfg.server.hostname cfg.server.admin_token name stale w in
        and_then lines (next w')

    abbrev pub with_pipeline : (W → Outcome) → Text → Result BuildError (Pipeline S) → W → Outcome
    with_pipeline next name (err e) w = some (([], some (building_pipeline name e)), w)
    with_pipeline next name (ok pipeline) w =
        after_search next name
          (find_stale_posts rt pipeline (out.get_posts w) c fuel name (out.database w)) w

    -- The loop over the configured pipelines, whose store is nil.
    unfoldable pub purge_pipelines : List PipelineConfig → W → Outcome
    unfolding purge_stale
    purge_pipelines [] w = some (([], none), w)
    purge_pipelines (p ∷ ps) w =
        if not p.enabled
        then purge_pipelines ps w
        else with_pipeline (λ w'. purge_pipelines ps w') p.short_name (pipeline_of rt nil p) w

    unfoldable pub run_purge : W → Outcome
    unfolding purge_pipelines
    run_purge w = purge_pipelines cfg.pipelines w

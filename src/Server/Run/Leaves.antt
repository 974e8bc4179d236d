-- ===== src/Server/Run/Leaves.antt =====
-- What the handlers of server/server.go leave of the posts and of the channel of views.
use baldsky.Common.{
  Text, List, [], ◌∷◌, Option, none, some, true, ℤ, Error, Result, ok, err, text_eq_iff, is_empty,
  ◌≡◌, refl, inl, inr, Bool-cases,
}
use baldsky.Db.Tables.{Collation, Database, PostRow}
use baldsky.Feed.Skeleton.{
  FeedError, unknown_feed, invalid_cursor, get_feed_page_error, FeedResponse, get_feed_page,
  resolve,
}
use baldsky.Feed.Store
use baldsky.Feed.Views.{FeedStatsResponse, get_feed_stats}
use baldsky.RateLimiter.{RatePackage}
use baldsky.Server.Types.{
  Request, Response, Route, did_json, healthz, describe_feed_generator, get_feed_skeleton,
  admin_delete_post, admin_feed_metrics, Server, World,
}
use baldsky.Server.Handlers.{
  skeleton_response, handle_get_feed_skeleton, deleted, handle_delete_post, stats_response,
  handle_get_feed_metrics,
}
use baldsky.Server.Middleware.{route_handler, serve}
use baldsky.Server.Access.{bearer, admitted, counted, serve_limited, serve_admin, serve-admitted}
use baldsky.Server.Run.Spared.{
  Spared, Spared-same, Roomy, count_view-Roomy, serve_feed_post, get_feed_stats_post,
  delete_post-Spared,
}
use baldsky.Server.Run.{asked_by}

-- What a handler leaves of the posts and of the views.
pub record Handled (s : Server) (asked : List Text) (posts posts' : List PostRow)
    (views views' : List Text) : Type 0 where
  pub spared : Spared asked posts posts'
  pub roomy : Roomy s views → Roomy s views'

posts_same :
    {s : Server} {posts posts' : List PostRow} {views views' : List Text} (asked : List Text)
    → posts' ≡ posts
    → views' ≡ views
    → Handled s asked posts posts' views views'
posts_same asked e f = record { spared = Spared-same asked _ _ e; roomy = λ h. rw f h }

module _ {R L : Type 0} (s : Server) where
  -- A handler, from a world to the world.
  abbrev pub Leaves : List Text → World R L → World R L × Response → Type 0
  Leaves asked w o = Handled s asked w.db.post o.0.db.post w.views o.0.views

  skeleton-Leaves :
      (feed_uri : Text) (w : World R L) (o : Result FeedError FeedResponse × Database)
      → o.1.post ≡ w.db.post
      → Leaves [] w (skeleton_response s feed_uri w o)
  skeleton-Leaves feed_uri w (err unknown_feed, db) e = posts_same [] e refl
  skeleton-Leaves feed_uri w (err invalid_cursor, db) e = posts_same [] e refl
  skeleton-Leaves feed_uri w (err (get_feed_page_error x), db) e = posts_same [] e refl
  skeleton-Leaves feed_uri w (ok resp, db) e = record {
    spared = Spared-same [] w.db.post db.post e;
    roomy = λ h. count_view-Roomy s s.metrics feed_uri w.views refl h;
  }

  get_feed_skeleton-Leaves :
      (c : Collation) (r : Request) (w : World R L) → Leaves [] w (handle_get_feed_skeleton c s r w)
  unfolding handle_get_feed_skeleton get_feed_page
  get_feed_skeleton-Leaves c r w = elim (Bool-cases (is_empty r.feed)) [
    | inl e ↦ rw e (posts_same [] refl refl)
    | inr e ↦ rw e (
        skeleton-Leaves r.feed w (get_feed_page c s.svc r.limit r.feed r.cursor w.db)
          (serve_feed_post c s.svc r.limit (resolve s.svc r.feed) r.cursor w.db))
  ]

  stats-Leaves :
      (w : World R L) (o : Result Error FeedStatsResponse × Database)
      → o.1.post ≡ w.db.post
      → Leaves [] w (stats_response w o)
  stats-Leaves w (err x, db) e = posts_same [] e refl
  stats-Leaves w (ok stats, db) e = posts_same [] e refl

  get_feed_metrics-Leaves :
      (feed_name : Text) (w : World R L) → Leaves [] w (handle_get_feed_metrics feed_name w)
  unfolding handle_get_feed_metrics
  get_feed_metrics-Leaves feed_name w = elim (Bool-cases (is_empty feed_name)) [
    | inl e ↦ rw e (posts_same [] refl refl)
    | inr e ↦
        rw e (stats-Leaves w (get_feed_stats feed_name w.db) (get_feed_stats_post feed_name w.db))
  ]

  deleted_world :
      (w : World R L) (o : Database × Option Error) → (deleted w o).0 ≡ record w { db = o.0 }
  deleted_world w (db, some e) = refl
  deleted_world w (db, none) = refl

  delete_post-Leaves : (uri : Text) (w : World R L) → Leaves (uri ∷ []) w (handle_delete_post uri w)
  unfolding handle_delete_post
  delete_post-Leaves uri w = elim (Bool-cases (is_empty uri)) [
    | inl e ↦ rw e (posts_same (uri ∷ []) refl refl)
    | inr e ↦
        rw (e, deleted_world w (Store.delete_post uri w.db))
          (record { spared = delete_post-Spared uri w.db; roomy = λ h. h })
  ]

  module _ (pkg : RatePackage R L) (c : Collation) (now : ℤ) where
    admitted-Leaves :
        (route : Route) (r : Request) (w : World R L)
        → admitted pkg c s now r w ≡ true
        → Leaves (asked_by s route r) w (serve pkg c s now route r w)
    unfolding route_handler
    admitted-Leaves did_json r w h =
        rw (serve-admitted pkg c s now did_json r w h) (posts_same [] refl refl)
    admitted-Leaves healthz r w h =
        rw (serve-admitted pkg c s now healthz r w h) (posts_same [] refl refl)
    admitted-Leaves describe_feed_generator r w h =
        rw (serve-admitted pkg c s now describe_feed_generator r w h) (posts_same [] refl refl)
    admitted-Leaves get_feed_skeleton r w h =
        rw (serve-admitted pkg c s now get_feed_skeleton r w h)
          (get_feed_skeleton-Leaves c r (counted pkg c s now r w))
    admitted-Leaves (admin_delete_post uri) r w h = elim (serve_admin pkg c s now uri r w h) [
      | inl (same, e, f) ↦
          rw (e, (text_eq_iff r.authorization (bearer s)).1 same)
            (delete_post-Leaves uri (counted pkg c s now r w))
      | inr (other, e, f) ↦ rw e (posts_same _ refl refl)
    ]
    admitted-Leaves (admin_feed_metrics feed_name) r w h =
        elim (serve_admin pkg c s now feed_name r w h) [
          | inl (same, e, f) ↦ rw f (get_feed_metrics-Leaves feed_name (counted pkg c s now r w))
          | inr (other, e, f) ↦ rw f (posts_same [] refl refl)
        ]

    pub serve-Leaves :
        (route : Route) (r : Request) (w : World R L)
        → Leaves (asked_by s route r) w (serve pkg c s now route r w)
    serve-Leaves route r w = elim (Bool-cases (admitted pkg c s now r w)) [
      | inl e ↦ admitted-Leaves route r w e
      | inr e ↦ rw (serve_limited pkg c s now route r w e) (posts_same _ refl refl)
    ]

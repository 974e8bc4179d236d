-- ===== src/Server/Limited.antt =====
-- Which requests the HTTP server of server/server.go answers with the status of its rate limiter.
use baldsky.Common.{
  Text, Option, none, some, Bool, true, false, ok, err, Result, Error, ℤ, is_empty, if◌then◌else◌,
  arith, ◌≡◌, refl, ◌≢◌, ◌↔◌, Bool-cases, inl, inr,
}
use baldsky.Db.Tables.{Collation, Database}
use baldsky.RateLimiter.{RatePackage}
use baldsky.Feed.Skeleton.{
  FeedError, unknown_feed, invalid_cursor, get_feed_page_error, FeedResponse,
}
use baldsky.Feed.Views.{FeedStatsResponse}
use baldsky.Common.{codes, cut_prefix, not, ℕ}
use baldsky.Feed.Service.{get_did_document}
use baldsky.Server.Types.{
  no_body, error_body, did_document, Response, Request, Route, did_json, healthz,
  describe_feed_generator, get_feed_skeleton, admin_delete_post, admin_feed_metrics, Server, World,
}
use baldsky.Server.Handlers.{
  respond, handle_did_document, handle_healthz, handle_describe_feed_generator,
  handle_get_feed_skeleton, handle_delete_post, handle_get_feed_metrics, skeleton_response, deleted,
  stats_response,
}
use baldsky.Server.Middleware.{with_bearer_auth, token_matches, route_handler, serve}
use baldsky.Server.Access.{admitted, counted, serve_limited, serve-admitted}

module _ {R L : Type 0} where
  -- The answer is not that of the rate limiter.
  abbrev Own : World R L × Response → Type 0
  Own o = o.1.status ≢ 429

  either-Own : (b : Bool) (x y : World R L × Response) → Own x → Own y → Own (if b then x else y)
  either-Own true x y h k = h
  either-Own false x y h k = k

  skeleton_response-Own :
      (s : Server) (uri : Text) (w : World R L) (o : Result FeedError FeedResponse × Database)
      → Own (skeleton_response s uri w o)
  skeleton_response-Own s uri w (err unknown_feed, db) = λ e. omega arith
  skeleton_response-Own s uri w (err invalid_cursor, db) = λ e. omega arith
  skeleton_response-Own s uri w (err (get_feed_page_error x), db) = λ e. omega arith
  skeleton_response-Own s uri w (ok resp, db) = λ e. omega arith

  get_feed_skeleton-Own :
      (c : Collation) (s : Server) (r : Request) (w : World R L)
      → Own (handle_get_feed_skeleton c s r w)
  unfolding handle_get_feed_skeleton
  get_feed_skeleton-Own c s r w =
      either-Own (is_empty r.feed) _ _ (λ e. omega arith) (skeleton_response-Own s r.feed w _)

  deleted-Own : (w : World R L) (o : Database × Option Error) → Own (deleted w o)
  deleted-Own w (db, some x) = λ e. omega arith
  deleted-Own w (db, none) = λ e. omega arith

  delete_post-Own : (uri : Text) (w : World R L) → Own (handle_delete_post uri w)
  unfolding handle_delete_post
  delete_post-Own uri w = either-Own (is_empty uri) _ _ (λ e. omega arith) (deleted-Own w _)

  stats_response-Own :
      (w : World R L) (o : Result Error FeedStatsResponse × Database) → Own (stats_response w o)
  stats_response-Own w (err x, db) = λ e. omega arith
  stats_response-Own w (ok stats, db) = λ e. omega arith

  get_feed_metrics-Own : (name : Text) (w : World R L) → Own (handle_get_feed_metrics name w)
  unfolding handle_get_feed_metrics
  get_feed_metrics-Own name w =
      either-Own (is_empty name) _ _ (λ e. omega arith) (stats_response-Own w _)

  with_bearer_auth-Own :
      (s : Server) (next : Request → World R L → World R L × Response) (r : Request) (w : World R L)
      → Own (next r w)
      → Own (with_bearer_auth s next r w)
  unfolding with_bearer_auth
  with_bearer_auth-Own s next r w h =
      either-Own (not (token_matches s.admin_token (cut_prefix r.authorization (codes "Bearer "))))
        (w, respond 401 (error_body (codes "unauthorized"))) (next r w) (λ e. omega arith) h

  did_document-Own : (s : Server) (w : World R L) → Own (w, handle_did_document s)
  unfolding handle_did_document
  did_document-Own s w = of_host _
    where
      of_host :
          (b : Bool)
          → (if b
              then respond 404 no_body
              else respond 200 (did_document (get_did_document s.svc))).status
            ≢ 429
      of_host true = λ e. omega arith
      of_host false = λ e. omega arith

  healthz-Own : (s : Server) (w : World R L) → Own (w, handle_healthz s w.ping)
  unfolding handle_healthz
  healthz-Own s w = of_state _ _ refl
    where
      of_state : (b : Bool) (n : ℕ) → n ≡ (if b then 503 else 200) → n ≢ 429
      of_state true n h = omega (arith, h)
      of_state false n h = omega (arith, h)

  route_handler-Own :
      (c : Collation) (s : Server) (route : Route) (r : Request) (w : World R L)
      → Own (route_handler c s route r w)
  unfolding route_handler handle_describe_feed_generator
  route_handler-Own c s did_json r w = did_document-Own s w
  route_handler-Own c s healthz r w = healthz-Own s w
  route_handler-Own c s describe_feed_generator r w = λ e. omega arith
  route_handler-Own c s get_feed_skeleton r w = get_feed_skeleton-Own c s r w
  route_handler-Own c s (admin_delete_post uri) r w =
      with_bearer_auth-Own s (λ r' w'. handle_delete_post uri w') r w (delete_post-Own uri w)
  route_handler-Own c s (admin_feed_metrics name) r w =
      with_bearer_auth-Own s (λ r' w'. handle_get_feed_metrics name w') r w
        (get_feed_metrics-Own name w)

  -- On every route, a request is answered 429 exactly if the rate limiter refuses it: no handler and
  -- no other middleware answers so. Then the database and the views are as they were.
  pub serve_limited_iff :
      (pkg : RatePackage R L) (c : Collation) (s : Server) (now : ℤ) (route : Route) (r : Request)
      (w : World R L)
      → (((serve pkg c s now route r w).1.status ≡ 429) ↔ (admitted pkg c s now r w ≡ false))
        × ((serve pkg c s now route r w).1.status ≡ 429
            → ((serve pkg c s now route r w).0.db ≡ w.db)
              × ((serve pkg c s now route r w).0.views ≡ w.views))
  serve_limited_iff pkg c s now route r w = elim (Bool-cases (admitted pkg c s now r w)) [
    | inl e ↦
        let own = route_handler-Own c s route r (counted pkg c s now r w) in
        rw (serve-admitted pkg c s now route r w e)
          ((λ q. absurd (own q), λ q. cc), λ q. absurd (own q))
    | inr e ↦ rw (serve_limited pkg c s now route r w e) ((λ q. e, λ q. refl), λ q. (refl, refl))
  ]

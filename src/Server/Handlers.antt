-- ===== src/Server/Handlers.antt =====
-- The handlers of server/server.go.
use baldsky.Common.{
  Text, List, [], ◌∷◌, Option, none, some, Bool, true, false, not, ◌&&◌, ◌||◌, if◌then◌else◌, ℕ,
  ltb, length, codes, is_empty, split, trim_prefix, Result, ok, err, Error, text_eq, drop, ◌-◌,
}
use baldsky.Db.Tables.{Collation, Database}
use baldsky.Feed.Service.{get_did_document, get_feed_description}
use baldsky.Feed.Skeleton.{
  FeedError, unknown_feed, invalid_cursor, get_feed_page_error, FeedResponse, get_feed_page,
}
use baldsky.Feed.Store
use baldsky.Feed.Views.{FeedStatsResponse, record_view, get_feed_stats}
use baldsky.Server.Types.{
  Body, no_body, error_body, did_document, description, skeleton, health, feed_stats, Response,
  Request, Server, World,
}

abbrev pub respond : ℕ → Body → Response
respond status body = record { status = status; body = body }

abbrev pub server_error : Response
server_error = respond 500 (error_body (codes "internal server error"))

-- `strings.HasSuffix`.
unfoldable pub has_suffix : Text → Text → Bool
has_suffix s suffix =
    if ltb (length s) (length suffix)
    then false
    else text_eq (drop (length s - length suffix) s) suffix

-- `handleDIDDocument`.
unfoldable pub handle_did_document : Server → Response
unfolding has_suffix get_did_document
handle_did_document s =
    let doc = get_did_document s.svc in
    if not (has_suffix doc.id s.svc.hostname)
    then respond 404 no_body
    else respond 200 (did_document doc)

unfoldable pub handle_describe_feed_generator : Server → Response
handle_describe_feed_generator s = respond 200 (description (get_feed_description s.svc))

abbrev pub is_connected : Option Bool → Bool
is_connected none = false
is_connected (some connected) = connected

abbrev pub is_set : Option Bool → Bool
is_set none = false
is_set (some connected) = true

abbrev pub has_workers : List Bool → Bool
has_workers [] = false
has_workers (w ∷ ws) = true

-- The loop over the workers, which leaves at the first that is not connected.
abbrev pub no_worker_down : List Bool → Bool
no_worker_down [] = true
no_worker_down (w ∷ ws) = if not w then false else no_worker_down ws

-- `healthz`.
unfoldable pub handle_healthz : Server → Bool → Response
handle_healthz s db_ok =
    let fh_ok = is_connected s.firehose in
    let w_ok = has_workers s.workers && no_worker_down s.workers in
    let down =
      not db_ok || ((not fh_ok && not w_ok) && (is_set s.firehose || has_workers s.workers)) in
    respond (if down then 503 else 200) (health db_ok fh_ok w_ok)

abbrev last_of_three : List Text → Text
last_of_three (a ∷ b ∷ c ∷ []) = c
last_of_three _ = []

-- `extractFeedName`.
unfoldable pub extract_feed_name : Text → Text
extract_feed_name feed_uri = last_of_three (split b'/' (trim_prefix feed_uri (codes "at://")))

abbrev pub count_view : Option ℕ → Text → List Text → List Text
count_view none feed_uri views = views
count_view (some capacity) feed_uri views =
    let feed_name = extract_feed_name feed_uri in
    if not (is_empty feed_name) then record_view capacity feed_name views else views

module _ {R L : Type 0} where
  abbrev pub skeleton_response :
      Server → Text → World R L → Result FeedError FeedResponse × Database → World R L × Response
  skeleton_response s feed_uri w (err unknown_feed, db) =
      (record w { db = db }, respond 400 (error_body (codes "UnknownFeed")))
  skeleton_response s feed_uri w (err invalid_cursor, db) =
      (record w { db = db }, respond 400 (error_body (codes "invalid cursor format")))
  skeleton_response s feed_uri w (err (get_feed_page_error e), db) =
      (record w { db = db }, server_error)
  skeleton_response s feed_uri w (ok resp, db) = (
    record w { db = db; views = count_view s.metrics feed_uri w.views },
    respond 200 (skeleton resp),
  )

  -- `handleGetFeedSkeleton`.
  unfoldable pub handle_get_feed_skeleton :
      Collation → Server → Request → World R L → World R L × Response
  handle_get_feed_skeleton c s r w =
      if is_empty r.feed
      then (w, respond 400 (error_body (codes "missing feed parameter")))
      else skeleton_response s r.feed w (get_feed_page c s.svc r.limit r.feed r.cursor w.db)

  abbrev pub deleted : World R L → Database × Option Error → World R L × Response
  deleted w (db, some e) = (record w { db = db }, server_error)
  deleted w (db, none) = (record w { db = db }, respond 204 no_body)

  -- `handleDeletePost`.
  unfoldable pub handle_delete_post : Text → World R L → World R L × Response
  handle_delete_post uri w =
      if is_empty uri
      then (w, respond 400 (error_body (codes "missing uri")))
      else deleted w (Store.delete_post uri w.db)

  abbrev pub stats_response :
      World R L → Result Error FeedStatsResponse × Database → World R L × Response
  stats_response w (err e, db) = (record w { db = db }, server_error)
  stats_response w (ok stats, db) = (record w { db = db }, respond 200 (feed_stats stats))

  -- `handleGetFeedMetrics`, where the metrics service is set.
  unfoldable pub handle_get_feed_metrics : Text → World R L → World R L × Response
  handle_get_feed_metrics feed_name w =
      if is_empty feed_name
      then (w, respond 400 (error_body (codes "missing feed")))
      else stats_response w (get_feed_stats feed_name w.db)

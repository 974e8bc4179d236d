-- ===== src/Feed/Tests.antt =====
-- Runs of the feed service of feed/feed.go, and the theorems at concrete inputs.
use mathlib.Core.List.{Perm}
use baldsky.Common.{
  Text, List, [], ◌∷◌, some, none, false, ◌≡◌, refl, ◌≢◌, ◌↔◌, ok, codes, arith, All, ◌≤◌, filter,
  text_eq, text_eq_iff, pos, if◌then◌else◌, split, trim_prefix,
}
use baldsky.Common.Sort.{Strict}
use baldsky.Db.Tables.{PostRow, Database}
use baldsky.Db.Queries.{in_feed, newer}
use baldsky.Db.Page.{DistinctKeys}
use baldsky.Db.Bytes.{bytes}
use baldsky.Feed.Service.{Service, FeedEntry, new, find_feed, feed_generator_uri}
use baldsky.Feed.Cursor.{parse_cursor, build_cursor, parse_cursor-build_cursor}
use baldsky.Feed.Skeleton.{resolve, page_limit}
use baldsky.Feed.Pages.{HasCursor, uris, page_limit_bounds}
use baldsky.Feed.Walk.{walk, walk_complete}
use baldsky.Feed.Resolve.{resolve_iff, resolve-feed_generator_uri, Names}
use baldsky.Feed.Store.{insert_post, delete_post, get_cursor, upsert_cursor}
use baldsky.Feed.Lookup.{find_row, row_or, find_row-insert_post-delete_post}
use baldsky.Feed.Stored.{get_cursor-upsert_cursor}

abbrev pub bald_entry : FeedEntry
bald_entry = record {
  short_name = codes "bald";
  display_name = codes "Bald Things";
  description = codes "Bald";
  collection_name = codes "app.bsky.feed.generator";
  link_label = [];
  link_url = [];
}

abbrev pub service : Service
service = record {
  service_did = codes "did:web:baldsky.example";
  hostname = codes "baldsky.example";
  publisher_did = codes "did:plc:me";
  did_context = [];
  service_id = [];
  feeds = (codes "bald", bald_entry) ∷ [];
  pds = [];
  publisher_identifier = [];
  publisher_password = [];
  user_agent = [];
}

service_new :
    new
      (codes "did:web:baldsky.example")
      (codes "baldsky.example")
      (codes "did:plc:me")
      []
      []
      (bald_entry ∷ [])
    ≡ service
unfolding new
service_new = refl

abbrev row : Text → Text → Text → PostRow
row uri at cid = record { uri = uri; cid = cid; indexed_at = at; feed_name = codes "bald" }

abbrev rows : List PostRow
rows =
    row (codes "a") (codes "2026-01-02T00:00:00Z") (codes "x")
    ∷ row (codes "b") (codes "2026-01-03T00:00:00Z") (codes "y")
    ∷ row (codes "c") (codes "2026-01-02T00:00:00Z") (codes "z")
    ∷ []

abbrev pub posts : Database
posts = record { post = rows; sub_state = []; feed_stats = []; faults = [] }

abbrev pub feed_uri : Text
feed_uri = codes "at://did:plc:me/app.bsky.feed.generator/bald"

pub bald_resolved : resolve service feed_uri ≡ ok (codes "bald")
unfolding feed_generator_uri
bald_resolved =
    resolve-feed_generator_uri service (codes "bald") bald_entry (unfold find_feed text_eq in refl)
      refl (omega arith) (omega arith)

resolve-feed_generator_uri_example :
    resolve service (feed_generator_uri (codes "did:plc:me") (codes "bald")) ≡ ok (codes "bald")
resolve-feed_generator_uri_example =
    resolve-feed_generator_uri service (codes "bald") bald_entry (unfold find_feed text_eq in refl)
      refl (omega arith) (omega arith)

resolve_iff_example :
    (resolve service feed_uri ≡ ok (codes "bald"))
    ↔ Names service (split b'/' (trim_prefix feed_uri (codes "at://"))) (codes "bald")
resolve_iff_example = resolve_iff service feed_uri (codes "bald")

differs : (a b : Text) → text_eq a b ≡ false → a ≢ b
differs a b h e = let k = (text_eq_iff a b).1 e in cc

pub rows_distinct : DistinctKeys rows
rows_distinct = (
  (
    λ e. differs (codes "x") (codes "y") (unfold text_eq in refl) e.1,
    (λ e. differs (codes "x") (codes "z") (unfold text_eq in refl) e.1, tt),
  ),
  ((λ e. differs (codes "y") (codes "z") (unfold text_eq in refl) e.1, tt), (tt, tt)),
)

pub rows-HasCursor : All HasCursor rows
rows-HasCursor = (
  (λ e. cc, λ e. cc, omega arith),
  ((λ e. cc, λ e. cc, omega arith), ((λ e. cc, λ e. cc, omega arith), tt)),
)

-- Pages of one post each.
walk_complete_example :
    (found : List PostRow) × (walk bytes service feed_uri (codes "1") posts 5 []
      ≡ some (uris found))
    × Perm found (filter (in_feed (codes "bald")) rows)
    × Strict (newer bytes) found
unfolding text_eq
walk_complete_example =
    walk_complete bytes service feed_uri (codes "1") posts (codes "bald") bald_resolved refl
      rows_distinct rows-HasCursor 5 (omega arith)

page_limit_bounds_example : (1 ≤ page_limit (codes "250")) × (page_limit (codes "250") ≤ 100)
page_limit_bounds_example = page_limit_bounds (codes "250")

parse_cursor-build_cursor_example :
    parse_cursor (build_cursor (codes "2026-01-02T00:00:00Z") (codes "bafy"))
    ≡ some (codes "2026-01-02T00:00:00Z", codes "bafy")
parse_cursor-build_cursor_example =
    parse_cursor-build_cursor (codes "2026-01-02T00:00:00Z") (codes "bafy") (λ e. cc) (λ e. cc)
      (omega arith)

get_cursor-upsert_cursor_example :
    (get_cursor (codes "wss") (upsert_cursor (codes "wss") (pos 7) posts).0).0 ≡ (
      if text_eq (codes "wss") (codes "wss")
      then ok (pos 7)
      else (get_cursor (codes "wss") posts).0)
get_cursor-upsert_cursor_example =
    get_cursor-upsert_cursor (codes "wss") (codes "wss") (pos 7) posts refl

-- The post "a" is already stored.
abbrev hats_row : PostRow
hats_row = record {
  uri = codes "a";
  cid = codes "w";
  indexed_at = codes "now";
  feed_name = codes "hats";
}

find_row-insert_post-delete_post_example :
    let a = codes "a" in
    let stored = insert_post (codes "now") (codes "hats") a (codes "w") posts in
    let left = delete_post a posts in
    (find_row a stored.0.post ≡ (
      if text_eq a a
      then some (row_or (find_row a posts.post) hats_row)
      else find_row a posts.post))
    × (find_row a left.0.post ≡ (if text_eq a a then none else find_row a posts.post))
find_row-insert_post-delete_post_example =
    find_row-insert_post-delete_post (codes "now") (codes "hats") (codes "a") (codes "w")
      (codes "a") posts refl

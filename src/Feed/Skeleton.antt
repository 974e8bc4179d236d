-- ===== src/Feed/Skeleton.antt =====
-- `GetFeedPage` of feed/feed.go.
use baldsky.Common.{
  Text, List, [], ◌∷◌, Option, none, some, not, is_empty, if◌then◌else◌, Result, ok, err, Error,
  codes, split, trim_prefix, text_eq, ℕ, ℤ, pos, negsuc, ltb, min, map, length,
}
use baldsky.Common.Decimal.{atoi}
use baldsky.Db.Tables.{Collation, PostRow, Database, GetFeedPageParams}
use baldsky.Db.Queries
use baldsky.Feed.Service.{FeedEntry, Service, find_feed}
use baldsky.Feed.Cursor.{parse_cursor, build_cursor}

pub data FeedError : Type 0 where
  unknown_feed : FeedError
  invalid_cursor : FeedError
  get_feed_page_error : Error → FeedError

pub record FeedResponse : Type 0 where
  pub feed : List Text
  pub cursor : Option Text

unfoldable pub check_entry : Text → Text → Option FeedEntry → Result FeedError Text
check_entry collection rkey none = err unknown_feed
check_entry collection rkey (some entry) =
    if not (text_eq collection entry.collection_name) then err unknown_feed else ok rkey

-- The parts of an AT-URI: the repository, the collection and the record key.
unfoldable pub check_parts : Service → List Text → Result FeedError Text
unfolding check_entry
check_parts s (did ∷ collection ∷ rkey ∷ []) =
    if not (text_eq did s.publisher_did)
    then err unknown_feed
    else check_entry collection rkey (find_feed rkey s.feeds)
check_parts s _ = err unknown_feed

-- The feed that the request names.
unfoldable pub resolve : Service → Text → Result FeedError Text
unfolding check_parts
resolve s feed_uri =
    if is_empty feed_uri
    then err unknown_feed
    else check_parts s (split b'/' (trim_prefix feed_uri (codes "at://")))

abbrev limit_of : Option ℤ → ℕ
limit_of none = 50
limit_of (some (negsuc n)) = 50
limit_of (some (pos n)) = if ltb 0 n then min n 100 else 50

unfoldable pub page_limit : Text → ℕ
page_limit limit_str = if is_empty limit_str then 50 else limit_of (atoi limit_str)

abbrev cursor_of : Option (Text × Text) → Result FeedError (Option (Text × Text))
cursor_of none = err invalid_cursor
cursor_of (some key) = ok (some key)

unfoldable pub page_cursor : Text → Result FeedError (Option (Text × Text))
page_cursor cursor_str =
    if is_empty cursor_str then ok none else cursor_of (parse_cursor cursor_str)

abbrev pub page_params : Text → ℕ → Option (Text × Text) → GetFeedPageParams
page_params rkey limit none = record {
  feed_name = rkey;
  cursor_indexed_at = none;
  cursor_cid = none;
  limit = limit;
}
page_params rkey limit (some (at, cid)) = record {
  feed_name = rkey;
  cursor_indexed_at = some at;
  cursor_cid = some cid;
  limit = limit;
}

-- The cursor that the loop over the rows sets at the last one.
unfoldable pub last_cursor : List PostRow → Option Text
last_cursor [] = none
last_cursor (r ∷ []) = some (build_cursor r.indexed_at r.cid)
last_cursor (r ∷ q ∷ rows) = last_cursor (q ∷ rows)

unfoldable pub page_response : ℕ → List PostRow → FeedResponse
unfolding last_cursor
page_response limit rows = record {
  feed = map (λ r. r.uri) rows;
  cursor = if ltb (length rows) limit then none else last_cursor rows;
}

abbrev answer : ℕ → Result Error (List PostRow) → Result FeedError FeedResponse
answer limit (err e) = err (get_feed_page_error e)
answer limit (ok rows) = ok (page_response limit rows)

module _ (c : Collation) (s : Service) (limit_str : Text) where
  -- What follows once the request's feed and cursor are known.
  abbrev pub query_page :
      Text → Option (Text × Text) → Database → Result FeedError FeedResponse × Database
  query_page rkey key db =
      let limit = page_limit limit_str in
      let (rows, db') = Queries.get_feed_page c (page_params rkey limit key) db in
      (answer limit rows, db')

  abbrev pub serve_key :
      Text
      → Result FeedError (Option (Text × Text))
      → Database
      → Result FeedError FeedResponse × Database
  serve_key rkey (err e) db = (err e, db)
  serve_key rkey (ok key) db = query_page rkey key db

  abbrev pub serve_feed :
      Result FeedError Text → Text → Database → Result FeedError FeedResponse × Database
  serve_feed (err e) cursor_str db = (err e, db)
  serve_feed (ok rkey) cursor_str db = serve_key rkey (page_cursor cursor_str) db

  unfoldable pub get_feed_page : Text → Text → Database → Result FeedError FeedResponse × Database
  get_feed_page feed_uri cursor_str db = serve_feed (resolve s feed_uri) cursor_str db

-- ===== src/Db/Queries.antt =====
-- The queries of db/schema/queries/feed.sql. Each takes its verdict from the schedule of faults; a
-- query that fails changes no table.
use baldsky.Common.{
  Text, Bool, true, false, not, ◌&&◌, ◌||◌, List, [], ◌∷◌, Option, none, some, text_eq, any, filter,
  take, member, Result, ok, err, Error, no_rows, failed, if◌then◌else◌, ℤ, ◌+◌,
}
use baldsky.Common.Sort.{sort}
use baldsky.Db.Tables.{
  Collation, PostRow, SubStateRow, FeedStat, Database, InsertPostParams, GetFeedPageParams,
}

abbrev pub fails : List Bool → Bool
fails [] = false
fails (f ∷ fs) = f

abbrev pub later : List Bool → List Bool
later [] = []
later (f ∷ fs) = fs

-- The database after it took up the next query.
abbrev pub took : Database → Database
took db = record db { faults = later db.faults }

-- A statement that changes the tables by `f`, unless the database fails it.
abbrev pub execute : (Database → Database) → Database → Database × Option Error
execute f db = if fails db.faults then (took db, some failed) else (f (took db), none)

abbrev pub has_uri : Text → List PostRow → Bool
has_uri uri rows = any (λ r. text_eq r.uri uri) rows

-- `INSERT INTO post … ON CONFLICT DO NOTHING`.
abbrev pub insert_row : InsertPostParams → Database → Database
insert_row arg db = if has_uri arg.uri db.post then db else record db {
  post =
      record {
        uri = arg.uri;
        cid = arg.cid;
        indexed_at = arg.indexed_at;
        feed_name = arg.feed_name;
      }
      ∷ db.post;
}

unfoldable pub insert_post : InsertPostParams → Database → Database × Option Error
insert_post arg db = execute (insert_row arg) db

-- `DELETE FROM post WHERE uri = $1`.
unfoldable pub delete_post : Text → Database → Database × Option Error
delete_post uri db =
    execute (λ d. record d { post = filter (λ r. not (text_eq r.uri uri)) d.post }) db

-- `DELETE FROM post WHERE uri = ANY($1)`.
unfoldable pub delete_posts : List Text → Database → Database × Option Error
delete_posts uris db =
    execute (λ d. record d { post = filter (λ r. not (member r.uri uris)) d.post }) db

-- `SELECT cursor FROM sub_state WHERE service = $1`.
unfoldable pub find_cursor : Text → List SubStateRow → Result Error ℤ
find_cursor service [] = err no_rows
find_cursor service (r ∷ rs) =
    if text_eq r.service service then ok r.cursor else find_cursor service rs

unfoldable pub get_cursor : Text → Database → Result Error ℤ × Database
unfolding find_cursor
get_cursor service db =
    (if fails db.faults then err failed else find_cursor service db.sub_state, took db)

-- `INSERT INTO sub_state … ON CONFLICT (service) DO UPDATE`.
unfoldable pub upsert_row : Text → ℤ → List SubStateRow → List SubStateRow
upsert_row service cursor [] = record { service = service; cursor = cursor } ∷ []
upsert_row service cursor (r ∷ rs) =
    if text_eq r.service service
    then record { service = service; cursor = cursor } ∷ rs
    else r ∷ upsert_row service cursor rs

unfoldable pub upsert_cursor : Text → ℤ → Database → Database × Option Error
unfolding upsert_row
upsert_cursor service cursor db =
    execute (λ d. record d { sub_state = upsert_row service cursor d.sub_state }) db

-- `INSERT INTO feed_stats … ON CONFLICT (feed_name) DO UPDATE`, with one view more.
unfoldable pub count_view : Text → Option Text → List FeedStat → List FeedStat
count_view feed_name at [] =
    record { feed_name = feed_name; total_views = 1; last_viewed_at = at } ∷ []
count_view feed_name at (r ∷ rs) =
    if text_eq r.feed_name feed_name
    then record r { total_views = r.total_views + 1; last_viewed_at = at } ∷ rs
    else r ∷ count_view feed_name at rs

unfoldable pub record_view : Text → Option Text → Database → Database × Option Error
unfolding count_view
record_view feed_name at db =
    execute (λ d. record d { feed_stats = count_view feed_name at d.feed_stats }) db

unfoldable pub find_stats : Text → List FeedStat → Result Error FeedStat
find_stats feed_name [] = err no_rows
find_stats feed_name (r ∷ rs) =
    if text_eq r.feed_name feed_name then ok r else find_stats feed_name rs

unfoldable pub get_feed_stats : Text → Database → Result Error FeedStat × Database
unfolding find_stats
get_feed_stats feed_name db =
    (if fails db.faults then err failed else find_stats feed_name db.feed_stats, took db)

abbrev pub in_feed : Text → PostRow → Bool
in_feed feed_name r = text_eq r.feed_name feed_name

module _ (c : Collation) where
  -- `ORDER BY indexed_at DESC, cid DESC`: `a` stands before `b`.
  unfoldable pub newer : PostRow → PostRow → Bool
  newer a b =
      c.lt b.indexed_at a.indexed_at || (text_eq b.indexed_at a.indexed_at && c.lt b.cid a.cid)

  -- The condition on the cursor; a comparison with NULL does not hold.
  unfoldable pub past_cursor : Option Text → Option Text → PostRow → Bool
  past_cursor none cid r = true
  past_cursor (some at) none r = c.lt r.indexed_at at
  past_cursor (some at) (some cid) r =
      c.lt r.indexed_at at || (text_eq r.indexed_at at && c.lt r.cid cid)

  -- Rows of which the order says nothing stand as in the table.
  unfoldable pub select_page : GetFeedPageParams → List PostRow → List PostRow
  unfolding past_cursor newer sort
  select_page arg rows = take arg.limit (
      sort newer (
        filter (λ r. in_feed arg.feed_name r && past_cursor arg.cursor_indexed_at arg.cursor_cid r)
          rows))

  unfoldable pub get_feed_page :
      GetFeedPageParams → Database → Result Error (List PostRow) × Database
  get_feed_page arg db =
      (if fails db.faults then err failed else ok (select_page arg db.post), took db)

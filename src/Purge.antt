-- ===== src/Purge.antt =====
-- `findStalePosts` of cmd/purge.go: the stored posts of a feed that its pipeline would not take.
pub mod Judged
pub mod Stale
pub mod Run
pub mod DryRun
pub mod OnlyStale
mod Tests
use baldsky.Common.{
  Text, List, [], ◌∷◌, ◌++◌, Option, none, some, Bool, true, false, not, Result, ok, err, ◌>>=◌,
  Error, ℕ, zero, suc, ltb, length, take, drop, map, codes, text_eq, if◌then◌else◌,
}
use baldsky.Db.Tables.{Collation, PostRow, Database, GetFeedPageParams}
use baldsky.Db.Queries
use baldsky.Pipeline.Build.{Runtime, Pipeline}
use baldsky.Pipeline.Match.{FeedPost, matches_post}

pub record StalePost : Type 0 where
  pub uri : Text
  pub text : Text

-- A post as Bluesky returns it; the record is `none` where it is not a feed post.
pub record PostView : Type 0 where
  pub uri : Text
  pub value : Option FeedPost

pub data PurgeError : Type 0 where
  querying_posts : Error → PurgeError
  fetching_posts : Error → PurgeError

-- `bsky.FeedGetPosts`: what the public API answers for a list of URIs.
abbrev pub GetPosts : Type 0
GetPosts = List Text → Result Error (List PostView)

abbrev pub page_size : ℕ
page_size = 100

abbrev pub batch_size : ℕ
batch_size = 25

abbrev pub or_view : Option PostView → Option PostView → Option PostView
or_view (some pv) other = some pv
or_view none other = other

-- A look into the map `fetched`, in which the last view of a URI stands.
unfoldable pub fetched : Text → List PostView → Option PostView
fetched uri [] = none
fetched uri (pv ∷ pvs) = or_view (fetched uri pvs) (if text_eq pv.uri uri then some pv else none)

-- The parameters of the next page: behind the last row.
abbrev pub next_params : GetFeedPageParams → List PostRow → GetFeedPageParams
next_params params [] = params
next_params params (r ∷ []) = record params {
  cursor_indexed_at = some r.indexed_at;
  cursor_cid = some r.cid;
}
next_params params (r ∷ q ∷ rows) = next_params params (q ∷ rows)

abbrev pub append_to :
    List StalePost
    → Option (Result PurgeError (List StalePost))
    → Option (Result PurgeError (List StalePost))
append_to stale none = none
append_to stale (some (err e)) = some (err e)
append_to stale (some (ok later)) = some (ok (stale ++ later))

abbrev pub continue :
    (GetFeedPageParams → Option (Result PurgeError (List StalePost)))
    → GetFeedPageParams
    → List PostRow
    → Result PurgeError (List StalePost)
    → Option (Result PurgeError (List StalePost))
continue next params rows (err e) = some (err e)
continue next params rows (ok stale) =
    if ltb (length rows) page_size
    then some (ok stale)
    else append_to stale (next (next_params params rows))

module _ {S : Type 0} (rt : Runtime) (p : Pipeline S) where
  abbrev pub judge_record : Text → Option FeedPost → List StalePost
  judge_record uri none = record { uri = uri; text = codes "[unreadable record]" } ∷ []
  judge_record uri (some post) =
      if not (matches_post rt p post.text post.langs post.has_embed)
      then record { uri = uri; text = post.text } ∷ []
      else []

  -- What one row adds to the stale posts.
  abbrev pub judge : Text → Option PostView → List StalePost
  judge uri none = record { uri = uri; text = codes "[deleted from Bluesky]" } ∷ []
  judge uri (some pv) = judge_record uri pv.value

  unfoldable pub judge_batch : List PostView → List PostRow → List StalePost
  unfolding fetched
  judge_batch posts [] = []
  judge_batch posts (r ∷ rows) = judge r.uri (fetched r.uri posts) ++ judge_batch posts rows

  module _ (get_posts : GetPosts) where
    abbrev pub judged :
        List PostRow → Result Error (List PostView) → Result PurgeError (List StalePost)
    judged batch (err e) = err (fetching_posts e)
    judged batch (ok posts) = ok (judge_batch posts batch)

    -- The loop over the batches of a page; the fuel bounds their number.
    unfoldable pub judge_page : ℕ → List PostRow → Result PurgeError (List StalePost)
    unfolding judge_batch
    judge_page zero rows = ok []
    judge_page (suc fuel) [] = ok []
    judge_page (suc fuel) (r ∷ rows) = do
      let batch = take batch_size (r ∷ rows)
      stale ← judged batch (get_posts (map (λ q. q.uri) batch))
      later ← judge_page fuel (drop batch_size (r ∷ rows))
      ok (stale ++ later)

    abbrev pub with_rows :
        (GetFeedPageParams → Option (Result PurgeError (List StalePost)))
        → GetFeedPageParams
        → Result Error (List PostRow)
        → Option (Result PurgeError (List StalePost))
    with_rows next params (err e) = some (err (querying_posts e))
    with_rows next params (ok rows) = continue next params rows (judge_page (length rows) rows)

    -- The loop over the pages; `none` if the fuel, a bound on their number, runs out.
    unfoldable pub find_pages :
        Collation → ℕ → GetFeedPageParams → Database → Option (Result PurgeError (List StalePost))
    unfolding judge_page
    find_pages c zero params db = none
    find_pages c (suc fuel) params db =
        let (rows, db') = Queries.get_feed_page c params db in
        with_rows (λ params'. find_pages c fuel params' db') params rows

    unfoldable pub find_stale_posts :
        Collation → ℕ → Text → Database → Option (Result PurgeError (List StalePost))
    unfolding find_pages
    find_stale_posts c fuel feed_name db =
        find_pages c fuel
          (record {
            feed_name = feed_name;
            cursor_indexed_at = none;
            cursor_cid = none;
            limit = page_size;
          })
          db

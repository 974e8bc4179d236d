-- ===== src/Ingest/Rows/Tests.antt =====
-- `ProcessEvent` over the feed service, at a concrete event that two pipelines take.
use baldsky.Common.{
  if◌then◌else◌, has_prefix, text_eq, List, Text, [], ◌∷◌, some, none, ◌≢◌, sym, arith, member,
  text_eq_iff, false, codes, ◌≡◌, refl,
}
use baldsky.Db.Tables.{Database, PostRow}
use baldsky.Feed.Lookup.{find_row}
use baldsky.Feed.Tests.{posts, service, feed_uri, bald_resolved, rows_distinct, rows-HasCursor}
use baldsky.Feed.Walk.{walk}
use baldsky.Feed.Store.{insert_post, delete_posts}
use baldsky.Db.Bytes.{bytes}
use baldsky.Db.Queries
use baldsky.Ingest.Rows.Served.{told_listed, process_event-walk}
use baldsky.Pipeline.Build.{Pipeline, PipelineStore}
use baldsky.Common.Utf8.{to_bytes, escape}
use baldsky.Ingest.Uri.{build_uri}
use baldsky.Pipeline.Match.{should_insert}
use baldsky.Pipeline.Regexp.{match_string, keyword_pattern}
use baldsky.Pipeline.Rule.{built}
use baldsky.Pipeline.Tests.{ascii}
use baldsky.Ingest.Processor.{
  process_event, process_ops, process_op, handle_delete, handle_create, create_record, insert_each,
}
use baldsky.Ingest.Tests.{evt, all_posts}
use baldsky.Ingest.Rows.{row_of, added, IsRow, as_kept}
use baldsky.Ingest.Stream.Keeps.{WritesFeed, OverFeed}
use baldsky.Db.Queries.{has_uri}
use baldsky.Ingest.Rows.Steps.{process_event-row_of}

-- A clock that shows another second once the table has a post under the URI.
abbrev clock : Text → Database → Text
clock uri db = if has_uri uri db.post then codes "later" else codes "now"

abbrev ticking_store : PipelineStore Database
ticking_store = record {
  insert_post = λ name uri cid db. insert_post (clock uri db) name uri cid db;
  delete_posts = delete_posts;
}

ticking-WritesFeed : (p : Pipeline Database) → p.store ≡ ticking_store → WritesFeed p
ticking-WritesFeed p e = record {
  inserts = λ name uri cid db. (clock uri db, rw e refl);
  deletes = λ uris db. rw e refl;
}

abbrev pipeline : Text → Pipeline Database
pipeline name = built ascii name (codes "bald" ∷ []) [] [] [] [] [] false ticking_store

abbrev pub uri : Text
uri = codes "at://did:plc:me/app.bsky.feed.post/3k"

abbrev pub pipelines : List (Pipeline Database)
pipelines = pipeline (codes "bald") ∷ pipeline (codes "hats") ∷ []

pub pipelines-OverFeed : OverFeed pipelines
pipelines-OverFeed = (ticking-WritesFeed _ refl, (ticking-WritesFeed _ refl, tt))

process_event-row_of_example :
    IsRow
      (row_of ascii all_posts pipelines uri (some evt) (as_kept (find_row uri posts.post)))
      (find_row uri (process_event ascii all_posts pipelines (some evt) posts).0.post)
process_event-row_of_example =
    process_event-row_of ascii all_posts pipelines (some evt) uri posts pipelines-OverFeed refl

-- Both pipelines take the post, and the first feed alone has it.
first_feed_only :
    IsRow
      (some (added uri (codes "bafy") (codes "bald")))
      (find_row uri (process_event ascii all_posts pipelines (some evt) posts).0.post)
unfolding find_row text_eq should_insert match_string keyword_pattern build_uri to_bytes escape
    has_prefix
first_feed_only = process_event-row_of_example

abbrev bald_row : PostRow
bald_row = record {
  uri = uri;
  cid = codes "bafy";
  indexed_at = codes "now";
  feed_name = codes "bald";
}

abbrev after_event : Database
after_event = record posts { post = bald_row ∷ posts.post }

processed : process_event ascii all_posts pipelines (some evt) posts ≡ (after_event, none)
unfolding process_event process_ops process_op handle_delete handle_create create_record insert_each
    insert_post delete_posts Queries.insert_post Queries.delete_post text_eq should_insert
    match_string keyword_pattern build_uri to_bytes escape has_prefix
processed = refl

now_differs : (a : Text) → text_eq a (codes "now") ≡ false → codes "now" ≢ a
now_differs a h e = let k = (text_eq_iff a (codes "now")).1 (sym e) in cc

process_event-walk_example :
    (seen : List Text) × (walk bytes service feed_uri (codes "2") after_event 5 [] ≡ some seen)
    × ((k : Text)
        → member k seen
          ≡ told_listed
              (codes "bald")
              (row_of ascii all_posts pipelines k (some evt) (as_kept (find_row k posts.post))))
unfolding text_eq
process_event-walk_example =
    process_event-walk ascii all_posts pipelines pipelines-OverFeed bytes service feed_uri
      (codes "2") (codes "bald") bald_resolved evt posts after_event none 5 refl
      (refl, (refl, (refl, tt))) processed
      (
        (
          λ e. now_differs _ (unfold text_eq in refl) e.0,
          (
            λ e. now_differs _ (unfold text_eq in refl) e.0,
            (λ e. now_differs _ (unfold text_eq in refl) e.0, tt),
          ),
        ),
        rows_distinct,
      )
      ((λ e. cc, λ e. cc, omega arith), rows-HasCursor) (omega arith)

-- ===== src/Feed/Store.antt =====
-- The calls of feed/feed.go that change the database for the pipelines, the firehose and the server.
use baldsky.Common.{
  Text, List, [], ◌∷◌, Option, none, some, Result, ok, err, Error, no_rows, failed, ℤ, pos,
}
use baldsky.Db.Tables.{Database}
use baldsky.Db.Queries
use baldsky.Pipeline.Build.{PipelineStore}

-- `InsertPost` at the time `now`, the reading of the clock in RFC 3339.
unfoldable pub insert_post : Text → Text → Text → Text → Database → Database × Option Error
insert_post now feed_name uri cid db =
    Queries.insert_post (record { feed_name = feed_name; uri = uri; cid = cid; indexed_at = now })
      db

unfoldable pub delete_post : Text → Database → Database × Option Error
delete_post uri db = Queries.delete_post uri db

-- The loop returns at the first error.
abbrev pub unless_failed :
    Database × Option Error → (Database → Database × Option Error) → Database × Option Error
unless_failed (db, some e) next = (db, some e)
unless_failed (db, none) next = next db

-- `DeletePosts`.
unfoldable pub delete_posts : List Text → Database → Database × Option Error
delete_posts [] db = (db, none)
delete_posts (uri ∷ uris) db = unless_failed (Queries.delete_post uri db) (λ d. delete_posts uris d)

abbrev pub cursor_or_zero : Result Error ℤ → Result Error ℤ
cursor_or_zero (ok cursor) = ok cursor
cursor_or_zero (err no_rows) = ok (pos 0)
cursor_or_zero (err failed) = err failed

unfoldable pub get_cursor : Text → Database → Result Error ℤ × Database
get_cursor service db =
    let (cursor, db') = Queries.get_cursor service db in (cursor_or_zero cursor, db')

unfoldable pub upsert_cursor : Text → ℤ → Database → Database × Option Error
upsert_cursor service cursor db = Queries.upsert_cursor service cursor db

-- The feed service as the store of a pipeline, while the clock reads `now`.
abbrev pub pipeline_store : Text → PipelineStore Database
pipeline_store now = record {
  insert_post = λ feed_name uri cid db. insert_post now feed_name uri cid db;
  delete_posts = λ uris db. delete_posts uris db;
}

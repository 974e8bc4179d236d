-- ===== src/Ingest/Rows.antt =====
-- What an event does to the row of a URI in the table of posts, told without the table: the contract
-- of `ProcessEvent` of subscription/subscription.go where its pipelines write to the feed service.
pub mod Stored
pub mod Steps
pub mod Served
pub mod Tests
use baldsky.Common.{
  All, ◌≡◌, Text, List, [], ◌∷◌, Option, none, some, Bool, true, false, not, if◌then◌else◌, codes,
  has_prefix, text_eq, ◌≡◌, refl, ◌∙◌, ap, subst, Bool-cases, inl, inr,
}
use baldsky.Db.Tables.{Database, PostRow}
use baldsky.Db.Queries.{has_uri}
use baldsky.Db.Queries
use baldsky.Feed.Store
use baldsky.Feed.Store.{pipeline_store}
use baldsky.Feed.Lookup.{find_row, row_or, find_row-insert_post-delete_post}
use baldsky.Pipeline.Build.{Runtime, Pipeline}
use baldsky.Pipeline.Match.{FeedPost, should_insert}
use baldsky.Ingest.Uri.{build_uri}
use baldsky.Ingest.Processor.{
  RepoOp, Commit, Record, unreadable, not_a_post, feed_post, CarReader, handle_delete, insert_each,
  create_record, handle_create, process_op, process_ops, process_repo, process_event,
}
use baldsky.Feed.Store.{pipeline_store}

-- A row as an event leaves it: one that was there before the event, or one that the event added, at
-- the time that the clock read at that insertion.
pub data Told : Type 0 where
  kept : PostRow → Told
  added : Text → Text → Text → Told

-- The table has, under a URI, the row that is told.
abbrev pub IsRow : Option Told → Option PostRow → Type 0
IsRow none row = row ≡ none
IsRow (some (kept r)) row = row ≡ some r
IsRow (some (added uri cid name)) row =
    (now : Text) × (row
      ≡ some (record { uri = uri; cid = cid; indexed_at = now; feed_name = name }))

-- Before an event, the rows are those of the table.
abbrev pub as_kept : Option PostRow → Option Told
as_kept none = none
as_kept (some r) = some (kept r)

abbrev pub told_or : Option Told → Told → Told
told_or none t = t
told_or (some old) t = old

module _ (rt : Runtime) where
  -- The feed of the first pipeline that takes a post.
  abbrev pub first_taking : List (Pipeline Database) → Text → FeedPost → Option Text
  first_taking [] actor post = none
  first_taking (p ∷ ps) actor post =
      if should_insert rt p actor post then some p.name else first_taking ps actor post

  -- A post that is taken gets a row, unless it has one.
  abbrev pub taken : Option Text → Text → Text → Option Told → Option Told
  taken none uri cid row = row
  taken (some name) uri cid row = some (told_or row (added uri cid name))

  abbrev pub created :
      List (Pipeline Database) → Text → Text → Text → Record → Option Told → Option Told
  created pipes actor uri cid unreadable row = row
  created pipes actor uri cid not_a_post row = row
  created pipes actor uri cid (feed_post post) row =
      taken (first_taking pipes actor post) uri cid row

  -- Without a pipeline nothing is deleted.
  abbrev pub removed : List (Pipeline Database) → Option Told → Option Told
  removed [] row = row
  removed (p ∷ ps) row = none

  -- The row of `k` behind an operation.
  abbrev pub row_of_op :
      List (Pipeline Database) → (Text → Record) → Text → Text → RepoOp → Option Told → Option Told
  row_of_op pipes get_record k repo op row =
      if not (has_prefix op.path (codes "app.bsky.feed.post/"))
      then row
      else if text_eq op.action (codes "delete")
      then (if text_eq (build_uri repo op.path) k then removed pipes row else row)
      else if text_eq op.action (codes "create")
      then (if text_eq (build_uri repo op.path) k
          then created pipes repo (build_uri repo op.path) op.cid (get_record op.path) row
          else row)
      else row

  abbrev pub row_of_ops :
      List (Pipeline Database)
      → (Text → Record)
      → Text
      → Text
      → List RepoOp
      → Option Told
      → Option Told
  row_of_ops pipes get_record k repo [] row = row
  row_of_ops pipes get_record k repo (op ∷ ops) row =
      row_of_ops pipes get_record k repo ops (row_of_op pipes get_record k repo op row)

  abbrev pub row_of_repo :
      List (Pipeline Database) → Text → Commit → Option (Text → Record) → Option Told → Option Told
  row_of_repo pipes k evt none row = row
  row_of_repo pipes k evt (some get_record) row = row_of_ops pipes get_record k evt.repo evt.ops row

  -- The row of `k` behind an event.
  abbrev pub row_of :
      CarReader → List (Pipeline Database) → Text → Option Commit → Option Told → Option Told
  row_of read_repo pipes k none row = row
  row_of read_repo pipes k (some evt) row =
      if evt.too_big then row else row_of_repo pipes k evt (read_repo evt.blocks) row

-- ===== src/Ingest/Processor.antt =====
-- `Processor`, `ProcessEvent`, `handleDelete` and `handleCreate` of subscription/subscription.go.
use baldsky.Common.{
  Text, List, [], ◌∷◌, Option, none, some, Bool, not, Error, ℤ, if◌then◌else◌, codes, has_prefix,
  text_eq,
}
use baldsky.Pipeline.Build.{Runtime, Pipeline}
use baldsky.Pipeline.Match.{FeedPost, should_insert}
use baldsky.Ingest.Uri.{build_uri}

-- An operation of a commit; its CID is set for every action but `delete`.
pub record RepoOp : Type 0 where
  pub action : Text
  pub path : Text
  pub cid : Text

-- The fields of a commit event that the program reads.
pub record Commit : Type 0 where
  pub repo : Text
  pub seq : ℤ
  pub too_big : Bool
  pub blocks : Text
  pub ops : List RepoOp

-- What `GetRecord` and the type assertion make of a path.
pub data Record : Type 0 where
  unreadable : Record
  not_a_post : Record
  feed_post : FeedPost → Record

-- `repo.ReadRepoFromCar`, of the library that parses CAR files: the records of the blocks by path.
abbrev pub CarReader : Type 0
CarReader = Text → Option (Text → Record)

-- A failed deletion is logged, and the next pipeline is tried.
unfoldable pub handle_delete : {S : Type 0} → List (Pipeline S) → Text → S → S
handle_delete [] uri st = st
handle_delete (pipe ∷ pipes) uri st =
    handle_delete pipes uri (pipe.store.delete_posts (uri ∷ []) st).0

module _ {S : Type 0} (rt : Runtime) where
  unfoldable pub insert_each : List (Pipeline S) → Text → Text → Text → FeedPost → S → S
  insert_each [] actor uri cid post st = st
  insert_each (pipe ∷ pipes) actor uri cid post st = insert_each pipes actor uri cid post (
      if not (should_insert rt pipe actor post)
      then st
      else (pipe.store.insert_post pipe.name uri cid st).0)

  unfoldable pub create_record : List (Pipeline S) → Text → Text → Text → Record → S → S
  unfolding insert_each
  create_record pipes actor uri cid unreadable st = st
  create_record pipes actor uri cid not_a_post st = st
  create_record pipes actor uri cid (feed_post post) st = insert_each pipes actor uri cid post st

  unfoldable pub handle_create : List (Pipeline S) → (Text → Record) → Text → Text → RepoOp → S → S
  unfolding create_record
  handle_create pipes get_record actor uri op st =
      create_record pipes actor uri op.cid (get_record op.path) st

  -- One round of the loop over the operations.
  unfoldable pub process_op : List (Pipeline S) → (Text → Record) → Text → RepoOp → S → S
  process_op pipes get_record repo op st =
      if not (has_prefix op.path (codes "app.bsky.feed.post/"))
      then st
      else let uri = build_uri repo op.path in
        if text_eq op.action (codes "delete")
        then handle_delete pipes uri st
        else if text_eq op.action (codes "create")
        then handle_create pipes get_record repo uri op st
        else st

  unfoldable pub process_ops : List (Pipeline S) → (Text → Record) → Text → List RepoOp → S → S
  process_ops pipes get_record repo [] st = st
  process_ops pipes get_record repo (op ∷ ops) st =
      process_ops pipes get_record repo ops (process_op pipes get_record repo op st)

  abbrev pub process_repo : List (Pipeline S) → Commit → Option (Text → Record) → S → S
  process_repo pipes evt none st = st
  process_repo pipes evt (some get_record) st = process_ops pipes get_record evt.repo evt.ops st

  -- `ProcessEvent`; a nil event is `none`. It returns no error on any path.
  unfoldable pub process_event :
      CarReader → List (Pipeline S) → Option Commit → S → S × Option Error
  process_event read_repo pipes none st = (st, none)
  process_event read_repo pipes (some evt) st =
      if evt.too_big then (st, none) else (process_repo pipes evt (read_repo evt.blocks) st, none)

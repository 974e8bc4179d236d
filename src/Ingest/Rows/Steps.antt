-- ===== src/Ingest/Rows/Steps.antt =====
-- `ProcessEvent` of subscription/subscription.go keeps the contract of Ingest/Rows.
use baldsky.Common.{
  Text, List, [], ◌∷◌, Option, none, some, Bool, true, false, not, if◌then◌else◌, text_eq, ◌≡◌,
  refl, subst, Bool-cases, inl, inr,
}
use baldsky.Db.Tables.{Database, PostRow}
use baldsky.Feed.Lookup.{find_row}
use baldsky.Pipeline.Build.{Runtime, Pipeline}
use baldsky.Pipeline.Match.{FeedPost, should_insert}
use baldsky.Ingest.Uri.{build_uri}
use baldsky.Ingest.Processor.{
  RepoOp, Commit, Record, unreadable, not_a_post, feed_post, CarReader, handle_delete, insert_each,
  create_record, handle_create, process_op, process_ops, process_repo, process_event,
}
use baldsky.Ingest.Kinds.{other_record, deletes, creates, updates, Kind-cases}
use baldsky.Ingest.Rows.{
  Told, IsRow, as_kept, first_taking, taken, created, removed, row_of_op, row_of_ops, row_of_repo,
  row_of,
}
use baldsky.Ingest.Stream.Keeps.{WritesFeed, OverFeed}
use baldsky.Ingest.Rows.Stored.{Row, insert_post-Row, delete_posts-Row}

as_kept-IsRow : (row : Option PostRow) → IsRow (as_kept row) row
as_kept-IsRow none = refl
as_kept-IsRow (some r) = refl

module _ (rt : Runtime) where
  -- What a step does to the row of each URI.
  abbrev Sets : Text → (Option Told → Option Told) → (Database → Database) → Type 0
  Sets k f step = (row : Option Told) (db : Database) → Row k row db → Row k (f row) (step db)

  taken_again :
      (name : Option Text) (uri cid : Text) (r : Told) → taken rt name uri cid (some r) ≡ some r
  taken_again none uri cid r = refl
  taken_again (some name) uri cid r = refl

  unchanged :
      (same : Bool) (k : Text) (row : Option Told) (db : Database)
      → Row k row db
      → Row k (if same then row else row) db
  unchanged true k row db r = r
  unchanged false k row db r = r

  -- One pipeline of the loop.
  insert_one-Sets :
      (actor uri cid k : Text) (post : FeedPost) (p : Pipeline Database)
      → WritesFeed p
      → Sets k
          (λ row.
            if text_eq uri k
            then taken rt (if should_insert rt p actor post then some p.name else none) uri cid row
            else row)
          (λ db.
            if not (should_insert rt p actor post)
            then db
            else (p.store.insert_post p.name uri cid db).0)
  insert_one-Sets actor uri cid k post p h row db r =
      elim (Bool-cases (should_insert rt p actor post)) [
        | inl e ↦
            let (now, asked) = h.inserts p.name uri cid db in
            rw (e, asked) (insert_post-Row now p.name uri cid k row db r)
        | inr e ↦ rw e (unchanged (text_eq uri k) k row db r)
      ]

  first_of :
      (b : Bool) (name : Text) (rest : Option Text) (same : Bool) (uri cid : Text)
      (row : Option Told)
      → (if same
          then taken rt rest uri cid
              (if same then taken rt (if b then some name else none) uri cid row else row)
          else if same
          then taken rt (if b then some name else none) uri cid row
          else row)
        ≡ (if same then taken rt (if b then some name else rest) uri cid row else row)
  first_of true name rest true uri cid row = taken_again rest uri cid _
  first_of true name rest false uri cid row = refl
  first_of false name rest true uri cid row = refl
  first_of false name rest false uri cid row = refl

  insert_each-Sets :
      (actor uri cid k : Text) (post : FeedPost) (pipes : List (Pipeline Database))
      → OverFeed pipes
      → Sets k
          (λ row.
            if text_eq uri k then taken rt (first_taking rt pipes actor post) uri cid row else row)
          (insert_each rt pipes actor uri cid post)
  unfolding insert_each
  insert_each-Sets actor uri cid k post [] h row db r = unchanged (text_eq uri k) k row db r
  insert_each-Sets actor uri cid k post (p ∷ pipes) h row db r =
      let step : Database =
        if not (should_insert rt p actor post)
        then db
        else (p.store.insert_post p.name uri cid db).0 in
      subst (λ o. Row k o (insert_each rt pipes actor uri cid post step))
        (first_of (should_insert rt p actor post) p.name (first_taking rt pipes actor post)
          (text_eq uri k) uri cid row)
        (insert_each-Sets actor uri cid k post pipes h.1 _ step
          (insert_one-Sets actor uri cid k post p h.0 row db r))

  removed_again :
      (pipes : List (Pipeline Database)) (same : Bool) (row : Option Told)
      → (if same then removed rt pipes (if same then none else row) else if same then none else row)
        ≡ (if same then none else row)
  removed_again [] true row = refl
  removed_again [] false row = refl
  removed_again (p ∷ pipes) true row = refl
  removed_again (p ∷ pipes) false row = refl

  handle_delete-Sets :
      (uri k : Text) (pipes : List (Pipeline Database))
      → OverFeed pipes
      → Sets k
          (λ row. if text_eq uri k then removed rt pipes row else row)
          (handle_delete pipes uri)
  unfolding handle_delete
  handle_delete-Sets uri k [] h row db r = unchanged (text_eq uri k) k row db r
  handle_delete-Sets uri k (p ∷ pipes) h row db r =
      let step : Database = (p.store.delete_posts (uri ∷ []) db).0 in
      subst (λ o. Row k o (handle_delete pipes uri step)) (removed_again pipes (text_eq uri k) row)
        (handle_delete-Sets uri k pipes h.1 _ step
          (rw (h.0.deletes (uri ∷ []) db) (delete_posts-Row uri k row db r)))

  create_record-Sets :
      (actor uri cid k : Text) (r : Record) (pipes : List (Pipeline Database))
      → OverFeed pipes
      → Sets k
          (λ row. if text_eq uri k then created rt pipes actor uri cid r row else row)
          (create_record rt pipes actor uri cid r)
  unfolding create_record
  create_record-Sets actor uri cid k unreadable pipes h row db i =
      unchanged (text_eq uri k) k row db i
  create_record-Sets actor uri cid k not_a_post pipes h row db i =
      unchanged (text_eq uri k) k row db i
  create_record-Sets actor uri cid k (feed_post post) pipes h row db i =
      insert_each-Sets actor uri cid k post pipes h row db i

  process_op-Sets :
      (pipes : List (Pipeline Database)) (get_record : Text → Record) (k repo : Text) (op : RepoOp)
      → OverFeed pipes
      → Sets k (row_of_op rt pipes get_record k repo op) (process_op rt pipes get_record repo op)
  unfolding process_op handle_create
  process_op-Sets pipes get_record k repo op h row db r =
      let uri = build_uri repo op.path in
      elim (Kind-cases op) [
        | other_record e ↦ rw e r
        | deletes e f ↦ rw (e, f) (handle_delete-Sets uri k pipes h row db r)
        | creates e f g ↦
            rw (e, f, g)
              (create_record-Sets repo uri op.cid k (get_record op.path) pipes h row db r)
        | updates e f g ↦ rw (e, f, g) r
      ]

  process_ops-Sets :
      (pipes : List (Pipeline Database)) (get_record : Text → Record) (k repo : Text)
      (ops : List RepoOp)
      → OverFeed pipes
      → Sets k
          (row_of_ops rt pipes get_record k repo ops)
          (process_ops rt pipes get_record repo ops)
  unfolding process_ops
  process_ops-Sets pipes get_record k repo [] h row db r = r
  process_ops-Sets pipes get_record k repo (op ∷ ops) h row db r =
      process_ops-Sets pipes get_record k repo ops h _ (process_op rt pipes get_record repo op db)
        (process_op-Sets pipes get_record k repo op h row db r)

  process_repo-Sets :
      (pipes : List (Pipeline Database)) (k : Text) (evt : Commit) (o : Option (Text → Record))
      → OverFeed pipes
      → Sets k (row_of_repo rt pipes k evt o) (process_repo rt pipes evt o)
  process_repo-Sets pipes k evt none h row db r = r
  process_repo-Sets pipes k evt (some get_record) h row db r =
      process_ops-Sets pipes get_record k evt.repo evt.ops h row db r

  -- If the pipelines write to the feed service, each insertion at whatever the clock reads then, and
  -- no query fails, the table of posts is a map by URI, to which `ProcessEvent` does what the
  -- operations ask for, in order: a deletion, if there is a pipeline, removes the row of its URI; a
  -- created post that is taken by a pipeline gets a row under the first that takes it, with some time
  -- of insertion, unless its URI has one; and every other row stays as it was, its time included.
  pub process_event-row_of :
      (read_repo : CarReader) (pipes : List (Pipeline Database)) (evt : Option Commit) (k : Text)
      (db : Database)
      → OverFeed pipes
      → db.faults ≡ []
      → IsRow
          (row_of rt read_repo pipes k evt (as_kept (find_row k db.post)))
          (find_row k (process_event rt read_repo pipes evt db).0.post)
  unfolding process_event
  process_event-row_of read_repo pipes none k db h up = as_kept-IsRow (find_row k db.post)
  process_event-row_of read_repo pipes (some evt) k db h up = elim (Bool-cases evt.too_big) [
    | inl e ↦ rw e (as_kept-IsRow (find_row k db.post))
    | inr e ↦
        rw e
          (process_repo-Sets pipes k evt (read_repo evt.blocks) h (as_kept (find_row k db.post)) db
            (up, as_kept-IsRow (find_row k db.post))).1
  ]

  -- And it fails no query behind the event.
  pub process_event_up :
      (read_repo : CarReader) (pipes : List (Pipeline Database)) (evt : Commit) (db : Database)
      → OverFeed pipes
      → db.faults ≡ []
      → (process_event rt read_repo pipes (some evt) db).0.faults ≡ []
  unfolding process_event
  process_event_up read_repo pipes evt db h up = elim (Bool-cases evt.too_big) [
    | inl e ↦ rw e up
    | inr e ↦
        rw e
          (process_repo-Sets pipes [] evt (read_repo evt.blocks) h (as_kept (find_row [] db.post))
            db (up, as_kept-IsRow (find_row [] db.post))).0
  ]

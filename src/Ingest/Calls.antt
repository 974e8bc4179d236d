-- ===== src/Ingest/Calls.antt =====
-- What `ProcessEvent` of subscription/subscription.go asks of the stores, as a list of calls.
use baldsky.Common.{
  Text, List, [], ◌∷◌, ◌++◌, Option, none, some, not, if◌then◌else◌, codes, has_prefix, text_eq,
  ◌≡◌, refl, ◌∙◌, ap, sym, map, filter, Bool-cases, inl, inr,
}
use baldsky.Pipeline.Build.{Runtime, Pipeline}
use baldsky.Pipeline.Match.{FeedPost, should_insert}
use baldsky.Ingest.Uri.{build_uri}
use baldsky.Ingest.Processor.{
  insert_each, create_record, process_repo, RepoOp, Commit, Record, unreadable, not_a_post,
  feed_post, CarReader, handle_delete, handle_create, process_op, process_ops, process_event,
}
use baldsky.Ingest.Kinds.{other_record, deletes, creates, updates, Kind-cases}

-- A call of a pipeline's store: an insertion under the pipeline's name, or a deletion.
pub data Call (S : Type 0) : Type 0 where
  insertion : Pipeline S → Text → Text → Call S
  deletion : Pipeline S → Text → Call S

module _ {S : Type 0} where
  -- Makes the calls in order, whatever they return.
  unfoldable pub make_calls : List (Call S) → S → S
  make_calls [] st = st
  make_calls (insertion pipe uri cid ∷ calls) st =
      make_calls calls (pipe.store.insert_post pipe.name uri cid st).0
  make_calls (deletion pipe uri ∷ calls) st =
      make_calls calls (pipe.store.delete_posts (uri ∷ []) st).0

  make_calls-append :
      (xs ys : List (Call S)) (st : S) → make_calls (xs ++ ys) st ≡ make_calls ys (make_calls xs st)
  unfolding make_calls
  make_calls-append [] ys st = refl
  make_calls-append (insertion pipe uri cid ∷ xs) ys st =
      make_calls-append xs ys (pipe.store.insert_post pipe.name uri cid st).0
  make_calls-append (deletion pipe uri ∷ xs) ys st =
      make_calls-append xs ys (pipe.store.delete_posts (uri ∷ []) st).0

module _ {S : Type 0} (rt : Runtime) where
  -- A created post is inserted by each pipeline that takes it, in the order of the pipelines.
  abbrev pub insertions : List (Pipeline S) → Text → Text → Text → Record → List (Call S)
  insertions pipes actor uri cid unreadable = []
  insertions pipes actor uri cid not_a_post = []
  insertions pipes actor uri cid (feed_post post) =
      map (λ pipe. insertion pipe uri cid) (filter (λ pipe. should_insert rt pipe actor post) pipes)

  -- An operation on a post asks for deletions or insertions, any other for nothing.
  abbrev pub calls_of_op : List (Pipeline S) → (Text → Record) → Text → RepoOp → List (Call S)
  calls_of_op pipes get_record repo op =
      if not (has_prefix op.path (codes "app.bsky.feed.post/"))
      then []
      else if text_eq op.action (codes "delete")
      then map (λ pipe. deletion pipe (build_uri repo op.path)) pipes
      else if text_eq op.action (codes "create")
      then insertions pipes repo (build_uri repo op.path) op.cid (get_record op.path)
      else []

  abbrev pub calls_of_ops : List (Pipeline S) → (Text → Record) → Text → List RepoOp → List (Call S)
  calls_of_ops pipes get_record repo [] = []
  calls_of_ops pipes get_record repo (op ∷ ops) =
      calls_of_op pipes get_record repo op ++ calls_of_ops pipes get_record repo ops

  abbrev pub calls_of_repo : List (Pipeline S) → Commit → Option (Text → Record) → List (Call S)
  calls_of_repo pipes evt none = []
  calls_of_repo pipes evt (some get_record) = calls_of_ops pipes get_record evt.repo evt.ops

  -- Nothing for a nil event, an oversized one or one whose blocks cannot be read.
  abbrev pub calls_of : CarReader → List (Pipeline S) → Option Commit → List (Call S)
  calls_of read_repo pipes none = []
  calls_of read_repo pipes (some evt) =
      if evt.too_big then [] else calls_of_repo pipes evt (read_repo evt.blocks)

  deletions_lem :
      (pipes : List (Pipeline S)) (uri : Text) (st : S)
      → handle_delete pipes uri st ≡ make_calls (map (λ pipe. deletion pipe uri) pipes) st
  unfolding handle_delete make_calls
  deletions_lem [] uri st = refl
  deletions_lem (pipe ∷ pipes) uri st = deletions_lem pipes uri _

  each_lem :
      (post : FeedPost) (actor uri cid : Text) (pipes : List (Pipeline S)) (st : S)
      → insert_each rt pipes actor uri cid post st
        ≡ make_calls (insertions pipes actor uri cid (feed_post post)) st
  unfolding insert_each make_calls
  each_lem post actor uri cid [] st = refl
  each_lem post actor uri cid (pipe ∷ pipes) st =
      elim (Bool-cases (should_insert rt pipe actor post)) [
        | inl e ↦ rw e (each_lem post actor uri cid pipes _)
        | inr e ↦ rw e (each_lem post actor uri cid pipes st)
      ]

  record_lem :
      (pipes : List (Pipeline S)) (actor uri cid : Text) (r : Record) (st : S)
      → create_record rt pipes actor uri cid r st ≡ make_calls (insertions pipes actor uri cid r) st
  unfolding create_record make_calls
  record_lem pipes actor uri cid unreadable st = refl
  record_lem pipes actor uri cid not_a_post st = refl
  record_lem pipes actor uri cid (feed_post post) st = each_lem post actor uri cid pipes st

  create_lem :
      (pipes : List (Pipeline S)) (get_record : Text → Record) (actor uri : Text) (op : RepoOp)
      (st : S)
      → handle_create rt pipes get_record actor uri op st
        ≡ make_calls (insertions pipes actor uri op.cid (get_record op.path)) st
  unfolding handle_create
  create_lem pipes get_record actor uri op st =
      record_lem pipes actor uri op.cid (get_record op.path) st

  op_lem :
      (pipes : List (Pipeline S)) (get_record : Text → Record) (repo : Text) (op : RepoOp) (st : S)
      → process_op rt pipes get_record repo op st
        ≡ make_calls (calls_of_op pipes get_record repo op) st
  unfolding process_op
  op_lem pipes get_record repo op st = elim (Kind-cases op) [
    | other_record e ↦ rw e (unfold make_calls in refl)
    | deletes e f ↦ rw (e, f) (deletions_lem pipes (build_uri repo op.path) st)
    | creates e f g ↦ rw (e, f, g) (create_lem pipes get_record repo (build_uri repo op.path) op st)
    | updates e f g ↦ rw (e, f, g) (unfold make_calls in refl)
  ]

  ops_lem :
      (pipes : List (Pipeline S)) (get_record : Text → Record) (repo : Text) (ops : List RepoOp)
      (st : S)
      → process_ops rt pipes get_record repo ops st
        ≡ make_calls (calls_of_ops pipes get_record repo ops) st
  unfolding process_ops
  ops_lem pipes get_record repo [] st = unfold make_calls in refl
  ops_lem pipes get_record repo (op ∷ ops) st =
      ops_lem pipes get_record repo ops (process_op rt pipes get_record repo op st)
      ∙ ap (make_calls (calls_of_ops pipes get_record repo ops))
          (op_lem pipes get_record repo op st)
      ∙ sym (
          make_calls-append (calls_of_op pipes get_record repo op)
            (calls_of_ops pipes get_record repo ops) st)

  -- `ProcessEvent` makes exactly the calls that the event asks for, in the order of the operations
  -- and, for each, of the pipelines, whatever the stores answer; and it returns no error.
  pub process_event-make_calls :
      (read_repo : CarReader) (pipes : List (Pipeline S)) (evt : Option Commit) (st : S)
      → process_event rt read_repo pipes evt st
        ≡ (make_calls (calls_of read_repo pipes evt) st, none)
  unfolding process_event
  process_event-make_calls read_repo pipes none st = unfold make_calls in refl
  process_event-make_calls read_repo pipes (some evt) st = elim (Bool-cases evt.too_big) [
    | inl e ↦ rw e (unfold make_calls in refl)
    | inr e ↦ rw e (ap (λ t. (t, none)) (repo_lem (read_repo evt.blocks)))
  ]
    where
      repo_lem :
          (r : Option (Text → Record))
          → process_repo rt pipes evt r st ≡ make_calls (calls_of_repo pipes evt r) st
      repo_lem none = unfold make_calls in refl
      repo_lem (some get_record) = ops_lem pipes get_record evt.repo evt.ops st

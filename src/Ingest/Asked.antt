-- ===== src/Ingest/Asked.antt =====
-- Which calls an event asks `ProcessEvent` of subscription/subscription.go for.
use baldsky.Common.{
  Text, List, [], ◌∷◌, Option, none, some, true, codes, has_prefix, text_eq, map, ◌≡◌, refl, Memᴰ,
  All, All-append, Bool-cases, inl, inr,
}
use baldsky.Pipeline.Build.{Runtime, Pipeline}
use baldsky.Pipeline.Match.{FeedPost, should_insert}
use baldsky.Ingest.Uri.{build_uri}
use baldsky.Ingest.Processor.{RepoOp, Commit, Record, unreadable, not_a_post, feed_post, CarReader}
use baldsky.Ingest.Kinds.{other_record, deletes, creates, updates, Kind-cases}
use baldsky.Ingest.Calls.{
  make_calls, Call, insertion, deletion, insertions, calls_of_op, calls_of_ops, calls_of_repo,
  calls_of,
}

module _ {S : Type 0} (rt : Runtime) (read_repo : CarReader) (evt : Commit) where
  -- An operation of the event creates a post, which the pipeline takes.
  pub record Created (p : Pipeline S) (uri cid : Text) : Type 0 where
    pub get_record : Text → Record
    pub is_read : read_repo evt.blocks ≡ some get_record
    pub op : RepoOp
    pub listed : Memᴰ op evt.ops
    pub in_posts : has_prefix op.path (codes "app.bsky.feed.post/") ≡ true
    pub creating : text_eq op.action (codes "create") ≡ true
    pub post : FeedPost
    pub shows : get_record op.path ≡ feed_post post
    pub admitted : should_insert rt p evt.repo post ≡ true
    pub uri_of : uri ≡ build_uri evt.repo op.path
    pub cid_of : cid ≡ op.cid

  module _ (Q : Call S → Type 0) (pipes : List (Pipeline S))
      (of_deletion : (p : Pipeline S) → Memᴰ p pipes → (uri : Text) → Q (deletion p uri))
      (of_insertion : (p : Pipeline S)
        → Memᴰ p pipes
        → (uri cid : Text) → Created p uri cid
        → Q (insertion p uri cid)) where
    deletions-All :
        (uri : Text) (ps : List (Pipeline S))
        → ((p : Pipeline S) → Memᴰ p ps → Memᴰ p pipes)
        → All Q (map (λ p. deletion p uri) ps)
    deletions-All uri [] sub = tt
    deletions-All uri (p ∷ ps) sub = (
      of_deletion p (sub p (Memᴰ.head refl)) uri,
      deletions-All uri ps (λ q m. sub q (Memᴰ.tail m)),
    )

    module _ (get_record : Text → Record) (is_read : read_repo evt.blocks ≡ some get_record)
        (op : RepoOp) (listed : Memᴰ op evt.ops)
        (in_posts : has_prefix op.path (codes "app.bsky.feed.post/") ≡ true)
        (creating : text_eq op.action (codes "create") ≡ true) where
      taken-All :
          (post : FeedPost)
          → get_record op.path ≡ feed_post post
          → (ps : List (Pipeline S)) → ((p : Pipeline S) → Memᴰ p ps → Memᴰ p pipes)
          → All Q (insertions rt ps evt.repo (build_uri evt.repo op.path) op.cid (feed_post post))
      taken-All post shows [] sub = tt
      taken-All post shows (p ∷ ps) sub =
          let rest = taken-All post shows ps (λ q m. sub q (Memᴰ.tail m)) in
          elim (Bool-cases (should_insert rt p evt.repo post)) [
            | inr e ↦ rw e rest
            | inl e ↦ rw e (
              of_insertion p (sub p (Memᴰ.head refl)) _ _ (record {
                get_record = get_record;
                is_read = is_read;
                op = op;
                listed = listed;
                in_posts = in_posts;
                creating = creating;
                post = post;
                shows = shows;
                admitted = e;
                uri_of = refl;
                cid_of = refl;
              }),
              rest,
            )
          ]

      insertions-All :
          (r : Record)
          → get_record op.path ≡ r
          → All Q (insertions rt pipes evt.repo (build_uri evt.repo op.path) op.cid r)
      insertions-All unreadable shows = tt
      insertions-All not_a_post shows = tt
      insertions-All (feed_post post) shows = taken-All post shows pipes (λ p m. m)

    module _ (get_record : Text → Record) (is_read : read_repo evt.blocks ≡ some get_record) where
      op-All : (op : RepoOp) → Memᴰ op evt.ops → All Q (calls_of_op rt pipes get_record evt.repo op)
      op-All op listed = elim (Kind-cases op) [
        | other_record e ↦ rw e tt
        | deletes e f ↦ rw (e, f) (deletions-All (build_uri evt.repo op.path) pipes (λ p m. m))
        | creates e f g ↦
            rw (e, f, g) (insertions-All get_record is_read op listed e g (get_record op.path) refl)
        | updates e f g ↦ rw (e, f, g) tt
      ]

      ops-All :
          (ops : List RepoOp)
          → ((op : RepoOp) → Memᴰ op ops → Memᴰ op evt.ops)
          → All Q (calls_of_ops rt pipes get_record evt.repo ops)
      ops-All [] sub = tt
      ops-All (op ∷ ops) sub =
          All-append Q (calls_of_op rt pipes get_record evt.repo op)
            (calls_of_ops rt pipes get_record evt.repo ops) (op-All op (sub op (Memᴰ.head refl)))
            (ops-All ops (λ o m. sub o (Memᴰ.tail m)))

    -- What holds of the deletions from each pipeline and of the insertions of the posts that the
    -- event creates and the pipeline takes, holds of all calls.
    pub calls_of-All : All Q (calls_of rt read_repo pipes (some evt))
    calls_of-All = elim (Bool-cases evt.too_big) [
      | inl e ↦ rw e tt
      | inr e ↦ rw e (of_blocks (read_repo evt.blocks) refl)
    ]
      where
        of_blocks :
            (o : Option (Text → Record))
            → read_repo evt.blocks ≡ o
            → All Q (calls_of_repo rt pipes evt o)
        of_blocks none e = tt
        of_blocks (some get_record) e = ops-All get_record e evt.ops (λ op m. m)

-- A call leaves what holds of the stores.
abbrev pub Preserves : {S : Type 0} → (S → Type 0) → Call S → Type 0
Preserves {S} Holds (insertion p uri cid) =
    (st : S) → Holds st → Holds (p.store.insert_post p.name uri cid st).0
Preserves {S} Holds (deletion p uri) =
    (st : S) → Holds st → Holds (p.store.delete_posts (uri ∷ []) st).0

pub make_calls-Preserves :
    {S : Type 0} (Holds : S → Type 0) (calls : List (Call S)) (st : S)
    → All (Preserves Holds) calls
    → Holds st
    → Holds (make_calls calls st)
unfolding make_calls
make_calls-Preserves Holds [] st k h = h
make_calls-Preserves Holds (insertion p uri cid ∷ calls) st k h =
    make_calls-Preserves Holds calls _ k.1 (k.0 st h)
make_calls-Preserves Holds (deletion p uri ∷ calls) st k h =
    make_calls-Preserves Holds calls _ k.1 (k.0 st h)

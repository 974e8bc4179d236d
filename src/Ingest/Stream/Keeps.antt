-- ===== src/Ingest/Stream/Keeps.antt =====
-- `ProcessEvent` over the feed service of feed/feed.go leaves the cursors alone.
use baldsky.Common.{
  Text, List, [], ◌∷◌, Option, none, some, Error, ◌≡◌, refl, inl, inr, All, Bool-cases,
}
use baldsky.Db.Tables.{Database, SubStateRow}
use baldsky.Db.Queries.{fails, has_uri, find_cursor, upsert_row}
use baldsky.Db.Queries
use baldsky.Feed.Store
use baldsky.Feed.Store.{pipeline_store, cursor_or_zero}
use baldsky.Pipeline.Build.{Pipeline}

insert_post_keeps :
    (now feed_name uri cid : Text) (db : Database)
    → (Store.insert_post now feed_name uri cid db).0.sub_state ≡ db.sub_state
unfolding Store.insert_post Queries.insert_post
insert_post_keeps now feed_name uri cid db = elim (Bool-cases (fails db.faults)) [
  | inl e ↦ rw e
  | inr e ↦ elim (Bool-cases (has_uri uri db.post)) [ inl f ↦ rw (e, f) | inr f ↦ rw (e, f) ]
]

unless_failed_keeps :
    (t : Database × Option Error) (cursors : List SubStateRow)
    → t.0.sub_state ≡ cursors
    → (Store.unless_failed t (λ d. Store.delete_posts [] d)).0.sub_state ≡ cursors
unfolding Store.delete_posts
unless_failed_keeps (db, some e) cursors h = h
unless_failed_keeps (db, none) cursors h = h

delete_posts_keeps :
    (uri : Text) (db : Database) → (Store.delete_posts (uri ∷ []) db).0.sub_state ≡ db.sub_state
unfolding Store.delete_posts Queries.delete_post
delete_posts_keeps uri db =
    unless_failed_keeps (Queries.delete_post uri db) db.sub_state
      (elim (Bool-cases (fails db.faults)) [ inl e ↦ rw e | inr e ↦ rw e ])

-- The pipeline writes to the feed service, whatever the clock reads then.
pub record WritesFeed (p : Pipeline Database) : Type 0 where
  pub inserts :
      (name uri cid : Text) (db : Database)
      → (now : Text) × (p.store.insert_post name uri cid db ≡ Store.insert_post now name uri cid db)
  pub deletes :
      (uris : List Text) (db : Database) → p.store.delete_posts uris db ≡ Store.delete_posts uris db

pub pipeline_store-WritesFeed :
    (now : Text) (p : Pipeline Database) → p.store ≡ pipeline_store now → WritesFeed p
pipeline_store-WritesFeed now p e = record {
  inserts = λ name uri cid db. (now, rw e refl);
  deletes = λ uris db. rw e refl;
}

abbrev pub OverFeed : List (Pipeline Database) → Type 0
OverFeed pipes = All WritesFeed pipes

pub deletion_keeps :
    (p : Pipeline Database)
    → WritesFeed p
    → (uri : Text) (db : Database) → (p.store.delete_posts (uri ∷ []) db).0.sub_state ≡ db.sub_state
deletion_keeps p feed uri db = rw (feed.deletes (uri ∷ []) db) (delete_posts_keeps uri db)

pub insertion_keeps :
    (p : Pipeline Database)
    → WritesFeed p
    → (uri cid : Text) (db : Database)
    → (p.store.insert_post p.name uri cid db).0.sub_state ≡ db.sub_state
insertion_keeps p feed uri cid db =
    let (now, e) = feed.inserts p.name uri cid db in rw e (insert_post_keeps now p.name uri cid db)

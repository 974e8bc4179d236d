-- ===== src/Feed/Stored.antt =====
-- What the calls of feed/feed.go leave in the tables.
use baldsky.Common.{
  Text, List, [], ◌∷◌, Option, none, some, Bool, false, not, ok, Error, ℤ, if◌then◌else◌, ◌≡◌, refl,
  ◌∙◌, ap, arith, sym, subst, text_eq, text_eq_iff, filter, member, Bool-cases, inl, inr,
}
use baldsky.Db.Tables.{Database, PostRow, SubStateRow, FeedStat}
use baldsky.Db.Queries.{fails, later, took, has_uri, find_cursor, upsert_row}
use baldsky.Db.Queries
use baldsky.Feed.Store.{
  insert_post, delete_post, delete_posts, unless_failed, get_cursor, upsert_cursor,
}

-- The primary key of `post`: no two rows have one URI.
abbrev pub UniqueUris : List PostRow → Type 0
UniqueUris [] = Unit
UniqueUris (r ∷ rs) = (has_uri r.uri rs ≡ false) × UniqueUris rs

has_uri-filter :
    (uri : Text) (p : PostRow → Bool) (rs : List PostRow)
    → has_uri uri rs ≡ false
    → has_uri uri (filter p rs) ≡ false
has_uri-filter uri p [] h = refl
has_uri-filter uri p (r ∷ rs) h = ground (arith, has_uri-filter uri p rs)

filter-UniqueUris :
    (p : PostRow → Bool) (rs : List PostRow) → UniqueUris rs → UniqueUris (filter p rs)
filter-UniqueUris p [] h = tt
filter-UniqueUris p (r ∷ rs) h = elim (Bool-cases (p r)) [
  | inl e ↦ rw e (has_uri-filter r.uri p rs h.0, filter-UniqueUris p rs h.1)
  | inr e ↦ rw e (filter-UniqueUris p rs h.1)
]

-- Deleting one by one is deleting all at once.
filter-member :
    (uri : Text) (uris : List Text) (rs : List PostRow)
    → filter (λ r. not (member r.uri uris)) (filter (λ r. not (text_eq r.uri uri)) rs)
      ≡ filter (λ r. not (member r.uri (uri ∷ uris))) rs
filter-member uri uris [] = refl
filter-member uri uris (r ∷ rs) = ground (arith, filter-member uri uris rs)

filter_none : (rs : List PostRow) → filter (λ r. not (member r.uri [])) rs ≡ rs
filter_none [] = refl
filter_none (r ∷ rs) = ap (λ t. r ∷ t) (filter_none rs)

-- A database that fails no query.
abbrev alive : List PostRow → List SubStateRow → List FeedStat → Database
alive posts cursors stats = record {
  post = posts;
  sub_state = cursors;
  feed_stats = stats;
  faults = [];
}

delete_posts_alive :
    (uris : List Text) (posts : List PostRow) (cursors : List SubStateRow) (stats : List FeedStat)
    → delete_posts uris (alive posts cursors stats)
      ≡ (alive (filter (λ r. not (member r.uri uris)) posts) cursors stats, none)
unfolding delete_posts Queries.delete_post
delete_posts_alive [] posts cursors stats =
    ap (λ l. (alive l cursors stats, none)) (sym (filter_none posts))
delete_posts_alive (uri ∷ uris) posts cursors stats =
    delete_posts_alive uris (filter (λ r. not (text_eq r.uri uri)) posts) cursors stats
    ∙ ap (λ l. (alive l cursors stats, none)) (filter-member uri uris posts)

-- While no query fails, the loop of `DeletePosts` does what the one statement
-- `DELETE FROM post WHERE uri = ANY(uris)` does: it deletes the posts with those URIs and no other,
-- and changes nothing else.
delete_posts-batch :
    (uris : List Text) (db : Database)
    → db.faults ≡ []
    → delete_posts uris db ≡ Queries.delete_posts uris db
unfolding Queries.delete_posts
delete_posts-batch uris db up =
    subst
      (λ fs.
        delete_posts uris (record db { faults = fs })
        ≡ Queries.delete_posts uris (record db { faults = fs }))
      (sym up) (delete_posts_alive uris db.post db.sub_state db.feed_stats)

pub find_cursor-upsert_row :
    (service k : Text) (cursor : ℤ) (rs : List SubStateRow)
    → find_cursor k (upsert_row service cursor rs)
      ≡ (if text_eq service k then ok cursor else find_cursor k rs)
unfolding find_cursor upsert_row
find_cursor-upsert_row service k cursor [] = refl
find_cursor-upsert_row service k cursor (r ∷ rs) = ground (
  arith,
  text_eq_iff r.service service,
  text_eq_iff r.service k,
  text_eq_iff service k,
  find_cursor-upsert_row service k cursor rs,
)

-- While no query fails, the cursor read for a service is the one last written for it, and a write
-- for one service leaves every other as it was.
pub get_cursor-upsert_cursor :
    (service k : Text) (cursor : ℤ) (db : Database)
    → db.faults ≡ []
    → (get_cursor k (upsert_cursor service cursor db).0).0
      ≡ (if text_eq service k then ok cursor else (get_cursor k db).0)
unfolding get_cursor upsert_cursor Queries.get_cursor Queries.upsert_cursor
get_cursor-upsert_cursor service k cursor db up =
    ground (arith, find_cursor-upsert_row service k cursor db.sub_state)

insert_post-UniqueUris :
    (now feed_name uri cid : Text) (db : Database)
    → UniqueUris db.post
    → UniqueUris (insert_post now feed_name uri cid db).0.post
unfolding insert_post Queries.insert_post
insert_post-UniqueUris now feed_name uri cid db h = elim (Bool-cases (fails db.faults)) [
  | inl e ↦ rw e h
  | inr e ↦ elim (Bool-cases (has_uri uri db.post)) [
    | inl f ↦ rw e (rw f h)
    | inr f ↦ rw e (rw f (f, h))
  ]
]

delete_post-UniqueUris :
    (uri : Text) (db : Database)
    → UniqueUris db.post
    → UniqueUris (Queries.delete_post uri db).0.post
unfolding Queries.delete_post
delete_post-UniqueUris uri db h = elim (Bool-cases (fails db.faults)) [
  | inl e ↦ rw e h
  | inr e ↦ rw e (filter-UniqueUris (λ r. not (text_eq r.uri uri)) db.post h)
]

unless_failed-UniqueUris :
    (t : Database × Option Error) (next : Database → Database × Option Error)
    → UniqueUris t.0.post
    → ((d : Database) → UniqueUris d.post → UniqueUris (next d).0.post)
    → UniqueUris (unless_failed t next).0.post
unless_failed-UniqueUris (db, some e) next h k = h
unless_failed-UniqueUris (db, none) next h k = k db h

delete_posts-UniqueUris :
    (uris : List Text) (db : Database)
    → UniqueUris db.post
    → UniqueUris (delete_posts uris db).0.post
unfolding delete_posts
delete_posts-UniqueUris [] db h = h
delete_posts-UniqueUris (uri ∷ uris) db h =
    unless_failed-UniqueUris (Queries.delete_post uri db) (λ d. delete_posts uris d)
      (delete_post-UniqueUris uri db h) (λ d k. delete_posts-UniqueUris uris d k)

-- Inserting, deleting one and deleting many, failed or not, keep the URIs of the posts distinct.
pub store-UniqueUris :
    (now feed_name uri cid : Text) (uris : List Text) (db : Database)
    → UniqueUris db.post
    → UniqueUris (insert_post now feed_name uri cid db).0.post
      × UniqueUris (delete_post uri db).0.post
      × UniqueUris (delete_posts uris db).0.post
unfolding delete_post
store-UniqueUris now feed_name uri cid uris db h = (
  insert_post-UniqueUris now feed_name uri cid db h,
  delete_post-UniqueUris uri db h,
  delete_posts-UniqueUris uris db h,
)

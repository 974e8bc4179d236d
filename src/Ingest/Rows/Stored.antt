-- ===== src/Ingest/Rows/Stored.antt =====
-- What `InsertPost` and `DeletePosts` of feed/feed.go do to the row of a URI while no query fails.
use baldsky.Common.{
  Text, [], ◌∷◌, Option, none, some, if◌then◌else◌, Bool, true, false, text_eq, ◌≡◌, refl,
  Bool-cases, inl, inr,
}
use baldsky.Db.Tables.{Database, PostRow}
use baldsky.Db.Queries.{has_uri}
use baldsky.Db.Queries
use baldsky.Feed.Store
use baldsky.Feed.Store.{pipeline_store}
use baldsky.Ingest.Rows.{Told, kept, added, IsRow, told_or}
use baldsky.Feed.Lookup.{find_row, row_or, find_row-insert_post-delete_post}

-- The database fails no query, and has the row that is told under the URI.
abbrev pub Row : Text → Option Told → Database → Type 0
Row k row db = (db.faults ≡ []) × IsRow row (find_row k db.post)

insert_post_up :
    (now name uri cid : Text) (db : Database)
    → db.faults ≡ []
    → (Store.insert_post now name uri cid db).0.faults ≡ []
unfolding Store.insert_post Queries.insert_post
insert_post_up now name uri cid db up = elim (Bool-cases (has_uri uri db.post)) [
  | inl e ↦ rw (up, e) refl
  | inr e ↦ rw (up, e) refl
]

delete_posts_up :
    (uri : Text) (db : Database)
    → db.faults ≡ []
    → ((Store.delete_posts (uri ∷ []) db).0.faults ≡ [])
      × ((Store.delete_posts (uri ∷ []) db).0.post ≡ (Store.delete_post uri db).0.post)
unfolding Store.delete_posts Store.delete_post Queries.delete_post
delete_posts_up uri db up = rw up (refl, refl)

-- One insertion, on the row that the table has and on the row that is told.
row_or-IsRow :
    (same : Bool) (now name uri cid : Text) (told : Option Told) (row : Option PostRow)
    → IsRow told row
    → IsRow (if same then some (told_or told (added uri cid name)) else told) (
        if same
        then some (row_or row (record { uri = uri; cid = cid; indexed_at = now; feed_name = name }))
        else row)
row_or-IsRow false now name uri cid told row h = h
row_or-IsRow true now name uri cid none row h = (now, rw h refl)
row_or-IsRow true now name uri cid (some (kept r)) row h = rw h refl
row_or-IsRow true now name uri cid (some (added u c n)) row (at, h) = (at, rw h refl)

none-IsRow :
    (same : Bool) (told : Option Told) (row : Option PostRow)
    → IsRow told row
    → IsRow (if same then none else told) (if same then none else row)
none-IsRow true told row h = refl
none-IsRow false told row h = h

pub insert_post-Row :
    (now name uri cid k : Text) (told : Option Told) (db : Database)
    → Row k told db
    → Row k
        (if text_eq uri k then some (told_or told (added uri cid name)) else told)
        (Store.insert_post now name uri cid db).0
insert_post-Row now name uri cid k told db (up, found) = (
  insert_post_up now name uri cid db up,
  rw ((find_row-insert_post-delete_post now name uri cid k db up).0)
      (row_or-IsRow (text_eq uri k) now name uri cid told (find_row k db.post) found),
)

pub delete_posts-Row :
    (uri k : Text) (told : Option Told) (db : Database)
    → Row k told db
    → Row k (if text_eq uri k then none else told) (Store.delete_posts (uri ∷ []) db).0
delete_posts-Row uri k told db (up, found) =
    let (up', same) = delete_posts_up uri db up in
    (
      up',
      rw (same, (find_row-insert_post-delete_post [] [] uri [] k db up).1)
          (none-IsRow (text_eq uri k) told (find_row k db.post) found),
    )

-- ===== src/Feed/Lookup.antt =====
-- What the store of the pipelines (feed/feed.go) holds under a URI.
use baldsky.Common.{
  Text, List, [], ◌∷◌, Option, none, some, Bool, true, false, not, if◌then◌else◌, ◌≡◌, refl, arith,
  text_eq, text_eq_iff, filter, Bool-cases, inl, inr, ap, ◌∙◌,
}
use baldsky.Db.Tables.{Database, PostRow}
use baldsky.Db.Queries.{has_uri}
use baldsky.Db.Queries
use baldsky.Feed.Store.{insert_post, delete_post}

unfoldable pub find_row : Text → List PostRow → Option PostRow
find_row k [] = none
find_row k (r ∷ rs) = if text_eq r.uri k then some r else find_row k rs

-- A row that is there, or else a given one.
abbrev pub row_or : Option PostRow → PostRow → PostRow
row_or none new_row = new_row
row_or (some r) new_row = r

pub find_row-filter :
    (uri k : Text) (rs : List PostRow)
    → find_row k (filter (λ r. not (text_eq r.uri uri)) rs)
      ≡ (if text_eq uri k then none else find_row k rs)
unfolding find_row
find_row-filter uri k [] = ground arith
find_row-filter uri k (r ∷ rs) =
    ground (
      arith,
      text_eq_iff r.uri uri,
      text_eq_iff r.uri k,
      text_eq_iff uri k,
      find_row-filter uri k rs,
    )

find_row-has_uri :
    (uri : Text) (rs : List PostRow) → has_uri uri rs ≡ false → find_row uri rs ≡ none
unfolding find_row
find_row-has_uri uri [] h = refl
find_row-has_uri uri (r ∷ rs) h = ground (arith, find_row-has_uri uri rs)

row_or-find_row :
    (uri : Text) (new_row : PostRow) (rs : List PostRow)
    → has_uri uri rs ≡ true
    → find_row uri rs ≡ some (row_or (find_row uri rs) new_row)
unfolding find_row
row_or-find_row uri new_row [] h = cc
row_or-find_row uri new_row (r ∷ rs) h = ground (arith, row_or-find_row uri new_row rs)

inserted_lem :
    (new_row : PostRow) (k : Text) (rs : List PostRow)
    → find_row k (if has_uri new_row.uri rs then rs else new_row ∷ rs)
      ≡ (if text_eq new_row.uri k then some (row_or (find_row k rs) new_row) else find_row k rs)
unfolding find_row
inserted_lem new_row k rs = elim (Bool-cases (text_eq new_row.uri k)) [
  | inl e ↦
      let same : new_row.uri ≡ k = (text_eq_iff new_row.uri k).0 e in
      elim (Bool-cases (has_uri k rs)) [
        | inl f ↦ rw (same, f) (ground (arith, row_or-find_row k new_row rs f, text_eq_iff k k))
        | inr f ↦ rw (same, f) (ground (arith, find_row-has_uri k rs f, text_eq_iff k k))
      ]
  | inr e ↦ ground arith
]

inserted_posts :
    (b : Bool) (r : PostRow) (db : Database)
    → (if b then db else record db { post = r ∷ db.post }).post
      ≡ (if b then db.post else r ∷ db.post)
inserted_posts true r db = refl
inserted_posts false r db = refl

-- While no query fails, `InsertPost` of a URI that is not stored stores it with its CID, its feed and
-- the time; one that is stored keeps its row, whatever feed asks for it; and `DeletePost` removes
-- it from every feed. Posts with other URIs are as before.
pub find_row-insert_post-delete_post :
    (now feed_name uri cid k : Text) (db : Database)
    → db.faults ≡ []
    → (find_row k (insert_post now feed_name uri cid db).0.post ≡ (
        if text_eq uri k
        then some (
            row_or
              (find_row k db.post)
              (record { uri = uri; cid = cid; indexed_at = now; feed_name = feed_name }))
        else find_row k db.post))
      × (find_row k (delete_post uri db).0.post
          ≡ (if text_eq uri k then none else find_row k db.post))
unfolding insert_post delete_post Queries.insert_post Queries.delete_post
find_row-insert_post-delete_post now feed_name uri cid k db up =
    let r : PostRow = record { uri = uri; cid = cid; indexed_at = now; feed_name = feed_name } in
    (
      rw up (
          ap (find_row k) (inserted_posts (has_uri uri db.post) r (record db { faults = [] }))
          ∙ inserted_lem r k db.post),
      rw up (find_row-filter uri k db.post),
    )

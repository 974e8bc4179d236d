-- ===== src/Ingest/Rows/Served.antt =====
-- From an event of the firehose to the pages of a feed: `ProcessEvent` of subscription/subscription.go
-- and then `GetFeedPage` of feed/feed.go.
use baldsky.Common.{
  Text, List, [], ◌∷◌, Option, none, some, Bool, true, false, ◌&&◌, Error, ok, ℕ, ◌<◌, length, ◌≡◌,
  refl, ◌∙◌, ap, sym, arith, All, text_eq, text_eq_iff, text_eq_comm, subst, ◌||◌, member, any,
  filter, any-map, any-perm, any-filter, Bool-cases, inl, inr,
}
use mathlib.Core.List.{Perm}
use baldsky.Db.Tables.{Collation, Database, PostRow}
use baldsky.Db.Queries.{in_feed, has_uri}
use baldsky.Db.Page.{DistinctKeys}
use baldsky.Feed.Lookup.{find_row}
use baldsky.Feed.Pages.{HasCursor, uris}
use baldsky.Feed.Service.{Service}
use baldsky.Feed.Skeleton.{resolve}
use baldsky.Feed.Stored.{UniqueUris}
use baldsky.Feed.Walk.{walk, walk_complete}
use baldsky.Pipeline.Build.{Runtime, Pipeline}
use baldsky.Ingest.Processor.{Commit, CarReader, process_event}
use baldsky.Ingest.Rows.{Told, kept, added, IsRow, as_kept, row_of}
use baldsky.Ingest.Rows.Steps.{process_event-row_of, process_event_up}
use baldsky.Ingest.Stream.Keeps.{OverFeed}
use baldsky.Ingest.Stream.Content.{process_event-UniqueUris}

-- The row of a URI is one of the feed.
listed : Text → Option PostRow → Bool
listed rkey none = false
listed rkey (some r) = in_feed rkey r

-- The same, of a row that is told.
abbrev pub told_listed : Text → Option Told → Bool
told_listed rkey none = false
told_listed rkey (some (kept r)) = in_feed rkey r
told_listed rkey (some (added uri cid name)) = text_eq name rkey

listed-IsRow :
    (rkey : Text) (told : Option Told) (row : Option PostRow)
    → IsRow told row
    → listed rkey row ≡ told_listed rkey told
unfolding listed
listed-IsRow rkey none row h = rw h refl
listed-IsRow rkey (some (kept r)) row h = rw h refl
listed-IsRow rkey (some (added uri cid name)) row (now, h) = rw h refl

not_there :
    (rkey k : Text) (rs : List PostRow)
    → has_uri k rs ≡ false
    → any (λ r. in_feed rkey r && text_eq k r.uri) rs ≡ false
not_there rkey k [] h = refl
not_there rkey k (r ∷ rs) h =
    ground (arith, text_eq_iff r.uri k, text_eq_iff k r.uri, not_there rkey k rs)

and_or_nil : (b : Bool) → (b && true) || false ≡ b
and_or_nil true = refl
and_or_nil false = refl

and_or_other : (b c : Bool) → (b && false) || c ≡ c
and_or_other true c = refl
and_or_other false c = refl

-- A URI is read exactly if its one row is of the feed.
any-find_row :
    (rkey k : Text) (rs : List PostRow)
    → UniqueUris rs
    → any (λ r. in_feed rkey r && text_eq k r.uri) rs ≡ listed rkey (find_row k rs)
unfolding find_row listed
any-find_row rkey k [] h = refl
any-find_row rkey k (r ∷ rs) h = elim (Bool-cases (text_eq r.uri k)) [
  | inl e ↦
      let same = (text_eq_iff r.uri k).0 e in
      let rest = not_there rkey k rs (ap (λ u. has_uri u rs) (sym same) ∙ h.0) in
      rw (text_eq_comm k r.uri, e, rest) (and_or_nil (in_feed rkey r))
  | inr e ↦
      rw (text_eq_comm k r.uri, e) (and_or_other (in_feed rkey r) _ ∙ any-find_row rkey k rs h.1)
]

member-listed :
    (rkey k : Text) (rows rs : List PostRow)
    → UniqueUris rs
    → Perm rows (filter (in_feed rkey) rs)
    → member k (uris rows) ≡ listed rkey (find_row k rs)
member-listed rkey k rows rs unique p =
    any-map (text_eq k) (λ r. r.uri) rows
    ∙ any-perm (λ r. text_eq k r.uri) p
    ∙ any-filter (λ r. text_eq k r.uri) (in_feed rkey) rs
    ∙ any-find_row rkey k rs unique

module _ (rt : Runtime) (read_repo : CarReader) (pipes : List (Pipeline Database))
    (over : OverFeed pipes) (c : Collation) (s : Service) (feed_uri limit_str rkey : Text)
    (resolved : resolve s feed_uri ≡ ok rkey) where
  -- Once an event is processed, a client that follows the cursors of the feed reads a URI exactly if
  -- its row behind the event, as the operations of the event and the row before tell it, is one of
  -- the feed: if the pipelines write to the feed service, each insertion at whatever the clock reads
  -- then, no query fails, the URIs were distinct, times and CIDs of the feed's posts behind the event
  -- identify and delimit them, and the client may ask for more pages than the feed has posts.
  pub process_event-walk :
      (evt : Commit) (db db' : Database) (e : Option Error) (fuel : ℕ)
      → db.faults ≡ []
      → UniqueUris db.post
      → process_event rt read_repo pipes (some evt) db ≡ (db', e)
      → DistinctKeys (filter (in_feed rkey) db'.post)
      → All HasCursor (filter (in_feed rkey) db'.post)
      → length (filter (in_feed rkey) db'.post) < fuel
      → (seen : List Text) × (walk c s feed_uri limit_str db' fuel [] ≡ some seen)
        × ((k : Text)
            → member k seen
              ≡ told_listed rkey
                  (row_of rt read_repo pipes k (some evt) (as_kept (find_row k db.post))))
  process_event-walk evt db db' e fuel up unique done distinct cursors enough =
      let up' : db'.faults ≡ [] =
        ap (λ t. t.0.faults) (sym done) ∙ process_event_up rt read_repo pipes evt db over up in
      let unique' : UniqueUris db'.post =
        subst (λ t. UniqueUris t.0.post) done
          (process_event-UniqueUris rt read_repo pipes over evt db unique) in
      let (rows, read, perm, strict) =
        walk_complete c s feed_uri limit_str db' rkey resolved up' distinct cursors fuel enough in
      (
        uris rows,
        read,
        λ k.
            member-listed rkey k rows db'.post unique' perm
            ∙ ap (λ t. listed rkey (find_row k t.0.post)) (sym done)
            ∙ listed-IsRow rkey _ _
                (process_event-row_of rt read_repo pipes (some evt) k db over up),
      )

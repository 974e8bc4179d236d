-- ===== src/Ingest/Stream/Content.antt =====
-- What the table of posts holds while the subscription of subscription/subscription.go runs over the
-- feed service of feed/feed.go.
use baldsky.Common.{
  Text, List, [], ◌∷◌, Option, none, some, Bool, not, Error, ℤ, ℕ, ◌≡◌, refl, ◌⊎◌, inl, inr, All,
  All-mem, All-imp, Memᴰ, Bool-cases, filter, text_eq,
}
use baldsky.Db.Tables.{Database, PostRow}
use baldsky.Db.Queries.{fails, has_uri}
use baldsky.Db.Queries
use baldsky.Feed.Store
use baldsky.Feed.Store.{pipeline_store}
use baldsky.Feed.Stored.{UniqueUris, store-UniqueUris}
use baldsky.Pipeline.Build.{Runtime, Pipeline}
use baldsky.Ingest.Processor.{Commit, CarReader, process_event}
use baldsky.Ingest.Calls.{process_event-make_calls, calls_of}
use baldsky.Ingest.Asked.{Created, Preserves, make_calls-Preserves, calls_of-All}
use baldsky.Ingest.Stream.{System, Reach}
use baldsky.Ingest.Stream.Histories.{CallKeeps, Kept, Reach-Holds}
use baldsky.Ingest.Stream.Keeps.{WritesFeed, OverFeed}
use baldsky.Ingest.Stream.Stores.{asked, feed_setup, calling-EachCall}

module _ (P : PostRow → Type 0) where
  filter-All : (p : PostRow → Bool) (rs : List PostRow) → All P rs → All P (filter p rs)
  filter-All p [] h = tt
  filter-All p (r ∷ rs) h = elim (Bool-cases (p r)) [
    | inl e ↦ rw e (h.0, filter-All p rs h.1)
    | inr e ↦ rw e (filter-All p rs h.1)
  ]

  insert_post-All :
      (now name uri cid : Text) (db : Database)
      → P (record { uri = uri; cid = cid; indexed_at = now; feed_name = name })
      → All P db.post
      → All P (Store.insert_post now name uri cid db).0.post
  unfolding Store.insert_post Queries.insert_post
  insert_post-All now name uri cid db new h = elim (Bool-cases (fails db.faults)) [
    | inl e ↦ rw e h
    | inr e ↦ elim (Bool-cases (has_uri uri db.post)) [
      | inl f ↦ rw (e, f) h
      | inr f ↦ rw (e, f) (new, h)
    ]
  ]

  deleted-All :
      (t : Database × Option Error)
      → All P t.0.post
      → All P (Store.unless_failed t (λ d. Store.delete_posts [] d)).0.post
  unfolding Store.delete_posts
  deleted-All (db, some e) h = h
  deleted-All (db, none) h = h

  delete_posts-All :
      (uri : Text) (db : Database) → All P db.post → All P (Store.delete_posts (uri ∷ []) db).0.post
  unfolding Store.delete_posts Queries.delete_post
  delete_posts-All uri db h =
      deleted-All (Queries.delete_post uri db) (elim (Bool-cases (fails db.faults)) [
        | inl e ↦ rw e h
        | inr e ↦ rw e (filter-All (λ r. not (text_eq r.uri uri)) db.post h)
      ])

get_post : (service : Text) (db : Database) → (Store.get_cursor service db).1.post ≡ db.post
unfolding Store.get_cursor Queries.get_cursor
get_post service db = refl

upsert_post :
    (service : Text) (c : ℤ) (db : Database) → (Store.upsert_cursor service c db).0.post ≡ db.post
unfolding Store.upsert_cursor Queries.upsert_cursor
upsert_post service c db = elim (Bool-cases (fails db.faults)) [ inl e ↦ rw e | inr e ↦ rw e ]

module _ (rt : Runtime) (read_repo : CarReader) (pipes : List (Pipeline Database))
    (over : OverFeed pipes) where
  -- A received event creates the post, and the pipeline of the row's feed takes it.
  abbrev pub Taken : List Commit → PostRow → Type 0
  Taken received r =
      (evt : Commit) × Memᴰ evt received
      × ((p : Pipeline Database) × Memᴰ p pipes
          × (r.feed_name ≡ p.name)
          × Created rt read_repo evt p r.uri r.cid)

  -- The URIs are distinct, and each post was there at the start or is taken.
  abbrev pub Content : List PostRow → List Commit → Database → Type 0
  Content first received db =
      UniqueUris db.post × All (λ r. Memᴰ r first ⊎ Taken received r) db.post

  grown :
      (first : List PostRow) (evt : Commit) (received : List Commit) (rs : List PostRow)
      → All (λ r. Memᴰ r first ⊎ Taken received r) rs
      → All (λ r. Memᴰ r first ⊎ Taken (evt ∷ received) r) rs
  grown first evt received =
      All-imp (λ r h. elim h [ inl m ↦ inl m | inr (e, m, t) ↦ inr (e, Memᴰ.tail m, t) ])

  -- Each call that `ProcessEvent` makes for a received event keeps it.
  event-Content :
      (first : List PostRow) (evt : Commit)
      → All (λ c. CallKeeps (Content first) evt (asked c)) (calls_of rt read_repo pipes (some evt))
  event-Content first evt =
      calls_of-All rt read_repo evt (λ c. CallKeeps (Content first) evt (asked c)) pipes
        (λ p m uri received db known (u, k).
          rw ((All-mem WritesFeed pipes over m).deletes (uri ∷ []) db)
            ((store-UniqueUris [] [] [] [] (uri ∷ []) db u).2, delete_posts-All _ uri db k))
        (λ p m uri cid c received db known (u, k).
          let (now, e) = (All-mem WritesFeed pipes over m).inserts p.name uri cid db in
          rw e (
            (store-UniqueUris now p.name uri cid [] db u).0,
            insert_post-All _ now p.name uri cid db (inr (evt, known, (p, m, refl, c))) k,
          ))

  start_rows :
      (first rs : List PostRow)
      → ((r : PostRow) → Memᴰ r rs → Memᴰ r first)
      → All (λ r. Memᴰ r first ⊎ Taken [] r) rs
  start_rows first [] sub = tt
  start_rows first (r ∷ rs) sub =
      (inl (sub r (Memᴰ.head refl)), start_rows first rs (λ q m. sub q (Memᴰ.tail m)))

  -- `ProcessEvent` keeps the URIs distinct.
  pub process_event-UniqueUris :
      (evt : Commit) (db : Database)
      → UniqueUris db.post
      → UniqueUris (process_event rt read_repo pipes (some evt) db).0.post
  process_event-UniqueUris evt db unique =
      let Unique = λ (d : Database). UniqueUris d.post in
      rw (process_event-make_calls rt read_repo pipes (some evt) db) (
        make_calls-Preserves Unique _ db
          (calls_of-All rt read_repo evt (Preserves Unique) pipes
            (λ p m uri d u.
              rw ((All-mem WritesFeed pipes over m).deletes (uri ∷ []) d)
                (store-UniqueUris [] [] [] [] (uri ∷ []) d u).2)
            (λ p m uri cid c d u.
              let (now, e) = (All-mem WritesFeed pipes over m).inserts p.name uri cid d in
              rw e (store-UniqueUris now p.name uri cid [] d u).0))
          unique)

  module _ (service : Text) (concurrency : ℕ) (next : ℤ → Commit → Type 0) where
    Content-Kept :
        (first : List PostRow)
        → Kept (feed_setup rt read_repo pipes service concurrency next) (Content first)
    Content-Kept first = record {
      by_get = λ h st c. rw (get_post service st) c;
      by_upsert = λ h st n c. rw (upsert_post service n st) c;
      by_receipt = λ h st e (u, k). (u, grown first e h st.post k);
      by_calls = λ e.
          calling-EachCall (CallKeeps (Content first) e) (calls_of rt read_repo pipes (some e))
            (event-Content first e);
    }

    -- In every state that the subscription over the feed service reaches, inside events too, with
    -- however many handlers whose calls interleave, and through disconnections, failed queries, and
    -- ends of the process at any point, no two posts have one URI if none had at the start, and each
    -- post that was not there at the start is one that a received event creates and that the pipeline
    -- of its feed takes.
    pub Reach-Content :
        (st : Database) {s : System Database}
        → Reach (feed_setup rt read_repo pipes service concurrency next) st s
        → UniqueUris st.post
        → Content st.post s.received s.stores
    Reach-Content st r unique =
        Reach-Holds (feed_setup rt read_repo pipes service concurrency next) (Content st.post)
          (Content-Kept st.post) st r (unique, start_rows st.post st.post (λ q m. m))

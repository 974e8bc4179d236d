-- ===== src/Purge/Stale.antt =====
-- What `findStalePosts` of cmd/purge.go finds, if the public API answers for each post it is asked.
use baldsky.Common.{
  Text, List, [], ◌∷◌, ◌++◌, Option, none, some, true, false, not, ok, ℕ, zero, suc, ltb, length,
  take, map, filter, ◌≡◌, refl, ◌∙◌, ap, sym, arith, ◌≤◌, ◌<◌, append_assoc, Bool-cases, inl, inr,
  ltb→lt, length-take, subst,
}
use mathlib.Core.List.{Perm}
use baldsky.Common.Sort.{length-sort, sort-perm, Strict}
use baldsky.Db.Tables.{Collation, PostRow, Database, GetFeedPageParams}
use baldsky.Db.Queries.{in_feed, newer, select_page, took, later}
use baldsky.Db.Queries
use baldsky.Db.Page.{DistinctKeys, ranked, ranked-Strict, select_page_first, select_page_behind}
use baldsky.Feed.Pages.{FullPage, full_page, take_all, rest_shorter}
use baldsky.Pipeline.Build.{Runtime, Pipeline}
use baldsky.Purge.{
  StalePost, PostView, GetPosts, page_size, batch_size, next_params, find_pages, find_stale_posts,
}
use baldsky.Purge.Judged.{Answers, keeps, stale_of, stale_of-append, uris_of_stale, judge_page_lem}

-- The parameters of the first page of a feed, and of the page behind a post.
abbrev params_of : Text → Option PostRow → GetFeedPageParams
params_of feed_name none = record {
  feed_name = feed_name;
  cursor_indexed_at = none;
  cursor_cid = none;
  limit = page_size;
}
params_of feed_name (some r) = record {
  feed_name = feed_name;
  cursor_indexed_at = some r.indexed_at;
  cursor_cid = some r.cid;
  limit = page_size;
}

next_params-append :
    (feed_name : Text) (key : Option PostRow) (xs : List PostRow) (r : PostRow)
    → next_params (params_of feed_name key) (xs ++ r ∷ []) ≡ params_of feed_name (some r)
next_params-append feed_name none [] r = refl
next_params-append feed_name (some q) [] r = refl
next_params-append feed_name key (x ∷ []) r = next_params-append feed_name key [] r
next_params-append feed_name key (x ∷ y ∷ xs) r = next_params-append feed_name key (y ∷ xs) r

took_lem : (db : Database) → db.faults ≡ [] → took db ≡ db
took_lem db up =
    let e : later db.faults ≡ db.faults = rw up in ap (λ fs. record db { faults = fs }) e

module _ {S : Type 0} (rt : Runtime) (p : Pipeline S) (get_posts : GetPosts)
    (view : Text → Option PostView)
    (answers : (uris : List Text) → length uris ≤ batch_size → Answers get_posts view uris)
    (c : Collation) (feed_name : Text) (db : Database) (up : db.faults ≡ [])
    (distinct : DistinctKeys (filter (in_feed feed_name) db.post)) where
  -- The posts behind the last one that was read.
  abbrev Behind : Option PostRow → List PostRow → Type 0
  Behind none ys = ranked c feed_name db.post ≡ ys
  Behind (some r) ys = (xs : List PostRow) × (ranked c feed_name db.post ≡ xs ++ r ∷ ys)

  rows_lem :
      (key : Option PostRow) (ys : List PostRow)
      → Behind key ys
      → select_page c (params_of feed_name key) db.post ≡ take page_size ys
  rows_lem none ys e = select_page_first c feed_name page_size db.post ∙ ap (take page_size) e
  rows_lem (some r) ys (xs, e) = select_page_behind c feed_name page_size db.post xs r ys distinct e

  query_lem :
      (key : Option PostRow) (ys : List PostRow)
      → Behind key ys
      → Queries.get_feed_page c (params_of feed_name key) db ≡ (ok (take page_size ys), db)
  unfolding Queries.get_feed_page
  query_lem key ys b = rw (rows_lem key ys b, took_lem db up, up)

  Behind-rest :
      (key : Option PostRow) (before : List PostRow) (last : PostRow) (rest : List PostRow)
      → Behind key (before ++ last ∷ rest)
      → Behind (some last) rest
  Behind-rest none before last rest e = (before, e)
  Behind-rest (some r) before last rest (xs, e) =
      (xs ++ r ∷ before, e ∙ sym (append_assoc xs (r ∷ before) (last ∷ rest)))

  short_page :
      (fuel : ℕ) (key : Option PostRow) (ys : List PostRow)
      → Behind key ys
      → length ys < page_size
      → find_pages rt p get_posts c (suc fuel) (params_of feed_name key) db
        ≡ some (ok (stale_of rt p view ys))
  unfolding find_pages
  short_page fuel key ys b short =
      let test : ltb (length ys) page_size ≡ true = ground arith in
      rw
        (
          query_lem key ys b,
          take_all page_size ys (omega arith),
          judge_page_lem rt p get_posts view answers (length ys) ys (omega arith),
          test,
        )
        refl

  full_page_lem :
      (fuel : ℕ) (key : Option PostRow) (ys : List PostRow) (f : FullPage page_size ys)
      → Behind key ys
      → page_size ≤ length ys
      → find_pages rt p get_posts c fuel (params_of feed_name (some f.last)) db
        ≡ some (ok (stale_of rt p view f.rest))
      → find_pages rt p get_posts c (suc fuel) (params_of feed_name key) db
        ≡ some (ok (stale_of rt p view ys))
  unfolding find_pages
  full_page_lem fuel key ys f b full ih =
      let count : length (take page_size ys) ≡ page_size =
        omega (arith, length-take page_size ys) in
      let test : ltb (length (f.before ++ f.last ∷ [])) page_size ≡ false =
        rw (← f.page, count) refl in
      rw
        (
          query_lem key ys b,
          f.page,
          judge_page_lem rt p get_posts view answers (length (f.before ++ f.last ∷ []))
              (f.before ++ f.last ∷ []) (omega arith),
          test,
          next_params-append feed_name key f.before f.last,
          ih,
        )
        (ap (λ l. some (ok l))
          (sym (stale_of-append rt p view (f.before ++ f.last ∷ []) f.rest)
            ∙ ap (stale_of rt p view) (append_assoc f.before (f.last ∷ []) f.rest ∙ sym f.splits)))

  find_pages_lem :
      (fuel : ℕ) (key : Option PostRow) (ys : List PostRow)
      → Behind key ys
      → length ys < fuel
      → find_pages rt p get_posts c fuel (params_of feed_name key) db
        ≡ some (ok (stale_of rt p view ys))
  find_pages_lem zero key ys b h = absurd (omega arith)
  find_pages_lem (suc fuel) key ys b h = elim (Bool-cases (ltb (length ys) page_size)) [
    | inl short ↦ short_page fuel key ys b (ltb→lt _ _ short)
    | inr full ↦
        let le : page_size ≤ length ys = ground arith in
        let f = full_page page_size ys (omega arith) le in
        full_page_lem fuel key ys f b le (
          find_pages_lem fuel (some f.last) f.rest
            (Behind-rest key f.before f.last f.rest (subst (Behind key) f.splits b))
            (rest_shorter page_size ys f fuel h))
  ]

  -- The purge finds, newest first and each once, exactly those stored posts of the feed that are
  -- not on Bluesky any more, that are no feed posts there, or that the pipeline does not match: if
  -- it may ask for more pages than the feed has posts, no query fails, no two posts of the feed
  -- share both time and CID, and the API answers each call for at most 25 posts.
  pub find_stale_posts_lem :
      (fuel : ℕ)
      → length (filter (in_feed feed_name) db.post) < fuel
      → (stale : List StalePost) × (rows : List PostRow) × (find_stale_posts rt p get_posts c fuel
            feed_name db
          ≡ some (ok stale))
        × (map (λ q. q.uri) stale
            ≡ map (λ r. r.uri) (filter (λ r. not (keeps rt p (view r.uri))) rows))
        × Perm rows (filter (in_feed feed_name) db.post)
        × Strict (newer c) rows
  unfolding find_stale_posts
  find_stale_posts_lem fuel h = (
    stale_of rt p view (ranked c feed_name db.post),
    ranked c feed_name db.post,
    find_pages_lem fuel none (ranked c feed_name db.post) refl
        (omega (arith, length-sort (newer c) (filter (in_feed feed_name) db.post))),
    uris_of_stale rt p view (ranked c feed_name db.post),
    sort-perm (newer c) (filter (in_feed feed_name) db.post),
    ranked-Strict c feed_name db.post distinct,
  )

-- ===== src/Feed/Walk.antt =====
-- A client that follows the cursors of `GetFeedPage` (feed/feed.go) from the first page on.
use baldsky.Common.{
  Text, List, [], ◌∷◌, ◌++◌, Option, none, some, ◌≡◌, refl, inl, inr, ◌∙◌, ap, sym, Result, ok, err,
  ℕ, zero, suc, ◌<◌, ◌≤◌, ltb, length, take, arith, All, All-at, Bool-cases, filter, append_assoc,
  ltb→lt, subst,
}
use mathlib.Core.List.{Perm}
use baldsky.Common.Sort.{All-sort, length-sort, sort-perm, Strict}
use baldsky.Db.Tables.{Collation, PostRow, Database}
use baldsky.Db.Queries.{in_feed, newer, select_page, took}
use baldsky.Db.Queries
use baldsky.Db.Page.{DistinctKeys, ranked, ranked-Strict, select_page_first, select_page_behind}
use baldsky.Feed.Service.{Service}
use baldsky.Feed.Cursor.{build_cursor}
use baldsky.Feed.Pages.{
  HasCursor, page_limit_bounds, page_cursor_built, FullPage, full_page, response_short,
  response_full, uris_full, rest_shorter, uris,
}
use baldsky.Feed.Skeleton.{
  FeedError, FeedResponse, resolve, page_limit, page_cursor, page_params, page_response,
  get_feed_page,
}

module _ (c : Collation) (s : Service) (feed_uri limit_str : Text) (db : Database) where
  abbrev page : Text → Result FeedError FeedResponse
  page cursor_str = (get_feed_page c s limit_str feed_uri cursor_str db).0

  follow : (Text → Option (List Text)) → Result FeedError FeedResponse → Option (List Text)
  follow next (err e) = none
  follow next (ok resp) = elim resp.cursor [
    | none ↦ some resp.feed
    | some cursor ↦ elim (next cursor) [ none ↦ none | some later ↦ some (resp.feed ++ later) ]
  ]

  -- The posts that the client reads from the cursor on; `none` if a page is refused or the fuel,
  -- a bound on the number of pages, runs out.
  unfoldable pub walk : ℕ → Text → Option (List Text)
  unfolding follow
  walk zero cursor_str = none
  walk (suc fuel) cursor_str = follow (walk fuel) (page cursor_str)

  module _ (rkey : Text) (resolved : resolve s feed_uri ≡ ok rkey) (up : db.faults ≡ [])
      (distinct : DistinctKeys (filter (in_feed rkey) db.post))
      (cursors : All HasCursor (filter (in_feed rkey) db.post)) where
    -- The posts that a client with this cursor has not read yet.
    data Unread (cursor_str : Text) (ys : List PostRow) : Type 0 where
      first : cursor_str ≡ [] → ranked c rkey db.post ≡ ys → Unread cursor_str ys
      behind :
          (xs : List PostRow) (r : PostRow)
          → cursor_str ≡ build_cursor r.indexed_at r.cid
          → ranked c rkey db.post ≡ xs ++ r ∷ ys
          → Unread cursor_str ys

    listed-HasCursor :
        (xs : List PostRow) (r : PostRow) (ys : List PostRow)
        → ranked c rkey db.post ≡ xs ++ r ∷ ys
        → HasCursor r
    listed-HasCursor xs r ys e =
        All-at HasCursor xs r ys (subst (All HasCursor) e (All-sort (newer c) HasCursor _ cursors))

    answer_of_cursor :
        (cursor_str : Text) (key : Option (Text × Text))
        → page_cursor cursor_str ≡ ok key
        → get_feed_page c s limit_str feed_uri cursor_str db ≡ (
          ok (
              page_response
                (page_limit limit_str)
                (select_page c (page_params rkey (page_limit limit_str) key) db.post)),
          took db,
        )
    unfolding get_feed_page Queries.get_feed_page
    answer_of_cursor cursor_str key e = rw (resolved, e, up)

    page_of_cursor :
        (cursor_str : Text) (key : Option (Text × Text))
        → page_cursor cursor_str ≡ ok key
        → page cursor_str
          ≡ ok (
              page_response
                (page_limit limit_str)
                (select_page c (page_params rkey (page_limit limit_str) key) db.post))
    page_of_cursor cursor_str key e = ap (λ t. t.0) (answer_of_cursor cursor_str key e)

    page_lem :
        (cursor_str : Text) (ys : List PostRow)
        → Unread cursor_str ys
        → page cursor_str
          ≡ ok (page_response (page_limit limit_str) (take (page_limit limit_str) ys))
    page_lem cursor_str ys (first e f) =
        page_of_cursor cursor_str none (rw e (unfold page_cursor in refl))
        ∙ ap (λ rows. ok (page_response (page_limit limit_str) rows))
            (select_page_first c rkey (page_limit limit_str) db.post
              ∙ ap (take (page_limit limit_str)) f)
    page_lem cursor_str ys (behind xs r e f) =
        page_of_cursor cursor_str (some (r.indexed_at, r.cid))
          (rw e (page_cursor_built r (listed-HasCursor xs r ys f)))
        ∙ ap (λ rows. ok (page_response (page_limit limit_str) rows))
            (select_page_behind c rkey (page_limit limit_str) db.post xs r ys distinct f)

    -- Behind a full page the client holds the cursor of its last post.
    Unread-rest :
        (cursor_str : Text) (ys : List PostRow) (f : FullPage (page_limit limit_str) ys)
        → Unread cursor_str ys
        → Unread (build_cursor f.last.indexed_at f.last.cid) f.rest
    Unread-rest cursor_str ys f (first e g) = behind f.before f.last refl (g ∙ f.splits)
    Unread-rest cursor_str ys f (behind xs r e g) = behind (xs ++ r ∷ f.before) f.last refl (
        g ∙ ap (λ l. xs ++ r ∷ l) f.splits ∙ sym (append_assoc xs (r ∷ f.before) (f.last ∷ f.rest)))

    walk_full :
        (fuel : ℕ) (cursor_str : Text) (ys : List PostRow) (f : FullPage (page_limit limit_str) ys)
        → Unread cursor_str ys
        → page_limit limit_str ≤ length ys
        → walk fuel (build_cursor f.last.indexed_at f.last.cid) ≡ some (uris f.rest)
        → walk (suc fuel) cursor_str ≡ some (uris ys)
    unfolding walk
    walk_full fuel cursor_str ys f u le ih =
        rw (page_lem cursor_str ys u, response_full (page_limit limit_str) ys f le)
          (rw ih (ap some (uris_full (page_limit limit_str) ys f)))

    walk-Unread :
        (fuel : ℕ) (cursor_str : Text) (ys : List PostRow)
        → Unread cursor_str ys
        → length ys < fuel
        → walk fuel cursor_str ≡ some (uris ys)
    walk-Unread zero cursor_str ys u h = elim h [ ]
    walk-Unread (suc fuel) cursor_str ys u h =
        elim (Bool-cases (ltb (length ys) (page_limit limit_str))) [
          | inl short ↦
              unfold walk in
              rw (
                page_lem cursor_str ys u,
                response_short (page_limit limit_str) ys (ltb→lt _ _ short),
              )
          | inr full ↦
              let le : page_limit limit_str ≤ length ys = ground arith in
              let f = full_page (page_limit limit_str) ys (page_limit_bounds limit_str).0 le in
              walk_full fuel cursor_str ys f u le (
                walk-Unread fuel (build_cursor f.last.indexed_at f.last.cid) f.rest
                  (Unread-rest cursor_str ys f u) (rest_shorter (page_limit limit_str) ys f fuel h))
        ]

    -- A client that follows the cursors from the first page on, and asks for more pages than the
    -- feed has posts, reads each post of the feed once and no other, newest first: if the request
    -- names a feed, no query fails, the posts do not change meanwhile, no two posts of the feed share
    -- both time and CID, and no time is empty, holds "::" or ends in ":", and no CID is empty.
    pub walk_complete :
        (fuel : ℕ)
        → length (filter (in_feed rkey) db.post) < fuel
        → (rows : List PostRow) × (walk fuel [] ≡ some (uris rows))
          × Perm rows (filter (in_feed rkey) db.post)
          × Strict (newer c) rows
    walk_complete fuel h = (
      ranked c rkey db.post,
      walk-Unread fuel [] (ranked c rkey db.post) (first refl refl)
          (omega (arith, length-sort (newer c) (filter (in_feed rkey) db.post))),
      sort-perm (newer c) (filter (in_feed rkey) db.post),
      ranked-Strict c rkey db.post distinct,
    )

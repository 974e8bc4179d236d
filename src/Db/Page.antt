-- ===== src/Db/Page.antt =====
-- What `GetFeedPage` of db/schema/queries/feed.sql selects: the part of the feed, newest first, that
-- stands behind the cursor.
use baldsky.Common.{
  ℕ, All-imp, subst, Text, Bool, true, ◌&&◌, List, [], ◌∷◌, ◌++◌, ◌≡◌, refl, ◌∙◌, ap, arith, filter,
  take, some, none, All,
}
use baldsky.Common.Sort.{sort, Strict, Apart, sort-Strict, sort-filter, filter-behind}
use baldsky.Db.Tables.{Collation, PostRow}
use baldsky.Db.Queries.{newer, past_cursor, in_feed, select_page}
use baldsky.Db.Keys.{newer-IsStrict, newer_total}

filter_and :
    {A : Type 0} (p q : A → Bool) (xs : List A)
    → filter (λ x. p x && q x) xs ≡ filter q (filter p xs)
filter_and p q [] = refl
filter_and p q (x ∷ xs) = ground (arith, filter_and p q xs)

filter-true : {A : Type 0} (p : A → Bool) (xs : List A) → filter (λ x. p x && true) xs ≡ filter p xs
filter-true p [] = refl
filter-true p (x ∷ xs) = ground (arith, filter-true p xs)

-- No two posts of the list share both `indexed_at` and `cid`.
abbrev pub DistinctKeys : List PostRow → Type 0
DistinctKeys [] = Unit
DistinctKeys (r ∷ rs) =
    All (λ s. ¬ ((r.indexed_at ≡ s.indexed_at) × (r.cid ≡ s.cid))) rs × DistinctKeys rs

module _ (c : Collation) where
  -- The posts of a feed, newest first.
  abbrev pub ranked : Text → List PostRow → List PostRow
  ranked feed_name rows = sort (newer c) (filter (in_feed feed_name) rows)

  distinct-Apart : (rows : List PostRow) → DistinctKeys rows → Apart (newer c) rows
  distinct-Apart [] h = tt
  distinct-Apart (r ∷ rs) h = (All-imp (λ s k. newer_total c r s k) rs h.0, distinct-Apart rs h.1)

  pub ranked-Strict :
      (feed_name : Text) (rows : List PostRow)
      → DistinctKeys (filter (in_feed feed_name) rows)
      → Strict (newer c) (ranked feed_name rows)
  ranked-Strict feed_name rows h =
      sort-Strict (newer-IsStrict c) _ (distinct-Apart (filter (in_feed feed_name) rows) h)

  -- The first page.
  pub select_page_first :
      (feed_name : Text) (limit : ℕ) (rows : List PostRow)
      → select_page c
          (record {
            feed_name = feed_name;
            cursor_indexed_at = none;
            cursor_cid = none;
            limit = limit;
          })
          rows
        ≡ take limit (ranked feed_name rows)
  unfolding select_page
  select_page_first feed_name limit rows =
      ap (λ l. take limit (sort (newer c) l)) (filter-true (in_feed feed_name) rows)

  -- The page behind a post.
  pub select_page_behind :
      (feed_name : Text) (limit : ℕ) (rows xs : List PostRow) (r : PostRow) (ys : List PostRow)
      → DistinctKeys (filter (in_feed feed_name) rows)
      → ranked feed_name rows ≡ xs ++ r ∷ ys
      → select_page c
          (record {
            feed_name = feed_name;
            cursor_indexed_at = some r.indexed_at;
            cursor_cid = some r.cid;
            limit = limit;
          })
          rows
        ≡ take limit ys
  unfolding select_page
  select_page_behind feed_name limit rows xs r ys h e =
      let strict = ranked-Strict feed_name rows h in
      ap (take limit) (
        ap (sort (newer c))
          (filter_and (in_feed feed_name) (past_cursor c (some r.indexed_at) (some r.cid)) rows)
        ∙ sort-filter (newer-IsStrict c) (newer c r) (filter (in_feed feed_name) rows)
        ∙ ap (filter (newer c r)) e
        ∙ filter-behind (newer-IsStrict c) xs r ys (subst (Strict (newer c)) e strict))

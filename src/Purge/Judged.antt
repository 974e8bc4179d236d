-- ===== src/Purge/Judged.antt =====
-- How cmd/purge.go judges the posts of a page, if the public API answers for those it is asked.
use baldsky.Common.{
  Text, List, [], ◌∷◌, ◌++◌, Option, none, some, Bool, false, not, ok, ℕ, zero, suc, length, take,
  drop, map, filter, if◌then◌else◌, Memᴰ, ◌≡◌, refl, ◌∙◌, ap, sym, arith, ◌≤◌, take-append-drop,
  append_assoc, Bool-cases, inl, inr, length-take, map-append, length-map,
}
use baldsky.Db.Tables.{PostRow}
use baldsky.Pipeline.Build.{Runtime, Pipeline}
use baldsky.Pipeline.Match.{FeedPost, matches_post}
use baldsky.Purge.{
  StalePost, PostView, GetPosts, batch_size, fetched, judge, judge_batch, judge_page, judged,
}

module _ {S : Type 0} (rt : Runtime) (p : Pipeline S) where
  abbrev keeps_record : Option FeedPost → Bool
  keeps_record none = false
  keeps_record (some post) = matches_post rt p post.text post.langs post.has_embed

  -- The post is on Bluesky, can be read, and the pipeline matches it.
  abbrev pub keeps : Option PostView → Bool
  keeps none = false
  keeps (some pv) = keeps_record pv.value

  judge-keeps :
      (uri : Text) (o : Option PostView)
      → map (λ q. q.uri) (judge rt p uri o) ≡ (if keeps o then [] else uri ∷ [])
  judge-keeps uri none = refl
  judge-keeps uri (some pv) = of_record pv.value
    where
      of_record :
          (v : Option FeedPost)
          → map (λ q. q.uri) (judge rt p uri (some (record { uri = uri; value = v })))
            ≡ (if keeps_record v then [] else uri ∷ [])
      of_record none = refl
      of_record (some post) = ground arith

  module _ (view : Text → Option PostView) where
    abbrev pub stale_of : List PostRow → List StalePost
    stale_of [] = []
    stale_of (r ∷ rows) = judge rt p r.uri (view r.uri) ++ stale_of rows

    pub stale_of-append : (xs ys : List PostRow) → stale_of (xs ++ ys) ≡ stale_of xs ++ stale_of ys
    stale_of-append [] ys = refl
    stale_of-append (r ∷ xs) ys =
        ap (λ l. judge rt p r.uri (view r.uri) ++ l) (stale_of-append xs ys)
        ∙ sym (append_assoc (judge rt p r.uri (view r.uri)) (stale_of xs) (stale_of ys))

    pub uris_of_stale :
        (rows : List PostRow)
        → map (λ q. q.uri) (stale_of rows)
          ≡ map (λ r. r.uri) (filter (λ r. not (keeps (view r.uri))) rows)
    uris_of_stale [] = refl
    uris_of_stale (r ∷ rows) =
        map-append (λ q. q.uri) (judge rt p r.uri (view r.uri)) (stale_of rows)
        ∙ elim (Bool-cases (keeps (view r.uri))) [
          | inl e ↦ rw (judge-keeps, e) (uris_of_stale rows)
          | inr e ↦ rw (judge-keeps, e) (ap (λ l. r.uri ∷ l) (uris_of_stale rows))
        ]

    judge_batch_lem :
        (pvs : List PostView) (rows : List PostRow)
        → ((u : Text) → Memᴰ u (map (λ r. r.uri) rows) → fetched u pvs ≡ view u)
        → judge_batch rt p pvs rows ≡ stale_of rows
    unfolding judge_batch
    judge_batch_lem pvs [] h = refl
    judge_batch_lem pvs (r ∷ rows) h = rw (h r.uri (Memᴰ.head refl)) (
        ap (λ l. judge rt p r.uri (view r.uri) ++ l)
          (judge_batch_lem pvs rows (λ u m. h u (Memᴰ.tail m))))

length-drop : {A : Type 0} (n : ℕ) (xs : List A) → length (drop n xs) ≤ length xs
length-drop zero xs = omega arith
length-drop (suc n) [] = omega arith
length-drop (suc n) (x ∷ xs) = omega (arith, length-drop n xs)

-- The API answers each call with the views, as `view` gives them, of the posts it is asked for.
pub record Answers (get_posts : GetPosts) (view : Text → Option PostView) (uris : List Text)
    : Type 0 where
  pub posts : List PostView
  pub answered : get_posts uris ≡ ok posts
  pub shown : (u : Text) → Memᴰ u uris → fetched u posts ≡ view u

module _ {S : Type 0} (rt : Runtime) (p : Pipeline S) (get_posts : GetPosts)
    (view : Text → Option PostView)
    (answers : (uris : List Text) → length uris ≤ batch_size → Answers get_posts view uris) where
  judged_lem :
      (batch : List PostRow)
      → length batch ≤ batch_size
      → judged rt p get_posts batch (get_posts (map (λ q. q.uri) batch))
        ≡ ok (stale_of rt p view batch)
  judged_lem batch le =
      let a = answers (map (λ q. q.uri) batch) (omega (arith, le, length-map (λ q. q.uri) batch)) in
      rw a.answered (ap ok (judge_batch_lem rt p view a.posts batch a.shown))

  pub judge_page_lem :
      (fuel : ℕ) (rows : List PostRow)
      → length rows ≤ fuel
      → judge_page rt p get_posts fuel rows ≡ ok (stale_of rt p view rows)
  unfolding judge_page
  judge_page_lem zero [] h = refl
  judge_page_lem zero (r ∷ rows) h = absurd (omega arith)
  judge_page_lem (suc fuel) [] h = refl
  judge_page_lem (suc fuel) (r ∷ rows) h =
      rw
        (
          judged_lem (take batch_size (r ∷ rows))
              (omega (arith, length-take batch_size (r ∷ rows))),
          judge_page_lem fuel (drop batch_size (r ∷ rows)) (omega (arith, length-drop 24 rows, h)),
        )
        (ap ok (
          sym (stale_of-append rt p view (take batch_size (r ∷ rows)) (drop batch_size (r ∷ rows)))
          ∙ ap (stale_of rt p view) (take-append-drop batch_size (r ∷ rows))))

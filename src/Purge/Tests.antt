-- ===== src/Purge/Tests.antt =====
-- The purge of cmd/purge.go at concrete inputs.
use baldsky.Common.{
  Text, List, [], ◌∷◌, true, none, some, false, ok, codes, text_eq, text_eq_iff, member, member_iff,
  if◌then◌else◌, ◌≡◌, refl, arith, map, filter, not, Bool-cases, inl, inr,
}
use mathlib.Core.List.{Perm}
use baldsky.Common.Sort.{Strict}
use baldsky.Db.Tables.{PostRow}
use baldsky.Db.Queries.{in_feed, newer}
use baldsky.Db.Bytes.{bytes}
use baldsky.Feed.Tests.{posts, rows_distinct}
use baldsky.Pipeline.Tests.{ascii, bald, post}
use baldsky.Purge.{StalePost, PostView, GetPosts, fetched, find_stale_posts}
use baldsky.Purge.Judged.{Answers, keeps}
use baldsky.Purge.Stale.{find_stale_posts_lem}
use baldsky.Purge.Run.{Surroundings, run_purge}
use baldsky.Purge.DryRun.{Harmless, run_purge-Harmless}
use baldsky.Purge.OnlyStale.{OnlyStale, run_purge-OnlyStale}
use baldsky.Db.Tables.{Database}
use baldsky.Serve.Tests.{config, silent}

-- The post "a" is matched by the pipeline, and the others cannot be read.
abbrev shown : Text → PostView
shown uri = record { uri = uri; value = if text_eq uri (codes "a") then some post else none }

abbrev api : GetPosts
api = λ uris. ok (map shown uris)

fetched_shown :
    (u : Text) (uris : List Text)
    → fetched u (map shown uris) ≡ (if member u uris then some (shown u) else none)
unfolding fetched
fetched_shown u [] = refl
fetched_shown u (v ∷ uris) = elim (Bool-cases (text_eq v u)) [
  | inl e ↦
      let same : v ≡ u = (text_eq_iff v u).0 e in
      rw (same, fetched_shown u uris) (ground (arith, text_eq_iff u u))
  | inr e ↦ rw (e, fetched_shown u uris) (ground (arith, text_eq_iff u v, text_eq_iff v u))
]

api-Answers : (uris : List Text) → Answers api (λ u. some (shown u)) uris
api-Answers uris = record {
  posts = map shown uris;
  answered = refl;
  shown = λ u m. let e = (member_iff u uris).1 m in rw (fetched_shown, e);
}

find_stale_posts_lem_example :
    (stale : List StalePost) × (rows : List PostRow) × (find_stale_posts ascii bald api bytes 5
        (codes "bald")
        posts
      ≡ some (ok stale))
    × (map (λ q. q.uri) stale
        ≡ map (λ r. r.uri) (filter (λ r. not (keeps ascii bald (some (shown r.uri)))) rows))
    × Perm rows (filter (in_feed (codes "bald")) posts.post)
    × Strict (newer bytes) rows
unfolding text_eq
find_stale_posts_lem_example =
    find_stale_posts_lem ascii bald api (λ u. some (shown u)) (λ uris le. api-Answers uris) bytes
      (codes "bald") posts refl rows_distinct 5 (omega arith)

-- The server deletes a post, whichever it is asked for.
abbrev world : Surroundings Database
world = record {
  database = λ db. db;
  get_posts = λ db. api;
  send = λ request db. (ok 204, record db { post = [] });
}

run_purge-Harmless_example :
    Harmless world posts (run_purge world ascii bytes silent 5 config true posts)
run_purge-Harmless_example = run_purge-Harmless world ascii bytes silent 5 config posts

run_purge-OnlyStale_example :
    OnlyStale world ascii bytes silent 5 config false posts
      (run_purge world ascii bytes silent 5 config false posts)
run_purge-OnlyStale_example = run_purge-OnlyStale world ascii bytes silent 5 config false posts

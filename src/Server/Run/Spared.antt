-- ===== src/Server/Run/Spared.antt =====
-- What the calls of the handlers of server/server.go leave of the posts and of the channel of views.
use baldsky.Common.{
  Text, List, [], ◌∷◌, ◌++◌, Option, none, some, false, ℕ, ◌≤◌, ltb, ltb→lt, length, length-append,
  Error, Result, ok, err, text_eq, text_eq_comm, member, is_empty, ◌≡◌, refl, ◌∙◌, ap, arith, ◌⊎◌,
  inl, inr, Bool-cases,
}
use baldsky.Db.Tables.{Collation, Database, PostRow, FeedStat}
use baldsky.Db.Queries.{fails}
use baldsky.Db.Queries
use baldsky.Feed.Lookup.{find_row, find_row-filter}
use baldsky.Feed.Skeleton.{FeedError, page_cursor, serve_feed, serve_key}
use baldsky.Feed.Service.{Service}
use baldsky.Feed.Store
use baldsky.Feed.Views.{stats_of, record_view, get_feed_stats}
use baldsky.Server.Types.{Server}
use baldsky.Server.Handlers.{extract_feed_name, count_view}

-- The row of a URI is as it was, unless its deletion was asked for: then it may be gone.
abbrev pub Spared : List Text → List PostRow → List PostRow → Type 0
Spared asked before after =
    (k : Text)
    → ((find_row k after ≡ find_row k before) ⊎ (find_row k after ≡ none))
      × (member k asked ≡ false → find_row k after ≡ find_row k before)

pub Spared-same :
    (asked : List Text) (before after : List PostRow) → after ≡ before → Spared asked before after
Spared-same asked before after e k = let same = ap (find_row k) e in (inl same, λ h. same)

member-append_false :
    (k : Text) (xs ys : List Text)
    → member k (xs ++ ys) ≡ false
    → (member k xs ≡ false) × (member k ys ≡ false)
member-append_false k [] ys h = (refl, h)
member-append_false k (x ∷ xs) ys h = ground (arith, member-append_false k xs ys)

pub Spared-append :
    (more asked : List Text) (before between after : List PostRow)
    → Spared asked before between
    → Spared more between after
    → Spared (more ++ asked) before after
Spared-append more asked before between after h g k =
    let (h0, h1) = h k in
    let (g0, g1) = g k in
    (
      elim g0 [
        | inr gone ↦ inr gone
        | inl same ↦ elim h0 [ inl e ↦ inl (same ∙ e) | inr e ↦ inr (same ∙ e) ]
      ],
      λ m. let (a, b) = member-append_false k more asked m in g1 a ∙ h1 b,
    )

-- The channel of views holds no more than its capacity.
abbrev pub Roomy : Server → List Text → Type 0
Roomy s views = (capacity : ℕ) → s.metrics ≡ some capacity → length views ≤ capacity

record_view-Roomy :
    (capacity : ℕ) (feed_name : Text) (views : List Text)
    → length views ≤ capacity
    → length (record_view capacity feed_name views) ≤ capacity
unfolding record_view
record_view-Roomy capacity feed_name views h =
    let more = length-append views (feed_name ∷ []) in
    elim (Bool-cases (ltb (length views) capacity)) [
      | inl room ↦ let k = ltb→lt (length views) capacity room in rw room (omega (arith, more, k))
      | inr full ↦ rw full h
    ]

pub count_view-Roomy :
    (s : Server) (metrics : Option ℕ) (feed_uri : Text) (views : List Text)
    → s.metrics ≡ metrics
    → Roomy s views
    → Roomy s (count_view metrics feed_uri views)
count_view-Roomy s none feed_uri views e h capacity f = h capacity f
count_view-Roomy s (some room) feed_uri views e h capacity f =
    let same : room ≡ capacity = cc in
    elim (Bool-cases (is_empty (extract_feed_name feed_uri))) [
      | inl g ↦ rw g (h capacity f)
      | inr g ↦
          rw (g, same)
            (record_view-Roomy capacity (extract_feed_name feed_uri) views (h capacity f))
    ]

pub serve_feed_post :
    (c : Collation) (s : Service) (limit_str : Text) (o : Result FeedError Text) (cursor_str : Text)
    (db : Database)
    → (serve_feed c s limit_str o cursor_str db).1.post ≡ db.post
unfolding Queries.get_feed_page
serve_feed_post c s limit_str (err e) cursor_str db = refl
serve_feed_post c s limit_str (ok rkey) cursor_str db = of_key (page_cursor cursor_str)
  where
    of_key :
        (key : Result FeedError (Option (Text × Text)))
        → (serve_key c s limit_str rkey key db).1.post ≡ db.post
    of_key (err e) = refl
    of_key (ok key) = refl

stats_of_database : (o : Result Error FeedStat × Database) → (stats_of o).1 ≡ o.1
stats_of_database (err e, db) = refl
stats_of_database (ok stats, db) = refl

pub get_feed_stats_post :
    (feed_name : Text) (db : Database) → (get_feed_stats feed_name db).1.post ≡ db.post
unfolding get_feed_stats Queries.get_feed_stats
get_feed_stats_post feed_name db =
    ap (λ d. d.post) (stats_of_database (Queries.get_feed_stats feed_name db))

pub delete_post-Spared :
    (uri : Text) (db : Database) → Spared (uri ∷ []) db.post (Store.delete_post uri db).0.post
unfolding Store.delete_post Queries.delete_post
delete_post-Spared uri db k = elim (Bool-cases (fails db.faults)) [
  | inl e ↦ rw e (inl refl, λ h. refl)
  | inr e ↦
      rw (e, find_row-filter uri k db.post, text_eq_comm k uri)
        (elim (Bool-cases (text_eq uri k)) [
          | inl f ↦ rw f (inr refl, λ h. cc)
          | inr f ↦ rw f (inl refl, λ h. refl)
        ])
]

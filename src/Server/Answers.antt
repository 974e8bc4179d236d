-- ===== src/Server/Answers.antt =====
-- What the handlers of server/server.go answer.
use baldsky.Common.{
  Text, List, [], ◌∷◌, Option, none, some, Bool, true, false, not, ◌&&◌, ◌||◌, if◌then◌else◌, ℕ,
  is_empty, Result, ok, err, ◌≡◌, refl, ◌≢◌, ◌⊎◌, inl, inr, ◌↔◌, arith, Bool-cases, All,
}
use baldsky.Db.Tables.{Collation, Database}
use baldsky.Feed.Skeleton.{
  FeedError, unknown_feed, invalid_cursor, get_feed_page_error, FeedResponse, get_feed_page,
  serve_feed, resolve,
}
use baldsky.Feed.Resolve.{resolve_iff}
use baldsky.Feed.Views.{record_view}
use baldsky.Server.Types.{Response, Request, Server, World}
use baldsky.Server.Handlers.{
  handle_healthz, is_connected, is_set, has_workers, no_worker_down, extract_feed_name,
  handle_get_feed_skeleton, skeleton_response,
}

-- Some source of posts works: the firehose is connected, or there are workers and all are.
abbrev pub HasSource : Server → Type 0
HasSource s = (s.firehose ≡ some true) ⊎ ((s.workers ≢ []) × All (λ w. w ≡ true) s.workers)

no_worker_down_iff : (ws : List Bool) → (no_worker_down ws ≡ true) ↔ All (λ w. w ≡ true) ws
no_worker_down_iff [] = (λ h. tt, λ h. refl)
no_worker_down_iff (true ∷ ws) =
    (λ h. (refl, (no_worker_down_iff ws).0 h), λ h. (no_worker_down_iff ws).1 h.1)
no_worker_down_iff (false ∷ ws) = (λ h. cc, λ h. cc h.0)

down : Option Bool → List Bool → Bool → Bool
down fh ws db_ok =
    not db_ok
    || ((not (is_connected fh) && not (has_workers ws && no_worker_down ws))
        && (is_set fh || has_workers ws))

abbrev Healthy : Option Bool → List Bool → Bool → Type 0
Healthy fh ws db_ok =
    (db_ok ≡ true)
    × (((fh ≡ none) × (ws ≡ [])) ⊎ ((fh ≡ some true) ⊎ ((ws ≢ []) × All (λ w. w ≡ true) ws)))

up_sound :
    (fh : Option Bool) (ws : List Bool) (db_ok : Bool)
    → down fh ws db_ok ≡ false
    → Healthy fh ws db_ok
unfolding down
up_sound fh ws false h = cc
up_sound none [] true h = (refl, inl (refl, refl))
up_sound none (w ∷ ws) true h =
    (refl, inr (inr (λ e. cc, (no_worker_down_iff (w ∷ ws)).0 (ground arith))))
up_sound (some true) ws true h = (refl, inr (inl refl))
up_sound (some false) [] true h = cc
up_sound (some false) (w ∷ ws) true h =
    (refl, inr (inr (λ e. cc, (no_worker_down_iff (w ∷ ws)).0 (ground arith))))

up_complete :
    (fh : Option Bool) (ws : List Bool) (db_ok : Bool)
    → Healthy fh ws db_ok
    → down fh ws db_ok ≡ false
unfolding down
up_complete fh ws db_ok (d, inl (f, e)) = rw (d, f, e)
up_complete fh ws db_ok (d, inr (inl f)) = rw (d, f)
up_complete fh [] db_ok (d, inr (inr (n, a))) = absurd (n refl)
up_complete fh (w ∷ ws) db_ok (d, inr (inr (n, a))) =
    let k = (no_worker_down_iff (w ∷ ws)).1 a in ground arith

-- The server is healthy, that is `healthz` answers 200 and not 503, exactly if the database answers
-- and, where a firehose or workers are configured, some source of posts works.
pub healthz_iff :
    (s : Server) (db_ok : Bool)
    → ((handle_healthz s db_ok).status ≡ 200)
      ↔ ((db_ok ≡ true) × (((s.firehose ≡ none) × (s.workers ≡ [])) ⊎ HasSource s))
unfolding handle_healthz down
healthz_iff s db_ok = (
  λ h. up_sound s.firehose s.workers db_ok (ground arith),
  λ h. let e = up_complete s.firehose s.workers db_ok h in rw e,
)

-- The view that is counted for a page is counted under the feed that `GetFeedPage` took the request
-- for.
pub extract_feed_name-resolve :
    (s : Server) (feed_uri name : Text)
    → resolve s.svc feed_uri ≡ ok name
    → extract_feed_name feed_uri ≡ name
unfolding extract_feed_name
extract_feed_name-resolve s feed_uri name h =
    let n = (resolve_iff s.svc feed_uri name).0 h in rw n.three

page_resolved :
    (c : Collation) (s : Server) (r : Request) (db db' : Database) (resp : FeedResponse)
    → get_feed_page c s.svc r.limit r.feed r.cursor db ≡ (ok resp, db')
    → (name : Text) × (resolve s.svc r.feed ≡ ok name)
unfolding get_feed_page
page_resolved c s r db db' resp h = of_result (resolve s.svc r.feed) h
  where
    of_result :
        (o : Result FeedError Text)
        → serve_feed c s.svc r.limit o r.cursor db ≡ (ok resp, db')
        → (name : Text) × (o ≡ ok name)
    of_result (ok name) e = (name, refl)
    of_result (err x) e = cc

-- One view of the feed that the request names goes into the channel of views, if the answer is 200;
-- on any other answer, 400 or 500, the channel is as before.
abbrev pub CountsView :
    {R L : Type 0} → Server → ℕ → Request → World R L → World R L × Response → Type 0
CountsView s capacity r w (w', resp) =
    ((resp.status ≡ 200)
      × ((name : Text) × (resolve s.svc r.feed ≡ ok name)
          × (w'.views ≡ (if is_empty name then w.views else record_view capacity name w.views))))
    ⊎ (((resp.status ≡ 400) ⊎ (resp.status ≡ 500)) × (w'.views ≡ w.views))

module _ {R L : Type 0} (c : Collation) (s : Server) (capacity : ℕ) (r : Request) (w : World R L)
    (measured : s.metrics ≡ some capacity) where
  counts_response :
      (o : Result FeedError FeedResponse × Database)
      → get_feed_page c s.svc r.limit r.feed r.cursor w.db ≡ o
      → CountsView s capacity r w (skeleton_response s r.feed w o)
  counts_response (err unknown_feed, db) e = inr (inl refl, refl)
  counts_response (err invalid_cursor, db) e = inr (inl refl, refl)
  counts_response (err (get_feed_page_error x), db) e = inr (inr refl, refl)
  counts_response (ok resp, db) e =
      let (name, named) = page_resolved c s r w.db db resp e in
      inl (
        refl,
        (
          name,
          named,
          simp (measured, extract_feed_name-resolve s r.feed name named) (flip (is_empty name) _ _),
        ),
      )
    where
      flip : (t : Bool) (a b : List Text) → (if not t then a else b) ≡ (if t then b else a)
      flip true a b = refl
      flip false a b = refl

  -- Where there is a metrics service, a view is counted exactly for the pages that are served: if the
  -- answer is 200, one view of the feed that the request names goes into the channel of views, unless
  -- that name is empty or the channel is full; on any other answer, 400 or 500, the channel is as
  -- before.
  pub skeleton-CountsView : CountsView s capacity r w (handle_get_feed_skeleton c s r w)
  unfolding handle_get_feed_skeleton
  skeleton-CountsView = elim (Bool-cases (is_empty r.feed)) [
    | inl e ↦ simp e (inr (inl refl, refl))
    | inr e ↦ simp e (counts_response (get_feed_page c s.svc r.limit r.feed r.cursor w.db) refl)
  ]

-- ===== src/Feed/Metrics.antt =====
-- `Run` of feed/metrics.go: the events of the channel, written to the database one by one.
use baldsky.Common.{
  Text, List, [], ◌∷◌, Option, some, ℕ, ◌+◌, if◌then◌else◌, text_eq, text_eq_iff, ◌≡◌, arith,
  Result, ok, err, Bool-cases, inl, inr,
}
use baldsky.Db.Tables.{Database, FeedStat}
use baldsky.Db.Queries.{count_view, find_stats, fails}
use baldsky.Db.Queries

-- The loop until the channel is closed; `now` is the reading of the clock at each event, and a
-- failed write is only logged.
unfoldable run : List (Text × Text) → Database → Database
run [] db = db
run ((feed_name, now) ∷ events) db = run events (Queries.record_view feed_name (some now) db).0

-- How many of the events are views of a feed.
abbrev views_of : Text → List (Text × Text) → ℕ
views_of k [] = 0
views_of k ((feed_name, now) ∷ events) =
    if text_eq feed_name k then 1 + views_of k events else views_of k events

-- The count that the table holds for a feed, 0 if it has no row.
abbrev pub total : {E : Type 0} → Result E FeedStat → ℕ
total (ok stats) = stats.total_views
total (err e) = 0

total-count_view :
    (feed_name k : Text) (at : Option Text) (rs : List FeedStat)
    → total (find_stats k (count_view feed_name at rs))
      ≡ (if text_eq feed_name k then 1 + total (find_stats k rs) else total (find_stats k rs))
unfolding find_stats count_view
total-count_view feed_name k at [] = ground arith
total-count_view feed_name k at (r ∷ rs) = ground (
  arith,
  text_eq_iff r.feed_name feed_name,
  text_eq_iff r.feed_name k,
  text_eq_iff feed_name k,
  total-count_view feed_name k at rs,
)

pub record_view-alive :
    (feed_name : Text) (at : Option Text) (db : Database)
    → db.faults ≡ []
    → (Queries.record_view feed_name at db).0.faults ≡ []
unfolding Queries.record_view
record_view-alive feed_name at db up = ground arith

pub total-record_view :
    (feed_name k : Text) (at : Option Text) (db : Database)
    → db.faults ≡ []
    → total (find_stats k (Queries.record_view feed_name at db).0.feed_stats) ≡ (
        if text_eq feed_name k
        then 1 + total (find_stats k db.feed_stats)
        else total (find_stats k db.feed_stats))
unfolding Queries.record_view
total-record_view feed_name k at db up =
    ground (arith, total-count_view feed_name k at db.feed_stats)

-- While no query fails, the metrics service adds to the count of each feed as many views as the
-- channel held for it.
run-views_of :
    (events : List (Text × Text)) (k : Text) (db : Database)
    → db.faults ≡ []
    → total (find_stats k (run events db).feed_stats)
      ≡ total (find_stats k db.feed_stats) + views_of k events
unfolding run
run-views_of [] k db up = omega arith
run-views_of ((feed_name, now) ∷ events) k db up =
    let ih =
      run-views_of events k (Queries.record_view feed_name (some now) db).0
        (record_view-alive feed_name (some now) db up) in
    let step = total-record_view feed_name k (some now) db up in
    elim (Bool-cases (text_eq feed_name k)) [
      | inl e ↦ let s = rw e at step in rw e (omega (arith, ih, s))
      | inr e ↦ let s = rw e at step in rw e (omega (arith, ih, s))
    ]

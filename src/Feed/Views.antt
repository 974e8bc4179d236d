-- ===== src/Feed/Views.antt =====
-- `MetricsService` of feed/metrics.go: its channel, to which the requests send, and `Run`, which
-- reads from it in a goroutine of its own until the channel is closed and empty; and `GetFeedStats`.
pub mod Counted
mod Tests
use baldsky.Common.{
  Text, List, [], ◌∷◌, Result, ok, err, Error, ◌++◌, Option, none, some, Bool, true, false, ℕ, ltb,
  length, if◌then◌else◌, ◌≡◌,
}
use baldsky.Db.Tables.{Database, FeedStat}
use baldsky.Db.Queries

-- The `select` of `RecordView`: an event is dropped if the channel, whose capacity is positive, is
-- full.
unfoldable pub record_view : ℕ → Text → List Text → List Text
record_view capacity feed_name views =
    if ltb (length views) capacity then views ++ feed_name ∷ [] else views

-- `FeedStatsResponse`.
pub record FeedStatsResponse : Type 0 where
  pub feed_name : Text
  pub total_views : ℕ
  pub last_viewed_at : Option Text

abbrev pub stats_of : Result Error FeedStat × Database → Result Error FeedStatsResponse × Database
stats_of (err e, db) = (err e, db)
stats_of (ok stats, db) = (
  ok (record {
    feed_name = stats.feed_name;
    total_views = stats.total_views;
    last_viewed_at = stats.last_viewed_at;
  }),
  db,
)

-- `GetFeedStats`.
unfoldable pub get_feed_stats : Text → Database → Result Error FeedStatsResponse × Database
get_feed_stats feed_name db = stats_of (Queries.get_feed_stats feed_name db)

-- `received` is the event that `Run` writes next. `accepted` and `written` are histories: the events
-- that went into the channel and those of which a write was tried, the first first.
pub record MetricsService : Type 0 where
  pub db : Database
  pub channel : List Text
  pub closed : Bool
  pub received : Option Text
  pub returned : Bool
  pub accepted : List Text
  pub written : List Text

-- `NewMetricsService`, and `Run` started.
abbrev pub new_metrics_service : Database → MetricsService
new_metrics_service db = record {
  db = db;
  channel = [];
  closed = false;
  received = none;
  returned = false;
  accepted = [];
  written = [];
}

-- `RecordView` while the channel is open; on a closed one it panics.
unfoldable pub view : ℕ → Text → MetricsService → MetricsService
unfolding record_view
view capacity feed_name ms = record ms {
  channel = record_view capacity feed_name ms.channel;
  accepted =
      if ltb (length ms.channel) capacity then ms.accepted ++ feed_name ∷ [] else ms.accepted;
}

-- The body of the loop of `Run`, at the time `now`; a write that fails is only logged.
unfoldable pub write : Text → Text → MetricsService → MetricsService
write now feed_name ms = record ms {
  db = (Queries.record_view feed_name (some now) ms.db).0;
  received = none;
  written = ms.written ++ feed_name ∷ [];
}

pub data Step (capacity : ℕ) : MetricsService → MetricsService → Type 0 where
  -- a request is served
  record_one :
      (ms : MetricsService) (feed_name : Text)
      → ms.closed ≡ false
      → Step capacity ms (view capacity feed_name ms)
  -- `Run` receives an event
  receive :
      (ms : MetricsService) (feed_name : Text) (rest : List Text)
      → ms.returned ≡ false
      → ms.received ≡ none
      → ms.channel ≡ feed_name ∷ rest
      → Step capacity ms (record ms { channel = rest; received = some feed_name })
  -- `Run` writes it
  write_one :
      (ms : MetricsService) (feed_name now : Text)
      → ms.received ≡ some feed_name
      → Step capacity ms (write now feed_name ms)
  -- `Close`, which panics on a closed channel
  close : (ms : MetricsService) → ms.closed ≡ false → Step capacity ms (record ms { closed = true })
  -- the range of `Run` ends
  return :
      (ms : MetricsService)
      → ms.closed ≡ true
      → ms.channel ≡ []
      → ms.received ≡ none
      → Step capacity ms (record ms { returned = true })
  -- others use the database, and leave the counts alone
  elsewhere :
      (ms : MetricsService) (db : Database)
      → db.feed_stats ≡ ms.db.feed_stats
      → db.faults ≡ ms.db.faults
      → Step capacity ms (record ms { db = db })

pub data Reach (capacity : ℕ) (db : Database) : MetricsService → Type 0 where
  here : Reach capacity db (new_metrics_service db)
  later : {s t : MetricsService} → Reach capacity db s → Step capacity s t → Reach capacity db t

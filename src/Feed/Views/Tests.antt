-- ===== src/Feed/Views/Tests.antt =====
-- A run of the metrics service, and the theorem at it.
use baldsky.Common.{some, Text, [], ◌∷◌, codes, refl, true}
use baldsky.Db.Queries
use baldsky.Db.Queries.{count_view}
use baldsky.Feed.Tests.{posts}
use baldsky.Feed.Views.{
  MetricsService, new_metrics_service, record_view, view, write, Reach, here, later, record_one,
  receive, write_one, close, return,
}
use baldsky.Feed.Views.Counted.{Counted, Reach-Counted}

abbrev bald : Text
bald = codes "bald"

-- The channel holds one event: the second view is dropped, and the first one is written after `Close`.
abbrev after_all : MetricsService
after_all = record (new_metrics_service (Queries.record_view bald (some (codes "t")) posts).0) {
  closed = true;
  returned = true;
  accepted = bald ∷ [];
  written = bald ∷ [];
}

reach_all : Reach 1 posts after_all
unfolding view write record_view
reach_all =
    later
      (later
        (later
          (later (later (later here (record_one _ bald refl)) (record_one _ bald refl))
            (close _ refl))
          (receive _ bald [] refl refl refl))
        (write_one _ bald (codes "t") refl))
      (return _ refl refl refl)

Reach-Counted_example : Counted 1 posts after_all
Reach-Counted_example = Reach-Counted 1 posts {ms = after_all} refl reach_all

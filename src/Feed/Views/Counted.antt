-- ===== src/Feed/Views/Counted.antt =====
-- The views that are counted: none is lost or counted twice between the channel and the database.
use baldsky.Common.{
  Text, List, [], ◌∷◌, ◌++◌, Option, none, some, Bool, true, false, ℕ, ◌+◌, ◌≤◌, ltb, ltb→lt,
  length, length-append, if◌then◌else◌, text_eq, ◌≡◌, refl, sym, ap, ◌∙◌, append_assoc, append-nil,
  arith, Bool-cases, inl, inr,
}
use baldsky.Db.Tables.{Database}
use baldsky.Db.Queries.{find_stats}
use baldsky.Db.Queries
use baldsky.Feed.Metrics.{total, record_view-alive, total-record_view}
use baldsky.Feed.Views.{
  MetricsService, record_view, view, write, Step, record_one, receive, write_one, close, return,
  elsewhere, Reach, here, later,
}

-- How many of the events are views of a feed.
abbrev pub count : Text → List Text → ℕ
count k [] = 0
count k (feed_name ∷ events) = if text_eq feed_name k then 1 + count k events else count k events

count-append : (k : Text) (xs ys : List Text) → count k (xs ++ ys) ≡ count k xs + count k ys
count-append k [] ys = omega arith
count-append k (x ∷ xs) ys = ground (arith, count-append k xs ys)

-- The event in the hand of `Run`.
abbrev pub in_hand : Option Text → List Text
in_hand none = []
in_hand (some feed_name) = feed_name ∷ []

-- When `Run` has returned, the channel is closed and all its events are written.
abbrev pub Drained : Bool → MetricsService → Type 0
Drained false ms = Unit
Drained true ms =
    (ms.closed ≡ true) × (ms.received ≡ none) × (ms.channel ≡ []) × (ms.written ≡ ms.accepted)

-- The count of a feed in the database.
abbrev pub count_in : Database → Text → ℕ
count_in db k = total (find_stats k db.feed_stats)

pub record Counted (capacity : ℕ) (first : Database) (ms : MetricsService) : Type 0 where
  pub alive : ms.db.faults ≡ []
  pub bounded : length ms.channel ≤ capacity
  pub in_order : ms.accepted ≡ ms.written ++ (in_hand ms.received ++ ms.channel)
  pub counted : (k : Text) → count_in ms.db k ≡ count_in first k + count k ms.written
  pub drained : Drained ms.returned ms

-- `Run` has not returned while the channel is open, nor while it holds an event.
going_open : (b : Bool) (ms : MetricsService) → Drained b ms → ms.closed ≡ false → b ≡ false
going_open true ms d e = let k = d.0 in cc
going_open false ms d e = refl

going_held :
    (b : Bool) (ms : MetricsService) (feed_name : Text)
    → Drained b ms
    → ms.received ≡ some feed_name
    → b ≡ false
going_held true ms feed_name d e = let k = d.1 in cc
going_held false ms feed_name d e = refl

going-Drained : (b : Bool) (ms : MetricsService) → b ≡ false → Drained b ms
going-Drained b ms e = rw e tt

Drained-db :
    (b : Bool) (ms : MetricsService) (db : Database)
    → Drained b ms
    → Drained b (record ms { db = db })
Drained-db true ms db d = d
Drained-db false ms db d = d

send_lem :
    (capacity : ℕ) (feed_name : Text) (accepted written hand channel : List Text)
    → length channel ≤ capacity
    → accepted ≡ written ++ (hand ++ channel)
    → (length (record_view capacity feed_name channel) ≤ capacity)
      × ((if ltb (length channel) capacity then accepted ++ feed_name ∷ [] else accepted)
          ≡ written ++ (hand ++ record_view capacity feed_name channel))
unfolding record_view
send_lem capacity feed_name accepted written hand channel le h =
    elim (Bool-cases (ltb (length channel) capacity)) [
      | inl room ↦ rw room (
        omega
            (arith, length-append channel (feed_name ∷ []), ltb→lt (length channel) capacity room),
        simp (h, append_assoc),
      )
      | inr full ↦ rw full (le, h)
    ]

write_count :
    (first db : Database) (feed_name now k : Text) (written : List Text)
    → db.faults ≡ []
    → count_in db k ≡ count_in first k + count k written
    → count_in (Queries.record_view feed_name (some now) db).0 k
      ≡ count_in first k + count k (written ++ feed_name ∷ [])
write_count first db feed_name now k written alive before =
    let after = total-record_view feed_name k (some now) db alive in
    let more = count-append k written (feed_name ∷ []) in
    elim (Bool-cases (text_eq feed_name k)) [
      | inl e ↦ let a = rw e at after in let m = rw e at more in omega arith
      | inr e ↦ let a = rw e at after in let m = rw e at more in omega arith
    ]

module _ (capacity : ℕ) (first : Database) where
  Step-Counted :
      {s t : MetricsService}
      → Step capacity s t
      → Counted capacity first s
      → Counted capacity first t
  unfolding view write
  Step-Counted (record_one ms feed_name open_channel) c =
      let (bounded, in_order) =
        send_lem capacity feed_name ms.accepted ms.written (in_hand ms.received) ms.channel
          c.bounded c.in_order in
      record {
        alive = c.alive;
        bounded = bounded;
        in_order = in_order;
        counted = c.counted;
        drained = going-Drained ms.returned _ (going_open ms.returned ms c.drained open_channel);
      }
  Step-Counted (receive ms feed_name rest going free e) c = record {
    alive = c.alive;
    bounded = let k = c.bounded in let q = ap length e in omega arith;
    in_order = let k = c.in_order in rw k (simp (free, e) refl);
    counted = c.counted;
    drained = going-Drained ms.returned _ going;
  }
  Step-Counted (write_one ms feed_name now e) c = record {
    alive = record_view-alive feed_name (some now) ms.db c.alive;
    bounded = c.bounded;
    in_order = let k = c.in_order in rw k (simp (e, append_assoc) refl);
    counted = λ k. write_count first ms.db feed_name now k ms.written c.alive (c.counted k);
    drained = going-Drained ms.returned _ (going_held ms.returned ms feed_name c.drained e);
  }
  Step-Counted (close ms e) c = record {
    alive = c.alive;
    bounded = c.bounded;
    in_order = c.in_order;
    counted = c.counted;
    drained = going-Drained ms.returned _ (going_open ms.returned ms c.drained e);
  }
  Step-Counted (return ms e f g) c = record {
    alive = c.alive;
    bounded = c.bounded;
    in_order = c.in_order;
    counted = c.counted;
    drained = (e, g, f, sym (c.in_order ∙ simp (f, g, append-nil) refl));
  }
  Step-Counted (elsewhere ms db e f) c = record {
    alive = f ∙ c.alive;
    bounded = c.bounded;
    in_order = c.in_order;
    counted = λ k. ap (λ rs. total (find_stats k rs)) e ∙ c.counted k;
    drained = Drained-db ms.returned ms db c.drained;
  }

  -- However the requests, `Run` and others are interleaved, and while no query fails: the channel
  -- holds no more events than its capacity, the events that it accepted are those that `Run` has
  -- written, then the one that it has received, then those in the channel, in the order in which
  -- they came, each feed's count in the database is that at the start and the written views of the
  -- feed, and when `Run` has returned all accepted events are written.
  pub Reach-Counted :
      {ms : MetricsService}
      → first.faults ≡ []
      → Reach capacity first ms
      → Counted capacity first ms
  Reach-Counted alive here = record {
    alive = alive;
    bounded = omega arith;
    in_order = refl;
    counted = λ k. omega arith;
    drained = tt;
  }
  Reach-Counted alive (later r step) = Step-Counted step (Reach-Counted alive r)

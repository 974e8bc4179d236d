-- ===== src/Ingest/Stream/Tests.antt =====
-- Runs of the subscription, and the theorems at concrete inputs.
use baldsky.Common.{
  Text, Option, some, List, [], ◌∷◌, none, true, false, ℤ, pos, ltℤ, ℕ, ◌<◌, Memᴰ, codes, ◌≡◌, refl,
  ◌⊎◌, inl, inr, arith, text_eq,
}
use baldsky.Db.Tables.{Database}
use baldsky.Db.Queries.{find_cursor, upsert_row}
use baldsky.Db.Queries
use baldsky.Feed.Store
use baldsky.Feed.Store.{insert_post, delete_posts}
use baldsky.Common.{has_prefix}
use baldsky.Common.Utf8.{to_bytes, escape}
use baldsky.Ingest.Uri.{build_uri}
use baldsky.Pipeline.Match.{should_insert}
use baldsky.Pipeline.Regexp.{match_string, keyword_pattern}
use baldsky.Pipeline.Tests.{ascii}
use baldsky.Ingest.Processor.{Commit, CarReader}
use baldsky.Ingest.Stream.{
  idle, streaming, System, Setup, ends, handler, connect, receive, query, process, save, restart,
  Reach, here, later,
}
use baldsky.Ingest.Tests.{conn, evt, all_posts}
use baldsky.Ingest.Rows.Tests.{pipelines, pipelines-OverFeed, uri}
use baldsky.Ingest.Stream.Content.{Content, Reach-Content}
use baldsky.Ingest.Stream.Publisher.{publisher_setup}
use baldsky.Ingest.Stream.Invariant.{Sound, Reach-Sound}
use baldsky.Ingest.Stream.Order.{Relay}
use baldsky.Ingest.Stream.NoLoss.{Reach-handled}
use baldsky.Ingest.Stream.Stores.{
  cursor_store, stored_cursor, feed_setup, feed_setup-Lawful, feed_setup-NeverFails, calling,
}

-- Two commits without operations.
abbrev commit_of : ℕ → Commit
commit_of n = record { repo = []; seq = pos n; too_big = false; blocks = []; ops = [] }

abbrev e43 : Commit
e43 = commit_of 43

abbrev e44 : Commit
e44 = commit_of 44

abbrev log : List Commit
log = e43 ∷ e44 ∷ []

abbrev Next : ℤ → Commit → Type 0
Next at e = ((at ≡ pos 42) × (e ≡ e43)) ⊎ ((at ≡ pos 43) × (e ≡ e44))

abbrev empty_repo : CarReader
empty_repo = λ blocks. none

abbrev setup : ℕ → Setup Database
setup concurrency = feed_setup ascii empty_repo [] (codes "wss") concurrency Next

abbrev at_cursor : ℕ → Database
at_cursor n = record {
  post = [];
  sub_state = record { service = codes "wss"; cursor = pos n } ∷ [];
  feed_stats = [];
  faults = [];
}

relay : (concurrency : ℕ) → Relay (setup concurrency) log
relay concurrency = record {
  forward = λ at e n. elim n [ inl (p, q) ↦ rw (p, q) | inr (p, q) ↦ rw (p, q) ];
  complete = λ at e f n p m a b. of_log f m at e n a b;
}
  where
    of_log :
        (f : Commit)
        → Memᴰ f log
        → (at : ℤ) (e : Commit) → Next at e
        → ltℤ at f.seq ≡ true
        → ltℤ e.seq f.seq ≡ false
        → f ≡ e
    of_log f (Memᴰ.head q) at e (inl (p, r)) a b = cc
    of_log f (Memᴰ.head q) at e (inr (p, r)) a b = let k = rw (q, p) at a in cc
    of_log f (Memᴰ.tail (Memᴰ.head q)) at e (inl (p, r)) a b = let k = rw (q, r) at b in cc
    of_log f (Memᴰ.tail (Memᴰ.head q)) at e (inr (p, r)) a b = cc
    of_log f (Memᴰ.tail (Memᴰ.tail m)) at e n a b = elim m [ ]

-- The first event is received, handled and saved.
abbrev after_one : (concurrency : ℕ) → System Database
after_one concurrency = record {
  stores = at_cursor 43;
  phase = streaming (pos 43);
  connected = true;
  running = [];
  received = e43 ∷ [];
  handled = e43 ∷ [];
}

reach_one :
    (concurrency : ℕ)
    → 0 < concurrency
    → Reach (setup concurrency) (at_cursor 42) (after_one concurrency)
unfolding calling Store.get_cursor Queries.get_cursor find_cursor Store.upsert_cursor
    Queries.upsert_cursor upsert_row text_eq
reach_one concurrency h =
    later
      (later
        (later (later here (connect _ (pos 42) _ refl refl))
          (receive _ (pos 42) e43 refl h (inl (refl, refl))))
        (process _ [] e43 [] refl))
      (save _ [] e43 [] refl)

Reach-Sound_example :
    Sound (stored_cursor (codes "wss")) (stored_cursor (codes "wss") (at_cursor 42)) (after_one 4)
Reach-Sound_example =
    Reach-Sound (setup 4) (stored_cursor (codes "wss"))
      (feed_setup-Lawful ascii empty_repo [] (codes "wss") 4 Next tt) (at_cursor 42)
      (reach_one 4 (omega arith))

Reach-handled_example : Memᴰ e43 (e43 ∷ [])
unfolding find_cursor text_eq
Reach-handled_example =
    Reach-handled (setup 1) (stored_cursor (codes "wss"))
      (feed_setup-Lawful ascii empty_repo [] (codes "wss") 1 Next tt) log (relay 1) refl
      (feed_setup-NeverFails ascii empty_repo []) (at_cursor 42) refl {s = after_one 1}
      (reach_one 1 (omega arith)) e43 (Memᴰ.head refl) refl refl

-- With two workers: the second event is handled and saved before the first, and the process ends.
abbrev after_two : System Database
after_two = record {
  stores = at_cursor 44;
  phase = idle;
  connected = false;
  running = [];
  received = e44 ∷ e43 ∷ [];
  handled = e44 ∷ [];
}

lost_run : Reach (setup 2) (at_cursor 42) after_two
unfolding calling Store.get_cursor Queries.get_cursor find_cursor Store.upsert_cursor
    Queries.upsert_cursor upsert_row text_eq
lost_run =
    let open_stream = later here (connect _ (pos 42) _ refl refl) in
    let first = later open_stream (receive _ (pos 42) e43 refl (omega arith) (inl (refl, refl))) in
    let both = later first (receive _ (pos 43) e44 refl (omega arith) (inr (refl, refl))) in
    let handled = later both (process _ (handler e43 (some (ends none)) ∷ []) e44 [] refl) in
    later (later handled (save _ (handler e43 (some (ends none)) ∷ []) e44 [] refl)) (restart _)

-- A publisher over the feed service, with a connection that lists the messages.
abbrev message : Commit → Option Text
message e = some (codes "m")

abbrev publisher : Setup (Database × List Text)
publisher = publisher_setup conn cursor_store message (codes "wss") (codes "posts") 1 Next

abbrev published : System (Database × List Text)
published = record {
  stores = (at_cursor 43, codes "m" ∷ []);
  phase = streaming (pos 43);
  connected = true;
  running = [];
  received = e43 ∷ [];
  handled = e43 ∷ [];
}

-- A subscription with two pipelines is killed inside an event that creates a post: the first pipeline
-- has inserted it, and the event is not handled.
abbrev NextPost : ℤ → Commit → Type 0
NextPost at e = (at ≡ pos 41) × (e ≡ evt)

abbrev post_setup : Setup Database
post_setup = feed_setup ascii all_posts pipelines (codes "wss") 4 NextPost

abbrev killed : System Database
killed = record {
  stores = (insert_post (codes "now") (codes "bald") uri (codes "bafy") (at_cursor 41)).0;
  phase = idle;
  connected = false;
  running = [];
  received = evt ∷ [];
  handled = [];
}

reach_killed : Reach post_setup (at_cursor 41) killed
unfolding Store.get_cursor Queries.get_cursor find_cursor text_eq calling should_insert match_string
    keyword_pattern build_uri to_bytes escape has_prefix insert_post Queries.insert_post
reach_killed =
    let opened = later here (connect _ (pos 41) _ refl refl) in
    let begun = later opened (receive _ (pos 41) evt refl (omega arith) (refl, refl)) in
    later (later begun (query _ [] evt _ _ [] refl)) (restart _)

Reach-Content_example :
    Content ascii all_posts pipelines pipelines-OverFeed [] (evt ∷ []) killed.stores
Reach-Content_example =
    Reach-Content ascii all_posts pipelines pipelines-OverFeed (codes "wss") 4 NextPost
      (at_cursor 41) {s = killed} reach_killed tt

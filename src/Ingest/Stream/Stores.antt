-- ===== src/Ingest/Stream/Stores.antt =====
-- The subscription over the feed service of feed/feed.go, which is the store of its pipelines and of
-- its cursor.
use baldsky.Common.{
  Text, List, none, some, Result, ok, err, Error, no_rows, failed, ℤ, pos, ℕ, ◌≡◌, refl, ap, ◌⊎◌,
  inl, inr, All, All-mem, [], ◌∷◌, Option, ◌∙◌, sym, Bool-cases, text_eq_refl,
}
use baldsky.Db.Tables.{Database}
use baldsky.Db.Queries.{fails, has_uri, find_cursor, upsert_row}
use baldsky.Db.Queries
use baldsky.Feed.Store
use baldsky.Feed.Store.{pipeline_store, cursor_or_zero}
use baldsky.Feed.Stored.{find_cursor-upsert_row}
use baldsky.Pipeline.Build.{Runtime, Pipeline}
use baldsky.Ingest.Processor.{Commit, CarReader, process_event}
use baldsky.Ingest.Calls.{Call, insertion, deletion, make_calls, calls_of, process_event-make_calls}
use baldsky.Ingest.Asked.{calls_of-All}
use baldsky.Ingest.Commit.{CursorStore}
use baldsky.Ingest.Stream.{Program, ends, asks, run, Setup}
use baldsky.Ingest.Stream.Programs.{EachCall, NeverFails}
use baldsky.Ingest.Stream.Keeps.{WritesFeed, OverFeed, insertion_keeps, deletion_keeps}
use baldsky.Ingest.Stream.Invariant.{Lawful}

-- The cursor of a service, 0 if there is none.
abbrev value_or_zero : Result Error ℤ → ℤ
value_or_zero (ok c) = c
value_or_zero (err e) = pos 0

abbrev pub stored_cursor : Text → Database → ℤ
stored_cursor service db = value_or_zero (find_cursor service db.sub_state)

-- The feed service as a `CursorStore`.
abbrev pub cursor_store : CursorStore Database
cursor_store = record {
  get_cursor = λ service db. Store.get_cursor service db;
  upsert_cursor = λ service cursor db. Store.upsert_cursor service cursor db;
}

-- One call of `ProcessEvent`, and what it answers.
abbrev pub asked : {S : Type 0} → Call S → S → S × Option Error
asked (insertion p uri cid) st = p.store.insert_post p.name uri cid st
asked (deletion p uri) st = p.store.delete_posts (uri ∷ []) st

-- The calls in order, whatever they answer, and then no error.
unfoldable pub calling : {S : Type 0} → List (Call S) → Program S
calling [] = ends none
calling (c ∷ calls) = asks (asked c) (λ x. calling calls)

-- `ProcessEvent` on an event, call by call.
abbrev pub event_program :
    {S : Type 0} → Runtime → CarReader → List (Pipeline S) → Commit → Program S
event_program rt read_repo pipes e = calling (calls_of rt read_repo pipes (some e))

run-calling :
    {S : Type 0} (calls : List (Call S)) (st : S)
    → run (calling calls) st ≡ (make_calls calls st, none)
unfolding run calling make_calls
run-calling [] st = refl
run-calling (insertion p uri cid ∷ calls) st = run-calling calls _
run-calling (deletion p uri ∷ calls) st = run-calling calls _

-- With no other handler between its calls the program is `ProcessEvent`.
run-event_program :
    {S : Type 0} (rt : Runtime) (read_repo : CarReader) (pipes : List (Pipeline S)) (e : Commit)
    (st : S)
    → run (event_program rt read_repo pipes e) st ≡ process_event rt read_repo pipes (some e) st
run-event_program rt read_repo pipes e st =
    run-calling (calls_of rt read_repo pipes (some e)) st
    ∙ sym (process_event-make_calls rt read_repo pipes (some e) st)

-- A property of each call of the list is one of each call of the program.
pub calling-EachCall :
    {S : Type 0} (Q : (S → S × Option Error) → Type 0) (calls : List (Call S))
    → All (λ c. Q (asked c)) calls
    → EachCall Q (calling calls)
unfolding calling
calling-EachCall Q [] h = tt
calling-EachCall Q (c ∷ calls) h = (h.0, λ x. calling-EachCall Q calls h.1)

calling-NeverFails : {S : Type 0} (calls : List (Call S)) → NeverFails (calling calls)
unfolding calling
calling-NeverFails [] = refl
calling-NeverFails (c ∷ calls) = λ x. calling-NeverFails calls

-- `New` of subscription/subscription.go over the feed service.
abbrev pub feed_setup :
    Runtime
    → CarReader
    → List (Pipeline Database)
    → Text
    → ℕ
    → (ℤ → Commit → Type 0)
    → Setup Database
feed_setup rt read_repo pipes service concurrency next = record {
  process = λ e. event_program rt read_repo pipes e;
  store = cursor_store;
  service = service;
  concurrency = concurrency;
  next = next;
}

get_keeps :
    (service : Text) (db : Database) → (Store.get_cursor service db).1.sub_state ≡ db.sub_state
unfolding Store.get_cursor Queries.get_cursor
get_keeps service db = refl

get_reads :
    (service : Text) (db db' : Database) (c : ℤ)
    → Store.get_cursor service db ≡ (ok c, db')
    → c ≡ stored_cursor service db
unfolding Store.get_cursor Queries.get_cursor
get_reads service db db' c h = elim (Bool-cases (fails db.faults)) [
  | inl e ↦ let k = rw e at h in cc
  | inr e ↦ of_found (find_cursor service db.sub_state) (rw e at h)
]
  where
    of_found :
        (o : Result Error ℤ)
        → ◌≡◌ {A = Result Error ℤ × Database} (cursor_or_zero o, Queries.took db) (ok c, db')
        → c ≡ value_or_zero o
    of_found (ok d) k = cc
    of_found (err no_rows) k = cc
    of_found (err failed) k = cc

upsert_sets :
    (service : Text) (c : ℤ) (db : Database)
    → (stored_cursor service (Store.upsert_cursor service c db).0 ≡ c)
      ⊎ (stored_cursor service (Store.upsert_cursor service c db).0 ≡ stored_cursor service db)
unfolding Store.upsert_cursor Queries.upsert_cursor
upsert_sets service c db = elim (Bool-cases (fails db.faults)) [
  | inl e ↦ inr (rw e)
  | inr e ↦ inl (rw (e, find_cursor-upsert_row, text_eq_refl) refl)
]

-- The feed service is what the subscription relies on, and its processing never fails.
pub feed_setup-Lawful :
    (rt : Runtime) (read_repo : CarReader) (pipes : List (Pipeline Database)) (service : Text)
    (concurrency : ℕ) (next : ℤ → Commit → Type 0)
    → OverFeed pipes
    → Lawful (feed_setup rt read_repo pipes service concurrency next) (stored_cursor service)
feed_setup-Lawful rt read_repo pipes service concurrency next h = record {
  get_keeps = λ db. ap (λ l. value_or_zero (find_cursor service l)) (get_keeps service db);
  get_reads = λ db db' c g. get_reads service db db' c g;
  process_keeps = λ e.
      calling-EachCall
        (λ f. (db : Database) → stored_cursor service (f db).0 ≡ stored_cursor service db)
        (calls_of rt read_repo pipes (some e))
        (calls_of-All rt read_repo e _ pipes
          (λ p m uri db.
            ap (λ l. value_or_zero (find_cursor service l))
              (deletion_keeps p (All-mem WritesFeed pipes h m) uri db))
          (λ p m uri cid c db.
            ap (λ l. value_or_zero (find_cursor service l))
              (insertion_keeps p (All-mem WritesFeed pipes h m) uri cid db)));
  upsert_sets = λ c db. upsert_sets service c db;
}

pub feed_setup-NeverFails :
    (rt : Runtime) (read_repo : CarReader) (pipes : List (Pipeline Database)) (e : Commit)
    → NeverFails (event_program rt read_repo pipes e)
feed_setup-NeverFails rt read_repo pipes e =
    calling-NeverFails (calls_of rt read_repo pipes (some e))

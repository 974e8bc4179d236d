-- ===== src/Ingest/Stream/Publisher.antt =====
-- `Listen`, `subscribe` and `handleCommit` of publisher/publisher.go as an instance of the step
-- relation: sending an event to NATS stands where the subscription processes it.
use baldsky.Common.{Text, Option, none, some, true, ok, Error, ℤ, ℕ, ◌≡◌, ◌⊎◌}
use baldsky.Ingest.Processor.{Commit}
use baldsky.Ingest.Commit.{CursorStore, NatsConn}
use baldsky.Ingest.Stream.Sending.{beside, send_program}
use baldsky.Ingest.Stream.{Setup}

-- What a publisher relies on: `cursor_of` is the stored cursor, which reading leaves alone.
pub record LawfulStore {S : Type 0} (store : CursorStore S) (service : Text) (cursor_of : S → ℤ)
    : Type 0 where
  pub get_keeps : (st : S) → cursor_of (store.get_cursor service st).1 ≡ cursor_of st
  pub get_reads :
      (st st' : S) (c : ℤ) → store.get_cursor service st ≡ (ok c, st') → c ≡ cursor_of st
  pub upsert_sets :
      (c : ℤ) (st : S)
      → (cursor_of (store.upsert_cursor service c st).0 ≡ c)
        ⊎ (cursor_of (store.upsert_cursor service c st).0 ≡ cursor_of st)

module _ {S N : Type 0} (conn : NatsConn N) (store : CursorStore S) (marshal : Commit → Option Text)
    (service subject : Text) where
  -- The client took the event's message and, later, flushed, both without an error.
  pub record Acknowledged (evt : Commit) : Type 0 where
    pub message : Text
    pub marshalled : marshal evt ≡ some message
    pub at_publish : N
    pub published : (conn.publish subject message at_publish).1 ≡ none
    pub at_flush : N
    pub flushed : (conn.flush_timeout at_flush).1 ≡ none

  -- The event is too big, or its message was published and flushed without an error.
  abbrev pub Sent : Commit → Type 0
  Sent evt = (evt.too_big ≡ true) ⊎ Acknowledged evt

  -- `New` of publisher/publisher.go with its firehose; `next` and `concurrency` are as for `Setup`.
  abbrev pub publisher_setup : ℕ → (ℤ → Commit → Type 0) → Setup (S × N)
  publisher_setup concurrency next = record {
    process = λ e. send_program conn store marshal service subject e;
    store = beside store;
    service = service;
    concurrency = concurrency;
    next = next;
  }

  module _ (concurrency : ℕ) (next : ℤ → Commit → Type 0) (cursor_of : S → ℤ)
      (laws : LawfulStore store service cursor_of) where
    abbrev KeepsCursor : (S × N → (S × N) × Option Error) → Type 0
    KeepsCursor f = (w : S × N) → cursor_of (f w).0.0 ≡ cursor_of w.0

-- ===== src/Ingest/Commit.antt =====
-- The commit handlers: `HandleCommit` of subscription/subscription.go, `handleCommit` of
-- publisher/publisher.go, and the message handler of `Run` in worker/worker.go.
use baldsky.Common.{Text, Option, none, some, Result, Error, ℤ, if◌then◌else◌}
use baldsky.Ingest.Processor.{Commit}

-- The interface `CursorStore` of firehose/firehose.go, over the state `S` that its calls change.
pub record CursorStore (S : Type 0) : Type 0 where
  pub get_cursor : Text → S → Result Error ℤ × S
  pub upsert_cursor : Text → ℤ → S → S × Option Error

-- The interface `Processor` of firehose/firehose.go.
abbrev pub ProcessorOf : Type 0 → Type 0
ProcessorOf S = Option Commit → S → S × Option Error

pub data CommitError : Type 0 where
  process_error : Error → CommitError
  marshal_error : CommitError
  publish_error : CommitError
  flush_error : CommitError
  upsert_error : Error → CommitError

-- A handler returns an error or nil, or panics on a nil event.
pub data Outcome : Type 0 where
  returned : Option CommitError → Outcome
  panicked : Outcome

module _ {S : Type 0} where
  abbrev pub upserted : S × Option Error → S × Outcome
  upserted (st, none) = (st, returned none)
  upserted (st, some e) = (st, returned (some (upsert_error e)))

  -- `evt.Seq` is read through the pointer.
  abbrev pub save_cursor : Option (CursorStore S) → Text → Option Commit → S → S × Outcome
  save_cursor none service evt st = (st, returned none)
  save_cursor (some store) service none st = (st, panicked)
  save_cursor (some store) service (some evt) st = upserted (store.upsert_cursor service evt.seq st)

  abbrev pub unless_error : S × Option Error → (S → S × Outcome) → S × Outcome
  unless_error (st, some e) next = (st, returned (some (process_error e)))
  unless_error (st, none) next = next st

  -- `Subscription.HandleCommit`.
  unfoldable pub handle_commit :
      ProcessorOf S → Option (CursorStore S) → Text → Option Commit → S → S × Outcome
  handle_commit process store service evt st =
      unless_error (process evt st) (λ st'. save_cursor store service evt st')

  abbrev pub save_processed : Option (CursorStore S) → Text → Commit → S × Option Error → S
  save_processed store service evt (st, some e) = st
  save_processed none service evt (st, none) = st
  save_processed (some store) service evt (st, none) = (store.upsert_cursor service evt.seq st).0

  abbrev pub handle_event : ProcessorOf S → Option (CursorStore S) → Text → Option Commit → S → S
  handle_event process store service none st = st
  handle_event process store service (some evt) st =
      save_processed store service evt (process (some evt) st)

  -- The worker's handler of a message; what it returns early on is only logged.
  unfoldable pub handle_message :
      (Text → Option Commit) → ProcessorOf S → Option (CursorStore S) → Text → Text → S → S
  handle_message unmarshal process store service message st =
      handle_event process store service (unmarshal message) st

-- The connection to NATS, over its state `N`: whether the call failed comes back as an error.
pub record NatsConn (N : Type 0) : Type 0 where
  pub publish : Text → Text → N → N × Option Error
  pub flush_timeout : N → N × Option Error

module _ {S N : Type 0} (conn : NatsConn N) (store : CursorStore S) (marshal : Commit → Option Text)
    (service subject : Text) where
  abbrev pub upserted_with : N → S × Option Error → S × N × Outcome
  upserted_with n (st, none) = (st, n, returned none)
  upserted_with n (st, some e) = (st, n, returned (some (upsert_error e)))

  abbrev pub after_flush : Commit → S → N × Option Error → S × N × Outcome
  after_flush evt st (n, some e) = (st, n, returned (some flush_error))
  after_flush evt st (n, none) = upserted_with n (store.upsert_cursor service evt.seq st)

  abbrev pub after_publish : Commit → S → N × Option Error → S × N × Outcome
  after_publish evt st (n, some e) = (st, n, returned (some publish_error))
  after_publish evt st (n, none) = after_flush evt st (conn.flush_timeout n)

  abbrev pub after_marshal : Commit → S → N → Option Text → S × N × Outcome
  after_marshal evt st n none = (st, n, returned (some marshal_error))
  after_marshal evt st n (some message) = after_publish evt st (conn.publish subject message n)

  -- `Publisher.handleCommit`.
  unfoldable pub publish_commit : Option Commit → S → N → S × N × Outcome
  publish_commit none st n = (st, n, returned none)
  publish_commit (some evt) st n =
      if evt.too_big
      then upserted_with n (store.upsert_cursor service evt.seq st)
      else after_marshal evt st n (marshal evt)

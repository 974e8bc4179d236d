-- ===== src/Ingest/Stream.antt =====
-- The standalone subscription of subscription/subscription.go as a step relation: `Listen` and
-- `subscribe`, `Run` of firehose/firehose.go with its flag `connected`, and the handlers that the
-- scheduler runs at once, each of which is a `HandleCommit`. The relay and the scheduler choose.
mod Address
pub mod Programs
pub mod Invariant
pub mod Histories
pub mod Order
pub mod NoLoss
pub mod Keeps
pub mod Stores
pub mod Content
pub mod Sending
pub mod Publisher
mod Tests
use baldsky.Common.{
  Text, List, [], ◌∷◌, ◌++◌, Option, none, some, Bool, true, false, Result, ok, Error, ℤ, ℕ, ◌<◌,
  length, ◌≡◌,
}
use baldsky.Ingest.Processor.{Commit}
use baldsky.Ingest.Commit.{CursorStore}

-- Where `Listen` is: before `GetCursor`, in `HandleRepoStream` behind a sequence number, or returned.
pub data Phase : Type 0 where
  idle : Phase
  streaming : ℤ → Phase
  stopped : Phase

-- What a call of `ProcessEvent` still does: it returns an error or nil, or it makes a call of its
-- stores, which other handlers may change before and behind it, and goes on with the answer.
pub data Program (S : Type 0) : Type 0 where
  ends : Option Error → Program S
  asks : (S → S × Option Error) → (Option Error → Program S) → Program S

-- The whole of it, with no other handler between its calls.
unfoldable pub run : {S : Type 0} → Program S → S → S × Option Error
run (ends x) st = (st, x)
run (asks f next) st = run (next (f st).1) (f st).0

-- A call of `HandleCommit` that has not returned: in `ProcessEvent`, or behind it if nothing is left.
pub record Running (S : Type 0) : Type 0 where
  pub event : Commit
  pub left : Option (Program S)

-- Two histories, the latest event first: `received` has the events that a handler was started for,
-- `handled` those that `ProcessEvent` returned nil for.
pub record System (S : Type 0) : Type 0 where
  pub stores : S
  pub phase : Phase
  pub connected : Bool
  pub running : List (Running S)
  pub received : List Commit
  pub handled : List Commit

-- What a subscription is made of. `next` says which event the relay may send behind a sequence
-- number, and `concurrency` is the number of workers of the scheduler.
pub record Setup (S : Type 0) : Type 1 where
  pub process : Commit → Program S
  pub store : CursorStore S
  pub service : Text
  pub concurrency : ℕ
  pub next : ℤ → Commit → Type 0

abbrev pub handler : {S : Type 0} → Commit → Option (Program S) → Running S
handler e left = record { event = e; left = left }

module _ {S : Type 0} (u : Setup S) where
  pub data Step : System S → System S → Type 0 where
    -- `GetCursor` and the dialer succeed
    connect :
        (s : System S) (cursor : ℤ) (st : S)
        → s.phase ≡ idle
        → u.store.get_cursor u.service s.stores ≡ (ok cursor, st)
        → Step s (record s { stores = st; phase = streaming cursor; connected = true })
    -- `GetCursor` or the dialer fails, and `Listen` waits for the delay
    retry :
        (s : System S)
        → s.phase ≡ idle
        → Step s (record s { stores = (u.store.get_cursor u.service s.stores).1 })
    -- the relay sends an event, and a worker of the scheduler takes it
    receive :
        (s : System S) (at : ℤ) (e : Commit)
        → s.phase ≡ streaming at
        → length s.running < u.concurrency
        → u.next at e
        → Step s (record s {
          phase = streaming e.seq;
          running = s.running ++ handler e (some (u.process e)) ∷ [];
          received = e ∷ s.received;
        })
    -- `ProcessEvent` makes its next call of the stores
    query :
        (s : System S) (xs : List (Running S)) (e : Commit) (f : S → S × Option Error)
        (next : Option Error → Program S) (ys : List (Running S))
        → s.running ≡ xs ++ handler e (some (asks f next)) ∷ ys
        → Step s (record s {
          stores = (f s.stores).0;
          running = xs ++ handler e (some (next (f s.stores).1)) ∷ ys;
        })
    -- `ProcessEvent` returns nil
    process :
        (s : System S) (xs : List (Running S)) (e : Commit) (ys : List (Running S))
        → s.running ≡ xs ++ handler e (some (ends none)) ∷ ys
        → Step s (record s { running = xs ++ handler e none ∷ ys; handled = e ∷ s.handled })
    -- `ProcessEvent` returns an error, and `HandleCommit` returns it
    fail :
        (s : System S) (xs : List (Running S)) (e : Commit) (ys : List (Running S)) (x : Error)
        → s.running ≡ xs ++ handler e (some (ends (some x))) ∷ ys
        → Step s (record s { running = xs ++ ys })
    -- `UpsertCursor`, failed or not, and `HandleCommit` returns
    save :
        (s : System S) (xs : List (Running S)) (e : Commit) (ys : List (Running S))
        → s.running ≡ xs ++ handler e none ∷ ys
        → Step s (record s {
          stores = (u.store.upsert_cursor u.service e.seq s.stores).0;
          running = xs ++ ys;
        })
    -- the stream ends; handlers that have not returned go on
    disconnect :
        (s : System S) (at : ℤ)
        → s.phase ≡ streaming at
        → Step s (record s { phase = idle; connected = false })
    -- the context is cancelled
    stop : (s : System S) → s.phase ≡ idle → Step s (record s { phase = stopped })
    -- the process ends, wherever its handlers are, and is started again
    restart : (s : System S) → Step s (record s { phase = idle; connected = false; running = [] })

  -- Before the first call of `Listen`.
  abbrev pub initial : S → System S
  initial st = record {
    stores = st;
    phase = idle;
    connected = false;
    running = [];
    received = [];
    handled = [];
  }

  pub data Reach (st : S) : System S → Type 0 where
    here : Reach st (initial st)
    later : {s t : System S} → Reach st s → Step s t → Reach st t

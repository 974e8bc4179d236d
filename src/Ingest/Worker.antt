-- ===== src/Ingest/Worker.antt =====
-- `Run` of worker/worker.go: the messages of its subscription to NATS, and its flag `connected`.
use baldsky.Common.{
  Text, List, [], ◌∷◌, Option, none, some, Bool, true, false, Error, ◌≡◌, refl, ◌∙◌, ap, map, All,
}
use baldsky.Ingest.Processor.{Commit}
use baldsky.Ingest.Commit.{CursorStore, ProcessorOf, handle_commit, handle_message}
use baldsky.Ingest.Handlers.{handle_message-handle_commit}

-- What reaches a worker: a message of its queue group, or the end of its context.
pub data Event : Type 0 where
  message : Text → Event
  context_done : Event

pub record Worker (S : Type 0) : Type 0 where
  pub stores : S
  pub connected : Bool

module _ {S : Type 0} (unmarshal : Text → Option Commit) (process : ProcessorOf S)
    (store : Option (CursorStore S)) (service : Text) where
  -- The subscription until the context is done; the handler runs for one message at a time. What the
  -- drain still delivers is left out.
  unfoldable pub serve_messages : List Event → S → Worker S
  serve_messages [] st = record { stores = st; connected = true }
  serve_messages (message m ∷ events) st =
      serve_messages events (handle_message unmarshal process store service m st)
  serve_messages (context_done ∷ events) st = record { stores = st; connected = false }

  -- `Run`, with the error of `QueueSubscribe`.
  unfoldable pub run_worker : Option Error → List Event → S → Worker S
  unfolding serve_messages
  run_worker (some e) events st = record { stores = st; connected = false }
  run_worker none events st = serve_messages events st

  -- `HandleCommit` on one event after the other.
  abbrev pub handle_commits : List Commit → S → S
  handle_commits [] st = st
  handle_commits (evt ∷ evts) st =
      handle_commits evts (handle_commit process store service (some evt) st).0

  serve_messages_lem :
      (marshal : Commit → Text) (evts : List Commit) (st : S)
      → All (λ evt. unmarshal (marshal evt) ≡ some evt) evts
      → serve_messages (map (λ evt. message (marshal evt)) evts) st
        ≡ record { stores = handle_commits evts st; connected = true }
  unfolding serve_messages
  serve_messages_lem marshal [] st h = refl
  serve_messages_lem marshal (evt ∷ evts) st (h, hs) =
      ap (λ s. serve_messages (map (λ e. message (marshal e)) evts) s)
        (handle_message-handle_commit process store service unmarshal (marshal evt) evt st h)
      ∙ serve_messages_lem marshal evts _ hs

  -- A worker that is subscribed and gets the messages of events, one after the other, is connected
  -- and leaves the stores as the standalone subscription leaves them on the events themselves,
  -- whatever the processor and the cursor store answer, if the messages are read back as the events.
  pub run_worker-handle_commits :
      (marshal : Commit → Text) (evts : List Commit) (st : S)
      → All (λ evt. unmarshal (marshal evt) ≡ some evt) evts
      → run_worker none (map (λ evt. message (marshal evt)) evts) st
        ≡ record { stores = handle_commits evts st; connected = true }
  unfolding run_worker
  run_worker-handle_commits marshal evts st h = serve_messages_lem marshal evts st h

-- ===== src/Ingest/Handlers.antt =====
-- What the commit handlers of subscription/subscription.go, publisher/publisher.go and
-- worker/worker.go promise about cursors.
use baldsky.Common.{
  Text, Option, none, some, true, Error, ◌≡◌, sym, refl, ◌⊎◌, inl, inr, Bool-cases, ◌≢◌,
}
use baldsky.Ingest.Processor.{Commit}
use baldsky.Ingest.Commit.{
  upserted, CursorStore, ProcessorOf, Outcome, returned, handle_commit, handle_message, NatsConn,
  publish_commit, after_flush, after_publish, after_marshal, upserted_with, save_cursor,
  save_processed, unless_error,
}

module _ {S N : Type 0} (conn : NatsConn N) (store : CursorStore S) (marshal : Commit → Option Text)
    (service subject : Text) where
  -- The event's message was published and flushed without an error.
  pub record Delivered (evt : Commit) (n n' : N) : Type 0 where
    pub message : Text
    pub marshalled : marshal evt ≡ some message
    pub between : N
    pub published : conn.publish subject message n ≡ (between, none)
    pub flushed : conn.flush_timeout between ≡ (n', none)

  upserted_with_lem :
      (n n' : N) (r : S × Option Error) (st' : S) (o : Outcome)
      → upserted_with conn store marshal service subject n r ≡ (st', n', o)
      → (st' ≡ r.0) × (n' ≡ n)
  upserted_with_lem n n' (s, none) st' o h = (cc, cc)
  upserted_with_lem n n' (s, some e) st' o h = (cc, cc)

  after_flush_lem :
      (evt : Commit) (st st' : S) (f : N × Option Error) (n' : N) (o : Outcome)
      → after_flush conn store marshal service subject evt st f ≡ (st', n', o)
      → ((st' ≡ st) × (o ≢ returned none))
        ⊎ ((st' ≡ (store.upsert_cursor service evt.seq st).0) × (f ≡ (n', none)))
  after_flush_lem evt st st' (m, some e) n' o h = inl (cc, λ q. cc)
  after_flush_lem evt st st' (m, none) n' o h =
      let (p, q) = upserted_with_lem m n' (store.upsert_cursor service evt.seq st) st' o h in
      inr (p, cc)

  after_publish_lem :
      (evt : Commit) (st st' : S) (p : N × Option Error) (n' : N) (o : Outcome)
      → after_publish conn store marshal service subject evt st p ≡ (st', n', o)
      → ((st' ≡ st) × (o ≢ returned none))
        ⊎ ((st' ≡ (store.upsert_cursor service evt.seq st).0)
            × ((m : N) × (p ≡ (m, none)) × (conn.flush_timeout m ≡ (n', none))))
  after_publish_lem evt st st' (m, some e) n' o h = inl (cc, λ q. cc)
  after_publish_lem evt st st' (m, none) n' o h =
      elim (after_flush_lem evt st st' (conn.flush_timeout m) n' o h) [
        | inl k ↦ inl k
        | inr k ↦ inr (k.0, (m, refl, k.1))
      ]

  after_marshal_lem :
      (evt : Commit) (st st' : S) (n n' : N) (o : Outcome) (r : Option Text)
      → marshal evt ≡ r
      → after_marshal conn store marshal service subject evt st n r ≡ (st', n', o)
      → ((st' ≡ st) × (o ≢ returned none))
        ⊎ ((st' ≡ (store.upsert_cursor service evt.seq st).0) × Delivered evt n n')
  after_marshal_lem evt st st' n n' o none e h = inl (cc, λ q. cc)
  after_marshal_lem evt st st' n n' o (some message) e h =
      elim (after_publish_lem evt st st' (conn.publish subject message n) n' o h) [
        | inl k ↦ inl k
        | inr (k, (m, p, f)) ↦ inr (
          k,
          record { message = message; marshalled = e; between = m; published = p; flushed = f },
        )
      ]

  -- The publisher writes the cursor of an event only after the event's message has been published
  -- and flushed without an error, but for an event that is too big, which is never published; it
  -- then writes the event's sequence number under the firehose's name, and in every other case
  -- leaves the cursor store as it was.
  pub publish_commit-Delivered :
      (evt : Commit) (st st' : S) (n n' : N) (o : Outcome)
      → publish_commit conn store marshal service subject (some evt) st n ≡ (st', n', o)
      → ((st' ≡ st) × (o ≢ returned none))
        ⊎ ((st' ≡ (store.upsert_cursor service evt.seq st).0)
            × ((evt.too_big ≡ true) × (n' ≡ n) ⊎ Delivered evt n n'))
  unfolding publish_commit
  publish_commit-Delivered evt st st' n n' o h = elim (Bool-cases evt.too_big) [
    | inl big ↦
        let (p, q) =
          upserted_with_lem n n' (store.upsert_cursor service evt.seq st) st' o (simp big at h) in
        inr (p, inl (big, q))
    | inr small ↦ elim (after_marshal_lem evt st st' n n' o (marshal evt) refl (simp small at h)) [
      | inl k ↦ inl k
      | inr k ↦ inr (k.0, inr k.1)
    ]
  ]

upserted_lem : {S : Type 0} (r : S × Option Error) → (upserted r).0 ≡ r.0
upserted_lem (st, none) = refl
upserted_lem (st, some e) = refl

module _ {S : Type 0} (process : ProcessorOf S) (store : Option (CursorStore S))
    (service : Text) where
  -- A worker that gets an event's message leaves the stores as the standalone subscription leaves
  -- them on the event itself, whatever the processor and the cursor store answer, if the message
  -- is read back as the event.
  pub handle_message-handle_commit :
      (unmarshal : Text → Option Commit) (message : Text) (evt : Commit) (st : S)
      → unmarshal message ≡ some evt
      → handle_message unmarshal process store service message st
        ≡ (handle_commit process store service (some evt) st).0
  unfolding handle_message handle_commit
  handle_message-handle_commit unmarshal message evt st h =
      rw h (processed store (process (some evt) st))
    where
      processed :
          (c : Option (CursorStore S)) (r : S × Option Error)
          → save_processed c service evt r
            ≡ (unless_error r (λ st'. save_cursor c service (some evt) st')).0
      processed c (s, some e) = refl
      processed none (s, none) = refl
      processed (some c) (s, none) = sym (upserted_lem (c.upsert_cursor service evt.seq s))

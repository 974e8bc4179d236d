-- ===== src/Ingest/Stream/Sending.antt =====
-- What `handleCommit` of publisher/publisher.go sends to NATS, at once and call by call.
use baldsky.Common.{
  Text, Option, none, some, Error, failed, if◌then◌else◌, ◌≡◌, refl, ◌↔◌, inl, inr, Bool-cases,
}
use baldsky.Ingest.Processor.{Commit}
use baldsky.Ingest.Commit.{
  CursorStore, ProcessorOf, NatsConn, Outcome, returned, handle_commit, publish_commit, upserted,
  upserted_with, unless_error, after_flush, after_publish, after_marshal,
}
use baldsky.Ingest.Stream.{Program, ends, asks, run}

-- The cursor store and the connection to NATS are changed together.
abbrev pub beside : {S N : Type 0} → CursorStore S → CursorStore (S × N)
beside store = record {
  get_cursor =
      λ service w. ((store.get_cursor service w.0).0, ((store.get_cursor service w.0).1, w.1));
  upsert_cursor = λ service cursor w. (
    ((store.upsert_cursor service cursor w.0).0, w.1),
    (store.upsert_cursor service cursor w.0).1,
  );
}

module _ {S N : Type 0} (conn : NatsConn N) (store : CursorStore S) (marshal : Commit → Option Text)
    (service subject : Text) where
  abbrev pub flushed_with : S → N × Option Error → (S × N) × Option Error
  flushed_with st (n, e) = ((st, n), e)

  abbrev pub published_with : S → N × Option Error → (S × N) × Option Error
  published_with st (n, some e) = ((st, n), some e)
  published_with st (n, none) = flushed_with st (conn.flush_timeout n)

  abbrev pub marshalled_with : S → N → Option Text → (S × N) × Option Error
  marshalled_with st n none = ((st, n), some failed)
  marshalled_with st n (some message) = published_with st (conn.publish subject message n)

  -- `handleCommit` up to the writing of the cursor.
  unfoldable pub send : ProcessorOf (S × N)
  send none w = (w, none)
  send (some evt) (st, n) =
      if evt.too_big then ((st, n), none) else marshalled_with st n (marshal evt)

  abbrev pub publish_call : Text → S × N → (S × N) × Option Error
  publish_call message (st, n) =
      ((st, (conn.publish subject message n).0), (conn.publish subject message n).1)

  abbrev pub flush_call : S × N → (S × N) × Option Error
  flush_call (st, n) = ((st, (conn.flush_timeout n).0), (conn.flush_timeout n).1)

  abbrev pub then_flush : Option Error → Program (S × N)
  then_flush (some e) = ends (some e)
  then_flush none = asks flush_call (λ x. ends x)

  abbrev pub then_publish : Option Text → Program (S × N)
  then_publish none = ends (some failed)
  then_publish (some message) = asks (publish_call message) (λ x. then_flush x)

  -- The same, call by call: other handlers may publish and flush between the two.
  unfoldable pub send_program : Commit → Program (S × N)
  send_program evt = if evt.too_big then ends none else then_publish (marshal evt)

  run-send_program : (evt : Commit) (w : S × N) → run (send_program evt) w ≡ send (some evt) w
  unfolding send_program send run
  run-send_program evt (st, n) = elim (Bool-cases evt.too_big) [
    | inl e ↦ rw e refl
    | inr e ↦ simp e (of_message (marshal evt))
  ]
    where
      of_flush : (f : N × Option Error) → ((st, f.0), f.1) ≡ flushed_with st f
      of_flush (m, x) = refl

      of_publish : (q : N × Option Error) → run (then_flush q.1) (st, q.0) ≡ published_with st q
      of_publish (m, some x) = refl
      of_publish (m, none) = of_flush (conn.flush_timeout m)

      of_message : (o : Option Text) → run (then_publish o) (st, n) ≡ marshalled_with st n o
      of_message none = refl
      of_message (some message) = of_publish (conn.publish subject message n)

  -- The two handlers leave the same, and both fail or none does.
  abbrev pub Agrees : S × N × Outcome → (S × N) × Outcome → Type 0
  Agrees (st, n, o) ((st', n'), o') =
      (st ≡ st') × (n ≡ n') × ((o ≡ returned none) ↔ (o' ≡ returned none))

  upserted-Agrees :
      (n : N) (r : S × Option Error)
      → Agrees (upserted_with conn store marshal service subject n r) (upserted ((r.0, n), r.1))
  upserted-Agrees n (st, none) = (refl, refl, (λ q. q, λ q. q))
  upserted-Agrees n (st, some e) = (refl, refl, (λ q. q, λ q. q))

  flush-Agrees :
      (evt : Commit) (st : S) (f : N × Option Error)
      → Agrees (after_flush conn store marshal service subject evt st f) (
          unless_error
            (flushed_with st f)
            (λ w. upserted ((beside store).upsert_cursor service evt.seq w)))
  flush-Agrees evt st (n, some e) = (refl, refl, (λ q. cc, λ q. cc))
  flush-Agrees evt st (n, none) = upserted-Agrees n (store.upsert_cursor service evt.seq st)

  publish-Agrees :
      (evt : Commit) (st : S) (p : N × Option Error)
      → Agrees (after_publish conn store marshal service subject evt st p) (
          unless_error
            (published_with st p)
            (λ w. upserted ((beside store).upsert_cursor service evt.seq w)))
  publish-Agrees evt st (n, some e) = (refl, refl, (λ q. cc, λ q. cc))
  publish-Agrees evt st (n, none) = flush-Agrees evt st (conn.flush_timeout n)

  marshal-Agrees :
      (evt : Commit) (st : S) (n : N) (m : Option Text)
      → Agrees (after_marshal conn store marshal service subject evt st n m) (
          unless_error
            (marshalled_with st n m)
            (λ w. upserted ((beside store).upsert_cursor service evt.seq w)))
  marshal-Agrees evt st n none = (refl, refl, (λ q. cc, λ q. cc))
  marshal-Agrees evt st n (some message) = publish-Agrees evt st (conn.publish subject message n)

  -- The publisher's handler is that of the subscription, with `send` in the place of the processor.
  pub publish_commit-handle_commit :
      (evt : Commit) (st : S) (n : N)
      → Agrees
          (publish_commit conn store marshal service subject (some evt) st n)
          (handle_commit send (some (beside store)) service (some evt) (st, n))
  unfolding publish_commit handle_commit send
  publish_commit-handle_commit evt st n = elim (Bool-cases evt.too_big) [
    | inl e ↦ simp e (upserted-Agrees n (store.upsert_cursor service evt.seq st))
    | inr e ↦ simp e (marshal-Agrees evt st n (marshal evt))
  ]

-- ===== src/Ingest/Stream/NoLoss.antt =====
-- The subscription with one worker: no event is passed over.
use baldsky.Common.{
  List, [], ◌∷◌, ◌++◌, none, some, true, false, ℤ, pos, ltℤ, Memᴰ, ◌≡◌, refl, inl, inr, All, All-at,
  arith, subst, length, ◌<◌, Bool-cases,
}
use baldsky.Ingest.Processor.{Commit}
use baldsky.Ingest.Stream.{
  streaming, ends, asks, Running, System, Setup, handler, Step, connect, retry, receive, query,
  process, fail, save, disconnect, stop, restart, Reach, here, later,
}
use baldsky.Ingest.Stream.Invariant.{Lawful, Honest, Sound, Reach-Sound}
use baldsky.Ingest.Stream.Programs.{EachCall, NeverFails, Left, Reach-Left}
use baldsky.Ingest.Stream.Order.{
  Relay, Covered, Nothing, InHand, Single, Position, InOrder, weaker, none_running, in_hand,
  left_lem, handled_lem, save_lem,
}

module _ (log : List Commit) (first : ℤ) where
  module _ {S : Type 0} (u : Setup S) (cursor_of : S → ℤ) (laws : Lawful u cursor_of)
      (relay : Relay u log) (one_worker : u.concurrency ≡ 1)
      (never_fails : (e : Commit) → NeverFails (u.process e)) where
    -- The next event, behind a position up to which all is handled.
    received :
        (at : ℤ) (e : Commit) (handled : List Commit)
        → u.next at e
        → ltℤ (pos 0) at ≡ true
        → Covered log first at (InHand {S = S} []) handled
        → (ltℤ (pos 0) e.seq ≡ true) × Covered log first e.seq (λ f. f ≡ e) handled
    received at e handled n p h = (
      let q = relay.forward at e n in ground arith,
      λ f m a b. elim (Bool-cases (ltℤ at f.seq)) [
        | inl k ↦ inr (relay.complete at e f n p m k b)
        | inr k ↦ elim (h f m a k) [ inl d ↦ inl d | inr none_in ↦ absurd none_in ]
      ],
    )

    receive_lem :
        (s : System S) (at : ℤ) (e : Commit) (rs : List (Running S))
        → rs ≡ []
        → u.next at e
        → Covered log first at (InHand rs) s.handled
        → ltℤ (pos 0) at ≡ true
        → Single log first (rs ++ handler e (some (u.process e)) ∷ []) s.handled
          × Position log first
              (streaming e.seq)
              (rs ++ handler e (some (u.process e)) ∷ [])
              s.handled
    receive_lem s at e [] q n h p =
        let (k, c) = received at e s.handled n p h in
        ((k, c), (k, λ f m a b. elim (c f m a b) [ inl d ↦ inl d | inr same ↦ inr (inl same) ]))
    receive_lem s at e (r ∷ rs) q n h p = cc

    -- What is left of the programs leaves the cursor alone and does not fail.
    abbrev Harmless : Running S → Type 0
    Harmless =
        Left (λ e p. EachCall (λ f. (st : S) → cursor_of (f st).0 ≡ cursor_of st) p × NeverFails p)

    Step-InOrder :
        {s t : System S}
        → Step u s t
        → All Harmless s.running
        → Sound cursor_of first s
        → InOrder log first cursor_of s
        → InOrder log first cursor_of t
    Step-InOrder (connect s cursor st p g) l i o =
        let same : st ≡ (u.store.get_cursor u.service s.stores).1 = rw g in
        let reads = laws.get_reads s.stores st cursor g in
        record {
          positive = rw (same, laws.get_keeps) o.positive;
          covered = rw (same, laws.get_keeps) o.covered;
          single = o.single;
          position =
              rw reads
                (o.positive, in_hand log first (cursor_of s.stores) s.running s.handled o.covered);
        }
    Step-InOrder (retry s p) l i o = record {
      positive = rw laws.get_keeps o.positive;
      covered = rw laws.get_keeps o.covered;
      single = o.single;
      position = o.position;
    }
    Step-InOrder (receive s at e p few n) l i o =
        let position = subst (λ ph. Position log first ph s.running s.handled) p o.position in
        let empty =
          none_running log first s.running (subst (λ c. length s.running < c) one_worker few) in
        let (single, next_position) = receive_lem s at e s.running empty n position.1 position.0 in
        record {
          positive = o.positive;
          covered = o.covered;
          single = single;
          position = next_position;
        }
    Step-InOrder (query s xs e f next ys r) l i o =
        let all = subst (All Harmless) r l in
        let keeps = (All-at Harmless xs _ ys all (asks f next) refl).0.0 in
        let (single, position) =
          left_lem log first s.phase e _ (some (next (f s.stores).1)) s.handled xs ys
            (subst (λ rs. Single log first rs s.handled) r o.single)
            (subst (λ rs. Position log first s.phase rs s.handled) r o.position) in
        record {
          positive = rw (keeps s.stores) o.positive;
          covered = rw (keeps s.stores) o.covered;
          single = single;
          position = position;
        }
    Step-InOrder (process s xs e ys r) l i o =
        let (single, position) =
          left_lem log first s.phase e _ none s.handled xs ys
            (subst (λ rs. Single log first rs s.handled) r o.single)
            (subst (λ rs. Position log first s.phase rs s.handled) r o.position) in
        let (single', position') =
          handled_lem log first s.phase e e none s.handled xs ys single position in
        record {
          positive = o.positive;
          covered =
              weaker log first (cursor_of s.stores) Nothing Nothing e s.handled (λ f k. k)
                o.covered;
          single = single';
          position = position';
        }
    Step-InOrder (fail s xs e ys x r) l i o =
        let all = subst (All Harmless) r l in
        let never = (All-at Harmless xs _ ys all (ends (some x)) refl).1 in cc
    Step-InOrder (save s xs e ys r) l i o =
        let done =
          All-at (Honest s.handled) xs _ ys (subst (All (Honest s.handled)) r i.honest) refl in
        let (single, position, positive, covered) =
          save_lem log first s.phase e s.handled none xs ys done
            (subst (λ l. Single log first l s.handled) r o.single)
            (subst (λ l. Position log first s.phase l s.handled) r o.position) in
        elim (laws.upsert_sets e.seq s.stores) [
          | inl set ↦ record {
            positive = rw set positive;
            covered = rw set covered;
            single = single;
            position = position;
          }
          | inr kept ↦ record {
            positive = rw kept o.positive;
            covered = rw kept o.covered;
            single = single;
            position = position;
          }
        ]
    Step-InOrder (disconnect s at p) l i o = record {
      positive = o.positive;
      covered = o.covered;
      single = o.single;
      position = tt;
    }
    Step-InOrder (stop s p) l i o = record {
      positive = o.positive;
      covered = o.covered;
      single = o.single;
      position = tt;
    }
    Step-InOrder (restart s) l i o = record {
      positive = o.positive;
      covered = o.covered;
      single = tt;
      position = tt;
    }

module _ {S : Type 0} (u : Setup S) (cursor_of : S → ℤ) (laws : Lawful u cursor_of)
    (log : List Commit) (relay : Relay u log) (one_worker : u.concurrency ≡ 1)
    (never_fails : (e : Commit) → NeverFails (u.process e)) (st : S)
    (resumes : ltℤ (pos 0) (cursor_of st) ≡ true) where
  reach-InOrder : {s : System S} → Reach u st s → InOrder log (cursor_of st) cursor_of s
  reach-InOrder here = record {
    positive = resumes;
    covered = λ f m a b. let e = a in cc;
    single = tt;
    position = tt;
  }
  reach-InOrder (later r step) =
      Step-InOrder log (cursor_of st) u cursor_of laws relay one_worker never_fails step
        (Reach-Left u _ (λ at e n. (laws.process_keeps e, never_fails e))
          (λ e f next st' h. (h.0.1 (f st').1, h.1 (f st').1)) st r)
        (Reach-Sound u cursor_of laws st r) (reach-InOrder r)

  -- With one worker no event is lost: whatever disconnections, restarts and failures of the cursor
  -- store there were, each event of the relay's log behind the cursor of the start and up to the
  -- stored cursor has been handled, if the start resumes from a positive cursor and `ProcessEvent`
  -- returns no error.
  pub Reach-handled :
      {s : System S}
      → Reach u st s
      → (f : Commit) → Memᴰ f log
      → ltℤ (cursor_of st) f.seq ≡ true
      → ltℤ (cursor_of s.stores) f.seq ≡ false
      → Memᴰ f s.handled
  Reach-handled r f m a b = elim ((reach-InOrder r).covered f m a b) [
    | inl d ↦ d
    | inr never ↦ absurd never
  ]

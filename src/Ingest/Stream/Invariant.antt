-- ===== src/Ingest/Stream/Invariant.antt =====
-- The states of the subscription that can be reached, however many handlers run at once.
use baldsky.Common.{
  List, [], ◌∷◌, Option, none, some, Bool, true, false, ok, Error, ℤ, Memᴰ, ◌≡◌, refl, ◌⊎◌, inl,
  inr, All, All-append, All-at, All-imp, All-without, All-replace, subst,
}
use baldsky.Ingest.Processor.{Commit}
use baldsky.Ingest.Stream.{
  Phase, idle, streaming, stopped, asks, Running, System, Setup, handler, Step, connect, retry,
  receive, query, process, fail, save, disconnect, stop, restart, Reach, here, later,
}
use baldsky.Ingest.Stream.Programs.{EachCall, Left, Reach-Left}

-- What the subscription relies on: `cursor_of` is the stored cursor, which the reading, the
-- processing and a failed writing leave alone, and a writing that succeeds sets.
pub record Lawful {S : Type 0} (u : Setup S) (cursor_of : S → ℤ) : Type 0 where
  pub get_keeps : (st : S) → cursor_of (u.store.get_cursor u.service st).1 ≡ cursor_of st
  pub get_reads :
      (st st' : S) (c : ℤ) → u.store.get_cursor u.service st ≡ (ok c, st') → c ≡ cursor_of st
  pub process_keeps :
      (e : Commit) → EachCall (λ f. (st : S) → cursor_of (f st).0 ≡ cursor_of st) (u.process e)
  pub upsert_sets :
      (c : ℤ) (st : S)
      → (cursor_of (u.store.upsert_cursor u.service c st).0 ≡ c)
        ⊎ (cursor_of (u.store.upsert_cursor u.service c st).0 ≡ cursor_of st)

-- A handler that is behind `ProcessEvent` has a handled event.
abbrev pub Honest : {S : Type 0} → List Commit → Running S → Type 0
Honest handled r = r.left ≡ none → Memᴰ r.event handled

-- The flag says whether there is a stream.
abbrev pub Flag : Phase → Bool → Type 0
Flag idle connected = connected ≡ false
Flag (streaming at) connected = connected ≡ true
Flag stopped connected = connected ≡ false

-- The cursor is the first one, or the sequence number of a handled event.
abbrev pub Known : ℤ → ℤ → List Commit → Type 0
Known first c handled = (c ≡ first) ⊎ ((e : Commit) × Memᴰ e handled × (c ≡ e.seq))

pub record Sound {S : Type 0} (cursor_of : S → ℤ) (first : ℤ) (s : System S) : Type 0 where
  pub flag : Flag s.phase s.connected
  pub honest : All (Honest s.handled) s.running
  pub known : Known first (cursor_of s.stores) s.handled

module _ {S : Type 0} (u : Setup S) (cursor_of : S → ℤ) (laws : Lawful u cursor_of)
    (first : ℤ) where
  Honest-later :
      (e : Commit) (handled : List Commit) (rs : List (Running S))
      → All (Honest handled) rs
      → All (Honest (e ∷ handled)) rs
  Honest-later e handled = All-imp (λ r h q. Memᴰ.tail (h q))

  Known-later :
      (e : Commit) (c : ℤ) (handled : List Commit)
      → Known first c handled
      → Known first c (e ∷ handled)
  Known-later e c handled (inl h) = inl h
  Known-later e c handled (inr (f, m, h)) = inr (f, Memᴰ.tail m, h)

  -- The calls that the handlers have left leave the cursor alone.
  abbrev KeepsCursor : (S → S × Option Error) → Type 0
  KeepsCursor f = (st : S) → cursor_of (f st).0 ≡ cursor_of st

  Step-Sound :
      {s t : System S}
      → Step u s t
      → All (Left (λ e p. EachCall KeepsCursor p)) s.running
      → Sound cursor_of first s
      → Sound cursor_of first t
  Step-Sound (connect s cursor st p g) l i =
      let same : st ≡ (u.store.get_cursor u.service s.stores).1 = rw g in
      record { flag = refl; honest = i.honest; known = rw (same, laws.get_keeps) i.known }
  Step-Sound (retry s p) l i = record {
    flag = i.flag;
    honest = i.honest;
    known = rw laws.get_keeps i.known;
  }
  Step-Sound (receive s at e p few nx) l i = record {
    flag = let f = rw p at i.flag in f;
    honest =
        All-append (Honest s.handled) s.running (handler e (some (u.process e)) ∷ []) i.honest
          (λ q. cc, tt);
    known = i.known;
  }
  Step-Sound (query s xs e f next ys r) l i =
      let all = subst (All (Left (λ d p. EachCall KeepsCursor p))) r l in
      let keeps =
        (All-at (Left (λ d p. EachCall KeepsCursor p)) xs _ ys all (asks f next) refl).0 in
      record {
        flag = i.flag;
        honest =
            All-replace (Honest s.handled) xs _ _ ys (λ q. cc)
              (subst (All (Honest s.handled)) r i.honest);
        known = rw (keeps s.stores) i.known;
      }
  Step-Sound (process s xs e ys r) l i = record {
    flag = i.flag;
    honest =
        All-replace (Honest (e ∷ s.handled)) xs _ _ ys (λ q. Memᴰ.head refl)
          (Honest-later e s.handled _ (subst (All (Honest s.handled)) r i.honest));
    known = Known-later e _ s.handled i.known;
  }
  Step-Sound (fail s xs e ys x r) l i = record {
    flag = i.flag;
    honest = All-without (Honest s.handled) xs _ ys (subst (All (Honest s.handled)) r i.honest);
    known = i.known;
  }
  Step-Sound (save s xs e ys r) l i =
      let honest = subst (All (Honest s.handled)) r i.honest in
      record {
        flag = i.flag;
        honest = All-without (Honest s.handled) xs _ ys honest;
        known = elim (laws.upsert_sets e.seq s.stores) [
          | inl set ↦ inr (e, All-at (Honest s.handled) xs _ ys honest refl, set)
          | inr kept ↦ rw kept i.known
        ];
      }
  Step-Sound (disconnect s at p) l i = record { flag = refl; honest = i.honest; known = i.known }
  Step-Sound (stop s p) l i = record {
    flag = let f = rw p at i.flag in f;
    honest = i.honest;
    known = i.known;
  }
  Step-Sound (restart s) l i = record { flag = refl; honest = tt; known = i.known }

pub Reach-KeepsCursor :
    {S : Type 0} (u : Setup S) (cursor_of : S → ℤ)
    → Lawful u cursor_of
    → (st : S) {s : System S} → Reach u st s
    → All
        (Left (λ e p. EachCall (λ f. (st' : S) → cursor_of (f st').0 ≡ cursor_of st') p))
        s.running
Reach-KeepsCursor u cursor_of laws =
    Reach-Left u (λ e p. EachCall (λ f. (st' : _) → cursor_of (f st').0 ≡ cursor_of st') p)
      (λ at e n. laws.process_keeps e) (λ e f next st h. h.1 (f st).1)

module _ {S : Type 0} (u : Setup S) (cursor_of : S → ℤ) (laws : Lawful u cursor_of) where
  -- However the relay and the scheduler go on, `Connected` answers true exactly while a stream is
  -- read, a handler that is behind `ProcessEvent` has a handled event, and the stored cursor is the
  -- one at the start or the sequence number of an event that `ProcessEvent` has handled.
  pub Reach-Sound : (st : S) {s : System S} → Reach u st s → Sound cursor_of (cursor_of st) s
  Reach-Sound st here = record { flag = refl; honest = tt; known = inl refl }
  Reach-Sound st (later r step) =
      Step-Sound u cursor_of laws (cursor_of st) step (Reach-KeepsCursor u cursor_of laws st r)
        (Reach-Sound st r)

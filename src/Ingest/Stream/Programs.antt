-- ===== src/Ingest/Stream/Programs.antt =====
-- What a call of `ProcessEvent` still does, in each handler that has not returned, in the states that
-- the subscription of subscription/subscription.go reaches.
use baldsky.Common.{
  [], ◌∷◌, Option, none, some, Error, ℤ, ◌≡◌, refl, All, All-append, All-at, All-without,
  All-replace, subst,
}
use baldsky.Ingest.Processor.{Commit}
use baldsky.Ingest.Stream.{
  Program, ends, asks, Running, handler, System, Setup, Step, connect, retry, receive, query,
  process, fail, save, disconnect, stop, restart, Reach, here, later,
}

module _ {S : Type 0} where
  -- Each call that a program may make has the property, whatever the calls before it answer.
  abbrev pub EachCall : ((S → S × Option Error) → Type 0) → Program S → Type 0
  EachCall Q (ends x) = Unit
  EachCall Q (asks f next) = Q f × ((x : Option Error) → EachCall Q (next x))

  -- The program returns no error, whatever its calls answer.
  abbrev pub NeverFails : Program S → Type 0
  NeverFails (ends x) = x ≡ none
  NeverFails (asks f next) = (x : Option Error) → NeverFails (next x)

  -- If the program returns nil, the proposition holds; the stores may change between its calls.
  abbrev pub Ensures : Type 0 → Program S → Type 0
  Ensures P (ends x) = x ≡ none → P
  Ensures P (asks f next) = (st : S) → Ensures P (next (f st).1)

  -- What a handler has left has the property.
  abbrev pub Left : (Commit → Program S → Type 0) → Running S → Type 0
  Left Q r = (p : Program S) → r.left ≡ some p → Q r.event p

module _ {S : Type 0} (u : Setup S) (Q : Commit → Program S → Type 0)
    (of_event : (at : ℤ) (e : Commit) → u.next at e → Q e (u.process e))
    (of_answer : (e : Commit) (f : S → S × Option Error) (next : Option Error → Program S) (st : S)
      → Q e (asks f next)
      → Q e (next (f st).1)) where
  Left-some : (e : Commit) (p : Program S) → Q e p → Left Q (handler e (some p))
  Left-some e p h q same = let k : p ≡ q = cc in subst (Q e) k h

  Step-Left : {s t : System S} → Step u s t → All (Left Q) s.running → All (Left Q) t.running
  Step-Left (connect s cursor st p g) h = h
  Step-Left (retry s p) h = h
  Step-Left (receive s at e p few nx) h =
      All-append (Left Q) s.running (handler e (some (u.process e)) ∷ []) h
        (Left-some e (u.process e) (of_event at e nx), tt)
  Step-Left (query s xs e f next ys r) h =
      let all = subst (All (Left Q)) r h in
      let here = All-at (Left Q) xs _ ys all (asks f next) refl in
      All-replace (Left Q) xs _ _ ys
        (Left-some e (next (f s.stores).1) (of_answer e f next s.stores here)) all
  Step-Left (process s xs e ys r) h =
      All-replace (Left Q) xs _ _ ys (λ p same. cc) (subst (All (Left Q)) r h)
  Step-Left (fail s xs e ys x r) h = All-without (Left Q) xs _ ys (subst (All (Left Q)) r h)
  Step-Left (save s xs e ys r) h = All-without (Left Q) xs _ ys (subst (All (Left Q)) r h)
  Step-Left (disconnect s at p) h = h
  Step-Left (stop s p) h = h
  Step-Left (restart s) h = tt

  -- What a program has when its event is received and keeps at every answer, the programs have that
  -- are left in a state that is reached.
  pub Reach-Left : (st : S) {s : System S} → Reach u st s → All (Left Q) s.running
  Reach-Left st here = tt
  Reach-Left st (later r step) = Step-Left step (Reach-Left st r)

-- What a program that returns nil ensures of its event, which the relay sent, holds of all that are
-- handled.
module _ {S : Type 0} (u : Setup S) (P : Commit → Type 0)
    (ensured : (at : ℤ) (e : Commit) → u.next at e → Ensures (P e) (u.process e)) where
  Step-All :
      {s t : System S}
      → Step u s t
      → All (Left (λ e p. Ensures (P e) p)) s.running
      → All P s.handled
      → All P t.handled
  Step-All (connect s cursor st p g) l h = h
  Step-All (retry s p) l h = h
  Step-All (receive s at e p few nx) l h = h
  Step-All (query s xs e f next ys r) l h = h
  Step-All (process s xs e ys r) l h =
      let all = subst (All (Left (λ d p. Ensures (P d) p))) r l in
      (All-at (Left (λ d p. Ensures (P d) p)) xs _ ys all (ends none) refl refl, h)
  Step-All (fail s xs e ys x r) l h = h
  Step-All (save s xs e ys r) l h = h
  Step-All (disconnect s at p) l h = h
  Step-All (stop s p) l h = h
  Step-All (restart s) l h = h

  pub Reach-All : (st : S) {s : System S} → Reach u st s → All P s.handled
  Reach-All st here = tt
  Reach-All st (later r step) =
      Step-All step (Reach-Left u (λ e p. Ensures (P e) p) ensured (λ e f next st' h. h st') st r)
        (Reach-All st r)

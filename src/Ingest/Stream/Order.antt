-- ===== src/Ingest/Stream/Order.antt =====
-- What one handler at a time keeps: the events of the relay's log are handled in order.
use baldsky.Common.{
  List, [], ◌∷◌, ◌++◌, true, false, ℤ, pos, ltℤ, Memᴰ, ◌≡◌, refl, ◌⊎◌, inl, inr, arith, length, ◌<◌,
  Option,
}
use baldsky.Ingest.Processor.{Commit}
use baldsky.Ingest.Stream.{
  Phase, idle, streaming, stopped, Running, System, Setup, Program, handler,
}

-- What the relay promises of its log: it goes forward, and behind a sequence number that is
-- positive it sends the next event of the log, passing none over.
pub record Relay {S : Type 0} (u : Setup S) (log : List Commit) : Type 0 where
  pub forward : (at : ℤ) (e : Commit) → u.next at e → ltℤ at e.seq ≡ true
  pub complete :
      (at : ℤ) (e f : Commit)
      → u.next at e
      → ltℤ (pos 0) at ≡ true
      → Memᴰ f log
      → ltℤ at f.seq ≡ true
      → ltℤ e.seq f.seq ≡ false
      → f ≡ e

-- The events of the log behind `first` and up to `c` are handled, but for those that `Waits` says.
abbrev pub Covered : List Commit → ℤ → ℤ → (Commit → Type 0) → List Commit → Type 0
Covered log first c Waits handled =
    (f : Commit)
    → Memᴰ f log
    → ltℤ first f.seq ≡ true
    → ltℤ c f.seq ≡ false
    → Memᴰ f handled ⊎ Waits f

abbrev pub Nothing : Commit → Type 0
Nothing f = ⊥

-- The event of a handler that has not returned.
abbrev pub InHand : {S : Type 0} → List (Running S) → Commit → Type 0
InHand [] f = ⊥
InHand (r ∷ rs) f = (f ≡ r.event) ⊎ InHand rs f

module _ (log : List Commit) (first : ℤ) where
  pub weaker :
      (c : ℤ) (V W : Commit → Type 0) (e : Commit) (handled : List Commit)
      → ((f : Commit) → V f → W f)
      → Covered log first c V handled
      → Covered log first c W (e ∷ handled)
  weaker c V W e handled g h f m a b = elim (h f m a b) [
    | inl k ↦ inl (Memᴰ.tail k)
    | inr k ↦ inr (g f k)
  ]

  settled :
      (c : ℤ) (e : Commit) (handled : List Commit)
      → Memᴰ e handled
      → Covered log first c (λ f. f ≡ e) handled
      → Covered log first c Nothing handled
  settled c e handled k h f m a b = elim (h f m a b) [ inl d ↦ inl d | inr same ↦ inl (rw same k) ]

module _ (log : List Commit) (first : ℤ) {S : Type 0} where
  -- There is one handler at most, and all before its event is handled.
  abbrev pub Single : List (Running S) → List Commit → Type 0
  Single [] handled = Unit
  Single (r ∷ []) handled =
      (ltℤ (pos 0) r.event.seq ≡ true) × Covered log first r.event.seq (λ f. f ≡ r.event) handled
  Single (r ∷ q ∷ rs) handled = ⊥

  -- All up to the position of the stream is handled or in hand.
  abbrev pub Position : Phase → List (Running S) → List Commit → Type 0
  Position idle rs handled = Unit
  Position (streaming at) rs handled =
      (ltℤ (pos 0) at ≡ true) × Covered log first at (InHand rs) handled
  Position stopped rs handled = Unit

  pub record InOrder (cursor_of : S → ℤ) (s : System S) : Type 0 where
    pub positive : ltℤ (pos 0) (cursor_of s.stores) ≡ true
    pub covered : Covered log first (cursor_of s.stores) Nothing s.handled
    pub single : Single s.running s.handled
    pub position : Position s.phase s.running s.handled

  pub in_hand :
      (c : ℤ) (rs : List (Running S)) (handled : List Commit)
      → Covered log first c Nothing handled
      → Covered log first c (InHand rs) handled
  in_hand c rs handled h f m a b = elim (h f m a b) [ inl d ↦ inl d | inr never ↦ absurd never ]

  -- It makes no difference what a handler has left.
  pub left_lem :
      (phase : Phase) (e : Commit) (left next : Option (Program S)) (handled : List Commit)
      (xs ys : List (Running S))
      → Single (xs ++ handler e left ∷ ys) handled
      → Position phase (xs ++ handler e left ∷ ys) handled
      → Single (xs ++ handler e next ∷ ys) handled
        × Position phase (xs ++ handler e next ∷ ys) handled
  left_lem idle e left next handled [] [] h p = (h, p)
  left_lem (streaming at) e left next handled [] [] h p = (h, p)
  left_lem stopped e left next handled [] [] h p = (h, p)
  left_lem phase e left next handled [] (y ∷ ys) h p = absurd h
  left_lem phase e left next handled (x ∷ []) ys h p = absurd h
  left_lem phase e left next handled (x ∷ z ∷ xs) ys h p = absurd h

  -- An event of a handler is put among the handled ones.
  pub handled_lem :
      (phase : Phase) (e d : Commit) (left : Option (Program S)) (handled : List Commit)
      (xs ys : List (Running S))
      → Single (xs ++ handler e left ∷ ys) handled
      → Position phase (xs ++ handler e left ∷ ys) handled
      → Single (xs ++ handler e left ∷ ys) (d ∷ handled)
        × Position phase (xs ++ handler e left ∷ ys) (d ∷ handled)
  handled_lem idle e d left handled [] [] h p =
      ((h.0, weaker log first e.seq (λ f. f ≡ e) (λ f. f ≡ e) d handled (λ f k. k) h.1), tt)
  handled_lem (streaming at) e d left handled [] [] h p = (
    (h.0, weaker log first e.seq (λ f. f ≡ e) (λ f. f ≡ e) d handled (λ f k. k) h.1),
    (p.0, weaker log first at _ _ d handled (λ f k. k) p.1),
  )
  handled_lem stopped e d left handled [] [] h p =
      ((h.0, weaker log first e.seq (λ f. f ≡ e) (λ f. f ≡ e) d handled (λ f k. k) h.1), tt)
  handled_lem phase e d left handled [] (y ∷ ys) h p = absurd h
  handled_lem phase e d left handled (x ∷ []) ys h p = absurd h
  handled_lem phase e d left handled (x ∷ z ∷ xs) ys h p = absurd h

  -- A handler that returns leaves a handled event.
  pub save_lem :
      (phase : Phase) (e : Commit) (handled : List Commit) (left : Option (Program S))
      (xs ys : List (Running S))
      → Memᴰ e handled
      → Single (xs ++ handler e left ∷ ys) handled
      → Position phase (xs ++ handler e left ∷ ys) handled
      → Single (xs ++ ys) handled
        × Position phase (xs ++ ys) handled
        × (ltℤ (pos 0) e.seq ≡ true)
        × Covered log first e.seq Nothing handled
  save_lem idle e handled left [] [] m h p = (tt, tt, h.0, settled log first e.seq e handled m h.1)
  save_lem (streaming at) e handled left [] [] m h p = (
    tt,
    (
      p.0,
      λ f k a c. elim (p.1 f k a c) [
        | inl d ↦ inl d
        | inr (inl same) ↦ inl (rw same m)
        | inr (inr never) ↦ absurd never
      ],
    ),
    h.0,
    settled log first e.seq e handled m h.1,
  )
  save_lem stopped e handled left [] [] m h p =
      (tt, tt, h.0, settled log first e.seq e handled m h.1)
  save_lem phase e handled left [] (y ∷ ys) m h p = absurd h
  save_lem phase e handled left (x ∷ []) ys m h p = absurd h
  save_lem phase e handled left (x ∷ z ∷ xs) ys m h p = absurd h

  pub none_running : (rs : List (Running S)) → length rs < 1 → rs ≡ []
  none_running [] h = refl
  none_running (r ∷ rs) h = absurd (omega arith)

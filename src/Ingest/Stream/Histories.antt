-- ===== src/Ingest/Stream/Histories.antt =====
-- What the stores have in every state that the subscription of subscription/subscription.go reaches,
-- told by the events that were received until then.
use baldsky.Common.{
  List, [], ◌∷◌, Option, some, Error, ℤ, Memᴰ, ◌≡◌, refl, All, All-append, All-at, All-imp,
  All-without, All-replace, subst,
}
use baldsky.Ingest.Processor.{Commit}
use baldsky.Ingest.Stream.{
  asks, Running, System, Setup, handler, Step, connect, retry, receive, query, process, fail, save,
  disconnect, stop, restart, Reach, here, later,
}
use baldsky.Ingest.Stream.Programs.{EachCall, Left, Reach-Left}

-- The event of the handler was received.
abbrev Begun : {S : Type 0} → List Commit → Running S → Type 0
Begun received r = Memᴰ r.event received

module _ {S : Type 0} (u : Setup S) where
  Step-Begun :
      {s t : System S}
      → Step u s t
      → All (Begun s.received) s.running
      → All (Begun t.received) t.running
  Step-Begun (connect s cursor st p g) h = h
  Step-Begun (retry s p) h = h
  Step-Begun (receive s at e p few nx) h =
      All-append (Begun (e ∷ s.received)) s.running (handler e (some (u.process e)) ∷ [])
        (All-imp (λ r m. Memᴰ.tail m) s.running h) (Memᴰ.head refl, tt)
  Step-Begun (query s xs e f next ys r) h =
      let all = subst (All (Begun s.received)) r h in
      All-replace (Begun s.received) xs _ _ ys (All-at (Begun s.received) xs _ ys all) all
  Step-Begun (process s xs e ys r) h =
      let all = subst (All (Begun s.received)) r h in
      All-replace (Begun s.received) xs _ _ ys (All-at (Begun s.received) xs _ ys all) all
  Step-Begun (fail s xs e ys x r) h =
      All-without (Begun s.received) xs _ ys (subst (All (Begun s.received)) r h)
  Step-Begun (save s xs e ys r) h =
      All-without (Begun s.received) xs _ ys (subst (All (Begun s.received)) r h)
  Step-Begun (disconnect s at p) h = h
  Step-Begun (stop s p) h = h
  Step-Begun (restart s) h = tt

  Reach-Begun : (st : S) {s : System S} → Reach u st s → All (Begun s.received) s.running
  Reach-Begun st here = tt
  Reach-Begun st (later r step) = Step-Begun step (Reach-Begun st r)

-- A call for an event that was received keeps what holds of the stores.
abbrev pub CallKeeps :
    {S : Type 0} → (List Commit → S → Type 0) → Commit → (S → S × Option Error) → Type 0
CallKeeps {S} Holds e f =
    (received : List Commit) (st : S)
    → Memᴰ e received
    → Holds received st
    → Holds received (f st).0

-- What each call of the stores keeps.
pub record Kept {S : Type 0} (u : Setup S) (Holds : List Commit → S → Type 0) : Type 0 where
  pub by_get : (h : List Commit) (st : S) → Holds h st → Holds h (u.store.get_cursor u.service st).1
  pub by_upsert :
      (h : List Commit) (st : S) (c : ℤ)
      → Holds h st
      → Holds h (u.store.upsert_cursor u.service c st).0
  pub by_receipt : (h : List Commit) (st : S) (e : Commit) → Holds h st → Holds (e ∷ h) st
  pub by_calls : (e : Commit) → EachCall (CallKeeps Holds e) (u.process e)

module _ {S : Type 0} (u : Setup S) (Holds : List Commit → S → Type 0) (kept : Kept u Holds) where
  Step-Holds :
      {s t : System S}
      → Step u s t
      → All (Left (λ e p. EachCall (CallKeeps Holds e) p)) s.running
      → All (Begun s.received) s.running
      → Holds s.received s.stores
      → Holds t.received t.stores
  Step-Holds (connect s cursor st p g) l b h =
      let same : (u.store.get_cursor u.service s.stores).1 ≡ st = rw g in
      subst (Holds s.received) same (kept.by_get s.received s.stores h)
  Step-Holds (retry s p) l b h = kept.by_get s.received s.stores h
  Step-Holds (receive s at e p few nx) l b h = kept.by_receipt s.received s.stores e h
  Step-Holds (query s xs e f next ys r) l b h =
      let CallsKeep = Left (λ d p. EachCall (CallKeeps Holds d) p) in
      let keeps = (All-at CallsKeep xs _ ys (subst (All CallsKeep) r l) (asks f next) refl).0 in
      keeps s.received s.stores
        (All-at (Begun s.received) xs _ ys (subst (All (Begun s.received)) r b)) h
  Step-Holds (process s xs e ys r) l b h = h
  Step-Holds (fail s xs e ys x r) l b h = h
  Step-Holds (save s xs e ys r) l b h = kept.by_upsert s.received s.stores e.seq h
  Step-Holds (disconnect s at p) l b h = h
  Step-Holds (stop s p) l b h = h
  Step-Holds (restart s) l b h = h

  pub Reach-Holds : (st : S) {s : System S} → Reach u st s → Holds [] st → Holds s.received s.stores
  Reach-Holds st here h = h
  Reach-Holds st (later r step) h =
      Step-Holds step
        (Reach-Left u (λ e p. EachCall (CallKeeps Holds e) p) (λ at e n. kept.by_calls e)
          (λ e f next st' k. k.1 (f st').1) st r)
        (Reach-Begun u st r) (Reach-Holds st r h)

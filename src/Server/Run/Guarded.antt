-- ===== src/Server/Run/Guarded.antt =====
-- What the running server of server/server.go keeps: the posts that no one with the token deletes, and
-- the bound on the channel of views.
use baldsky.Common.{[], Option, none, some, Bool, true, ◌≡◌, refl, ap, arith, length, inl, inr, ◌⊎◌}
use baldsky.Db.Tables.{Collation}
use baldsky.RateLimiter.{RatePackage}
use baldsky.Server.Types.{Server, World}
use baldsky.Server.Run.Spared.{Spared, Spared-same, Spared-append, Roomy}
use baldsky.Server.Run.Leaves.{serve-Leaves}
use baldsky.Server.Run.{
  Running, asked_by, handle, Exit, listen_failed, shut_down, Step, request, tick, stop_cleaning,
  cancel, fail_to_listen, shutdown, take_view, elsewhere, Reach, here, later,
}

-- `Run` shuts the server down only once its context is done.
abbrev pub Called : Option Exit → Bool → Type 0
Called (some (shut_down e)) cancelled = cancelled ≡ true
Called _ cancelled = Unit

Called-cancel : (o : Option Exit) (b : Bool) → Called o b → Called o true
Called-cancel none b h = tt
Called-cancel (some (listen_failed e)) b h = tt
Called-cancel (some (shut_down e)) b h = refl

pub record Guarded {R L : Type 0} (s : Server) (first : World R L) (st : Running R L) : Type 0 where
  pub spared : Spared st.asked first.db.post (st.world).db.post
  pub roomy : Roomy s (st.world).views
  pub called : Called st.returned st.cancelled
  -- the cleanup stops only once the context is done
  pub cleaned : (st.cleaning ≡ true) ⊎ (st.cancelled ≡ true)

module _ {R L : Type 0} (pkg : RatePackage R L) (c : Collation) (s : Server)
    (first : World R L) where
  Step-Guarded : {t u : Running R L} → Step pkg c s t u → Guarded s first t → Guarded s first u
  unfolding handle
  Step-Guarded (request st now route r) g =
      let h = serve-Leaves s pkg c now route r st.world in
      record {
        spared = Spared-append (asked_by s route r) st.asked first.db.post _ _ g.spared h.spared;
        roomy = h.roomy g.roomy;
        called = g.called;
        cleaned = g.cleaned;
      }
  Step-Guarded (tick st now e) g = record {
    spared = g.spared;
    roomy = g.roomy;
    called = g.called;
    cleaned = g.cleaned;
  }
  Step-Guarded (stop_cleaning st e) g = record {
    spared = g.spared;
    roomy = g.roomy;
    called = g.called;
    cleaned = inr e;
  }
  Step-Guarded (cancel st) g = record {
    spared = g.spared;
    roomy = g.roomy;
    called = Called-cancel st.returned st.cancelled g.called;
    cleaned = inr refl;
  }
  Step-Guarded (fail_to_listen st e f) g = record {
    spared = g.spared;
    roomy = g.roomy;
    called = tt;
    cleaned = g.cleaned;
  }
  Step-Guarded (shutdown st e f h) g = record {
    spared = g.spared;
    roomy = g.roomy;
    called = f;
    cleaned = g.cleaned;
  }
  Step-Guarded (take_view st view views e) g = record {
    spared = g.spared;
    roomy = λ capacity f. let k = g.roomy capacity f in let q = ap length e in omega arith;
    called = g.called;
    cleaned = g.cleaned;
  }
  Step-Guarded (elsewhere st db ping e) g = record {
    spared = λ k. rw e (g.spared k);
    roomy = g.roomy;
    called = g.called;
    cleaned = g.cleaned;
  }

  -- However the requests, the ticks of the cleanup and the others that use the database are
  -- interleaved, and while these leave the posts alone: a post of the start is as it was, unless a
  -- request with the token asked for its deletion, and is gone otherwise; no post is added; the channel
  -- of views holds no more events than its capacity, if it did not at the start; and `Run` shuts down, and the cleanup stops, only
  -- once the context is done.
  pub Reach-Guarded :
      {st : Running R L} → Roomy s first.views → Reach pkg c s first st → Guarded s first st
  Reach-Guarded roomy here = record {
    spared = Spared-same [] first.db.post first.db.post refl;
    roomy = roomy;
    called = tt;
    cleaned = inl refl;
  }
  Reach-Guarded roomy (later r step) = Step-Guarded step (Reach-Guarded roomy r)

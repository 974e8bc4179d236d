-- ===== src/Db/Connect/Ticks.antt =====
-- When `New` of db/postgres.go returns, and what.
use native.Mathlib.Numerals.{unary_clauses}
use baldsky.Common.{
  ℤ, pos, ltℤ, true, List, [], ◌∷◌, ◌++◌, none, some, ok, ℕ, zero, suc, ◌+◌, ◌≤◌, arith, All, ◌≡◌,
  refl, ◌≢◌, ◌∙◌, ap, sym, subst,
}
use baldsky.Db.Connect.{
  Event, tick, PingAnswer, answered, refused, hangs, Driver, Connection, after_ping, await,
  after_open, connect,
}

abbrev pub ticks : ℕ → List Event
ticks zero = []
ticks (suc n) = tick ∷ ticks n

module _ (d : Driver) where
  -- The answers to `k` pings behind the first `j`.
  abbrev pub answers : ℕ → ℕ → List PingAnswer
  answers j zero = []
  answers j (suc k) = d.ping j ∷ answers (j + 1) k

  -- Of the pings from `j` to `j + n` the first that is answered is that behind `k` of them.
  abbrev First : ℕ → ℕ → Connection → Type 0
  First j n c =
      (k : ℕ) × (k ≤ n)
      × All (λ a. a ≢ answered) (answers j k)
      × (d.ping (j + k) ≡ answered)
      × (c ≡ some (ok (j + k + 1)))

  further : (j k : ℕ) → j + 1 + k ≡ j + suc k
  further j k = omega arith

  retried :
      (retry : ℕ → Connection) (j n : ℕ) (a : PingAnswer)
      → d.ping j ≡ a
      → a ≢ answered
      → a ≢ hangs
      → First (j + 1) n (retry (j + 1))
      → First j (suc n) (after_ping retry j a)
  retried retry j n (refused e) h r n_hangs (k, le, before, first, q) = (
    suc k,
    omega arith,
    ((λ z. let w = h in cc), before),
    rw (← further j k) first,
    rw (← further j k) q,
  )
  retried retry j n answered h r n_hangs f = absurd (r refl)
  retried retry j n hangs h r n_hangs f = absurd (n_hangs refl)

  next_ping :
      (events : List Event) (n j : ℕ) (a : PingAnswer)
      → d.ping j ≡ a
      → a ≢ hangs
      → First (j + 1) n (after_ping (λ m. await d (ticks n ++ events) m) (j + 1) (d.ping (j + 1)))
      → First j (suc n) (after_ping (λ m. await d (ticks (suc n) ++ events) m) j a)
  unfolding await
  next_ping events n j answered e no_hang rest =
      (zero, omega arith, tt, simp unary_clauses e, simp unary_clauses refl)
  next_ping events n j (refused x) e no_hang rest =
      retried (λ m. await d (ticks (suc n) ++ events) m) j n (refused x) e (λ z. cc) no_hang rest
  next_ping events n j hangs e no_hang rest = absurd (no_hang refl)

  after_ticks :
      (events : List Event) (n j : ℕ)
      → d.ping (j + n) ≡ answered
      → All (λ a. a ≢ hangs) (answers j n)
      → First j n (after_ping (λ m. await d (ticks n ++ events) m) j (d.ping j))
  after_ticks events zero j h quick =
      let now : d.ping j ≡ answered = simp unary_clauses at h in
      (zero, omega arith, tt, h, rw now (simp unary_clauses refl))
  after_ticks events (suc n) j h quick =
      next_ping events n j (d.ping j) refl quick.0
        (after_ticks events n (j + 1) (rw (further j n) h) quick.1)

  opened_ticks :
      (delay : ℤ) (events : List Event)
      → ltℤ (pos 0) delay ≡ true
      → d.sql_open ≡ none
      → connect d delay events ≡ after_ping (λ m. await d events m) 0 (d.ping 0)
  unfolding connect
  opened_ticks delay events positive opened =
      ap (after_open d delay events) opened ∙ rw positive refl

  -- With a positive delay, `New` connects, whatever happens later, once there were as many ticks as
  -- pings before one that is answered, none of which hangs: it returns at the first ping that is
  -- answered.
  pub connect-ticks :
      (delay : ℤ)
      → ltℤ (pos 0) delay ≡ true
      → d.sql_open ≡ none
      → (n : ℕ) → d.ping n ≡ answered
      → All (λ a. a ≢ hangs) (answers 0 n)
      → (events : List Event)
      → (k : ℕ) × (k ≤ n)
        × All (λ a. a ≢ answered) (answers 0 k)
        × (d.ping k ≡ answered)
        × (connect d delay (ticks n ++ events) ≡ some (ok (k + 1)))
  unfolding connect
  connect-ticks delay positive opened n h quick events =
      let from_zero : (k : ℕ) → 0 + k ≡ k = λ k. omega arith in
      let (k, le, before, first, q) =
        after_ticks events n 0 (subst (λ i. d.ping i ≡ answered) (sym (from_zero n)) h) quick in
      (
        k,
        le,
        before,
        subst (λ i. d.ping i ≡ answered) (from_zero k) first,
        opened_ticks delay (ticks n ++ events) positive opened
            ∙ subst
                (λ i.
                  after_ping (λ m. await d (ticks n ++ events) m) 0 (d.ping 0) ≡ some (ok (i + 1)))
                (from_zero k) q,
      )

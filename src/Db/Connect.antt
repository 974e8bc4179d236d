-- ===== src/Db/Connect.antt =====
-- `New` and `Migrate` of db/postgres.go.
pub mod Ticks
mod Tests
use baldsky.Common.{
  List, [], ◌∷◌, ◌++◌, Option, none, some, Result, ok, err, ℤ, pos, ltℤ, if◌then◌else◌, Error, ℕ,
  zero, suc, ◌+◌, ◌≤◌, arith, All, Memᴰ, inl, inr, Option-cases, ◌≡◌, refl, ◌≢◌, ◌∙◌, ap, sym,
  subst,
}

pub data ConnectError : Type 0 where
  open_postgres : Error → ConnectError
  connect_to_database : ConnectError
  -- the panic of `time.NewTicker`
  non_positive_interval : ConnectError

-- The cases of the `select`.
pub data Event : Type 0 where
  context_done : Event
  tick : Event

-- A ping takes no context: it comes back with nil or an error, or it does not come back.
pub data PingAnswer : Type 0 where
  answered : PingAnswer
  refused : Error → PingAnswer
  hangs : PingAnswer

-- `sql.Open`, and what becomes of the first ping, the second and so on.
pub record Driver : Type 0 where
  pub sql_open : Option Error
  pub ping : ℕ → PingAnswer

-- What `New` returns, with the number of pings that were made; `none` while it waits
-- for an event or for a ping.
abbrev pub Connection : Type 0
Connection = Option (Result ConnectError ℕ)

abbrev pub after_ping : (ℕ → Connection) → ℕ → PingAnswer → Connection
after_ping retry n (refused e) = retry (n + 1)
after_ping retry n answered = some (ok (n + 1))
after_ping retry n hangs = none

module _ (d : Driver) where
  -- The loop, behind `n` pings, over the events to come.
  unfoldable pub await : List Event → ℕ → Connection
  await [] n = none
  await (context_done ∷ events) n = some (err connect_to_database)
  await (tick ∷ events) n = after_ping (λ m. await events m) n (d.ping n)

  -- The ticker is made, and then the first ping.
  abbrev pub with_ticker : ℤ → List Event → Connection
  with_ticker delay events =
      if ltℤ (pos 0) delay
      then after_ping (λ m. await events m) 0 (d.ping 0)
      else some (err non_positive_interval)

  abbrev pub after_open : ℤ → List Event → Option Error → Connection
  after_open delay events (some e) = some (err (open_postgres e))
  after_open delay events none = with_ticker delay events

  -- `New`, which pings again after each `delay`.
  unfoldable pub connect : ℤ → List Event → Connection
  unfolding await
  connect delay events = after_open delay events d.sql_open

-- What the migration libraries answer: making the source, the driver and the migrator, and `Up`.
pub data Up : Type 0 where
  migrated : Up
  no_change : Up
  up_failed : Error → Up

pub record Migrations : Type 0 where
  pub source : Option Error
  pub driver : Option Error
  pub migrator : Option Error
  pub up : Up

pub data MigrateError : Type 0 where
  create_migration_source : Error → MigrateError
  create_migration_driver : Error → MigrateError
  create_migrator : Error → MigrateError
  run_migrations : Error → MigrateError

abbrev pub after_up : Up → Option MigrateError
after_up migrated = none
after_up no_change = none
after_up (up_failed e) = some (run_migrations e)

abbrev pub or_failed :
    (Error → MigrateError) → Option Error → Option MigrateError → Option MigrateError
or_failed wrap (some e) next = some (wrap e)
or_failed wrap none next = next

unfoldable pub migrate : Migrations → Option MigrateError
migrate m = or_failed create_migration_source m.source (
    or_failed create_migration_driver m.driver
      (or_failed create_migrator m.migrator (after_up m.up)))

-- ===== src/Db/Connect/Tests.antt =====
-- `New` of db/postgres.go at concrete inputs.
use baldsky.Common.{
  pos, [], ◌∷◌, ◌++◌, none, some, ok, failed, ℕ, ◌+◌, ◌≤◌, All, ltb, if◌then◌else◌, ◌≡◌, refl, ◌≢◌,
}
use baldsky.Db.Connect.{answered, refused, Driver, context_done, connect}
use baldsky.Db.Connect.Ticks.{ticks, answers, connect-ticks}

-- A database that answers the third ping.
abbrev starting : Driver
starting = record { sql_open = none; ping = λ n. if ltb n 2 then refused failed else answered }

connect-ticks_example :
    (k : ℕ) × (k ≤ 2)
    × All (λ a. a ≢ answered) (answers starting 0 k)
    × (starting.ping k ≡ answered)
    × (connect starting (pos 5) (ticks 2 ++ context_done ∷ []) ≡ some (ok (k + 1)))
connect-ticks_example =
    connect-ticks starting (pos 5) refl refl 2 refl ((λ e. cc), ((λ e. cc), tt)) (context_done ∷ [])

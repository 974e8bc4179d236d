-- ===== src/Server/Run/Tests.antt =====
-- A run of the server of server/server.go, and the theorem at it.
use baldsky.Common.{ℕ, none, some, true, false, pos, codes, refl, arith}
use baldsky.Db.Bytes.{bytes}
use baldsky.RateLimiter.Tests.{counter}
use baldsky.Server.Tests.{server, world, from_addr}
use baldsky.Server.Types.{admin_delete_post}
use baldsky.Server.Run.{
  Running, started, handle, Reach, here, later, request, cancel, stop_cleaning, shutdown, shut_down,
}
use baldsky.Server.Run.Guarded.{Guarded, Reach-Guarded}

-- A deletion of "a" with the token, and then the shutdown.
abbrev handled : Running ℕ ℕ
handled =
    handle counter bytes server (pos 1000) (admin_delete_post (codes "a"))
      (from_addr (codes "10.0.0.2:4242")) (started world)

abbrev at_end : Running ℕ ℕ
at_end = record handled { cancelled = true; cleaning = false; returned = some (shut_down none) }

reach_end : Reach counter bytes server world at_end
unfolding handle
reach_end =
    later
      (later
        (later
          (later here (
            request _ (pos 1000) (admin_delete_post (codes "a"))
              (from_addr (codes "10.0.0.2:4242"))))
          (cancel _))
        (stop_cleaning _ refl))
      (shutdown _ none refl refl)

Reach-Guarded_example : Guarded server world at_end
Reach-Guarded_example =
    Reach-Guarded counter bytes server world {st = at_end} (λ capacity e. omega arith) reach_end

-- ===== src/RateLimiter/Tests.antt =====
-- The theorems on the rate limiter of server/ratelimit.go at concrete inputs.
use baldsky.Common.{
  [], ◌∷◌, none, some, false, ℕ, pos, ltb, ◌+◌, codes, ◌≡◌, refl, if◌then◌else◌, text_eq, arith,
}
use baldsky.Cache
use baldsky.Cache.{Cache, find}
use baldsky.RateLimiter.{RatePackage, RateLimiter, new_rate_limiter, sweep_at, purge_stale, allow}
use baldsky.RateLimiter.Ages.{allow_lem, unless_stale, sweep_at-purge_stale}

-- A limiter that allows as many events as its rate says, and then none.
abbrev pub counter : RatePackage ℕ ℕ
counter = record { new_limiter = λ rate burst. 0; allow = λ now n. (n + 1, ltb n 3) }

abbrev pub rl : RateLimiter ℕ ℕ
rl = record {
  limiters = record {
    entries =
        (codes "10.0.0.1", record { limiter = 3; last_used = pos 100 })
        ∷ (codes "10.0.0.2", record { limiter = 1; last_used = pos 900 })
        ∷ [];
    cleanup_interval = 60;
    cleanup_func = none;
  };
  rate = 1;
  burst = pos 3;
  max_age = pos 300;
}

allow_lem_example :
    ((allow counter (pos 1000) (codes "10.0.0.1") rl).1 ≡ false)
    × (Cache.get (codes "10.0.0.1") (allow counter (pos 1000) (codes "10.0.0.1") rl).0.limiters ≡ (
        if text_eq (codes "10.0.0.1") (codes "10.0.0.1")
        then some (record { limiter = 4; last_used = pos 1000 })
        else Cache.get (codes "10.0.0.1") rl.limiters))
unfolding Cache.get find text_eq
allow_lem_example = allow_lem counter (pos 1000) (codes "10.0.0.1") (codes "10.0.0.1") rl

sweep_at-purge_stale_example :
    (Cache.get (codes "10.0.0.1") (sweep_at (pos 1000) rl).limiters
      ≡ unless_stale rl (pos 1000) (Cache.get (codes "10.0.0.1") rl.limiters))
    × (Cache.get (codes "10.0.0.1") (purge_stale (pos 1000) rl).limiters
        ≡ unless_stale rl (pos 1000) (Cache.get (codes "10.0.0.1") rl.limiters))
sweep_at-purge_stale_example =
    sweep_at-purge_stale (pos 1000) rl (omega arith) (unfold find text_eq in (refl, (refl, tt)))
      (codes "10.0.0.1")

-- A new limiter has a cleanup every minute, and no entry.
new_run :
    let made : RateLimiter ℕ ℕ = new_rate_limiter 1 (pos 3) (pos 300) (pos 0) in
    (made.limiters.cleanup_interval ≡ 60000000000) × (made.limiters.entries ≡ [])
unfolding new_rate_limiter Cache.new Cache.with_cleanup
new_run = (refl, refl)

-- ===== src/RateLimiter.antt =====
-- The rate limiter of server/ratelimit.go over the cache of cache/cache.go. Times are nanoseconds.
pub mod Ages
pub mod Tests
use baldsky.Common.{
  List, [], ◌∷◌, Option, none, some, Bool, true, false, if◌then◌else◌, Text, ℤ, ltℤ, ◌-ℤ◌, ℕ,
}
use baldsky.Cache
use baldsky.Cache.{Cache}

-- What the program uses of `golang.org/x/time/rate`: a limiter `L` made from a rate `R` and a burst,
-- which answers whether an event may happen at a time.
pub record RatePackage (R L : Type 0) : Type 0 where
  pub new_limiter : R → ℤ → L
  pub allow : ℤ → L → L × Bool

pub record LimiterEntry (L : Type 0) : Type 0 where
  pub limiter : L
  pub last_used : ℤ

-- `now` is the reading of the clock that an operation takes.
pub record RateLimiter (R L : Type 0) : Type 0 where
  pub limiters : Cache (LimiterEntry L)
  pub rate : R
  pub burst : ℤ
  pub max_age : ℤ

module _ {L : Type 0} where
  abbrev pub purge_key :
      ℤ → Text → Option (LimiterEntry L) → Cache (LimiterEntry L) → Cache (LimiterEntry L)
  purge_key cutoff ip none c = c
  purge_key cutoff ip (some entry) c = if ltℤ entry.last_used cutoff then Cache.delete ip c else c

  unfoldable pub purge_keys : ℤ → List Text → Cache (LimiterEntry L) → Cache (LimiterEntry L)
  purge_keys cutoff [] c = c
  purge_keys cutoff (ip ∷ ips) c = purge_keys cutoff ips (purge_key cutoff ip (Cache.get ip c) c)

abbrev minute : ℕ
minute = 60000000000

module _ {R L : Type 0} where
  unfoldable pub is_stale : RateLimiter R L → ℤ → Text → LimiterEntry L → Bool
  is_stale rl now ip entry = ltℤ rl.max_age (now -ℤ entry.last_used)

  -- The cleanup function reads the clock at each call: here it has the reading `now`, and `sweep_at`
  -- puts in the one of the tick.
  unfoldable pub new_rate_limiter : R → ℤ → ℤ → ℤ → RateLimiter R L
  unfolding is_stale
  new_rate_limiter requests_per_second burst max_age now =
      let rl : RateLimiter R L = record {
        limiters = Cache.new;
        rate = requests_per_second;
        burst = burst;
        max_age = max_age;
      } in
      record rl { limiters = Cache.with_cleanup minute (is_stale rl now) Cache.new }

  -- A tick of the cleanup goroutine at a time.
  unfoldable pub sweep_at : ℤ → RateLimiter R L → RateLimiter R L
  sweep_at now rl = record rl {
    limiters = Cache.tick (record (rl.limiters) { cleanup_func = some (is_stale rl now) });
  }

  unfoldable pub purge_stale : ℤ → RateLimiter R L → RateLimiter R L
  unfolding purge_keys
  purge_stale now rl = record rl {
    limiters = purge_keys (now -ℤ rl.max_age) (Cache.keys rl.limiters) rl.limiters;
  }

  module _ (pkg : RatePackage R L) (now : ℤ) (ip : Text) where
    -- The entry that `getLimiter` finds or makes, as it leaves it.
    abbrev pub entry_for : RateLimiter R L → Option (LimiterEntry L) → LimiterEntry L
    entry_for rl none = record { limiter = pkg.new_limiter rl.rate rl.burst; last_used = now }
    entry_for rl (some entry) = record entry { last_used = now }

    unfoldable pub get_limiter : RateLimiter R L → RateLimiter R L × LimiterEntry L
    get_limiter rl =
        let entry = entry_for rl (Cache.get ip rl.limiters) in
        (record rl { limiters = Cache.set ip entry rl.limiters }, entry)

    -- The limiter is shared with the cache: its new state is the cached one.
    unfoldable pub allow : RateLimiter R L → RateLimiter R L × Bool
    unfolding get_limiter
    allow rl =
        let (rl', entry) = get_limiter rl in
        let (limiter, allowed) = pkg.allow now entry.limiter in
        (
          record rl' { limiters = Cache.set ip (record entry { limiter = limiter }) rl'.limiters },
          allowed,
        )

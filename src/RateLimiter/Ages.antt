-- ===== src/RateLimiter/Ages.antt =====
-- The entries of the rate limiter of server/ratelimit.go, over the laws of its cache.
use baldsky.Common.{
  List, [], ◌∷◌, Option, none, some, true, if◌then◌else◌, Text, text_eq, text_eq_iff, ℤ, ltℤ, ◌-ℤ◌,
  ◌≡◌, refl, ◌≢◌, ◌∙◌, arith, Option-cases, inl, inr, member,
}
use baldsky.Cache
use baldsky.Cache.{Cache, keys_of, find}
use baldsky.Cache.Laws.{get-set-delete, tick-cleanup_tick, DistinctKeys, kept}
use baldsky.RateLimiter.{
  RatePackage, LimiterEntry, RateLimiter, is_stale, entry_for, purge_key, purge_keys, sweep_at,
  purge_stale, allow,
}

-- The two ways to ask whether an entry is too old agree.
age_test : (max_age now last : ℤ) → ltℤ max_age (now -ℤ last) ≡ ltℤ last (now -ℤ max_age)
unfolding ◌-ℤ◌
age_test max_age now last = ground arith

get-set :
    {V : Type 0} (k j : Text) (v : V) (c : Cache V)
    → Cache.get j (Cache.set k v c) ≡ (if text_eq k j then some v else Cache.get j c)
get-set k j v c = (get-set-delete k j v c).0

module _ {R L : Type 0} (pkg : RatePackage R L) where
  -- The limiter that counts for an address: the cached one, or a new one.
  abbrev pub limiter_of : RateLimiter R L → Option (LimiterEntry L) → L
  limiter_of rl none = pkg.new_limiter rl.rate rl.burst
  limiter_of rl (some entry) = entry.limiter

  entry_for_lem :
      (now : ℤ) (ip : Text) (rl : RateLimiter R L) (o : Option (LimiterEntry L))
      → entry_for pkg now ip rl o ≡ record { limiter = limiter_of rl o; last_used = now }
  entry_for_lem now ip rl none = refl
  entry_for_lem now ip rl (some entry) = refl

  -- A request is answered by the limiter of its address, the cached one or else a new one of the
  -- configured rate and burst; that limiter's new state is cached with the time of the request, and
  -- no other address is touched.
  pub allow_lem :
      (now : ℤ) (ip other : Text) (rl : RateLimiter R L)
      → let (limiter, allowed) = pkg.allow now (limiter_of rl (Cache.get ip rl.limiters)) in
        ((allow pkg now ip rl).1 ≡ allowed)
        × (Cache.get other (allow pkg now ip rl).0.limiters ≡ (
            if text_eq ip other
            then some (record { limiter = limiter; last_used = now })
            else Cache.get other rl.limiters))
  unfolding allow
  allow_lem now ip other rl =
      rw (entry_for_lem now ip rl (Cache.get ip rl.limiters))
        (refl, rw get-set (rw get-set (ground arith)))

module _ {L : Type 0} where
  abbrev expired : ℤ → Option (LimiterEntry L) → Option (LimiterEntry L)
  expired cutoff none = none
  expired cutoff (some entry) = if ltℤ entry.last_used cutoff then none else some entry

  get-purge_key :
      (cutoff : ℤ) (ip j : Text) (c : Cache (LimiterEntry L)) (o : Option (LimiterEntry L))
      → Cache.get ip c ≡ o
      → Cache.get j (purge_key cutoff ip o c)
        ≡ (if text_eq ip j then expired cutoff (Cache.get j c) else Cache.get j c)
  get-purge_key cutoff ip j c none e = ground (arith, text_eq_iff ip j)
  get-purge_key cutoff ip j c (some entry) e =
      ground (arith, text_eq_iff ip j, get-set-delete ip j entry c)

  get-purge_keys :
      (cutoff : ℤ) (ips : List Text) (j : Text) (c : Cache (LimiterEntry L))
      → Cache.get j (purge_keys cutoff ips c)
        ≡ (if member j ips then expired cutoff (Cache.get j c) else Cache.get j c)
  unfolding purge_keys
  get-purge_keys cutoff [] j c = refl
  get-purge_keys cutoff (ip ∷ ips) j c = elim (Option-cases (Cache.get j c)) [
    | inl e ↦ ground (
      arith,
      get-purge_keys cutoff ips j (purge_key cutoff ip (Cache.get ip c) c),
      get-purge_key cutoff ip j c (Cache.get ip c) refl,
      text_eq_iff ip j,
      text_eq_iff j ip,
    )
    | inr (entry, e) ↦ ground (
      arith,
      get-purge_keys cutoff ips j (purge_key cutoff ip (Cache.get ip c) c),
      get-purge_key cutoff ip j c (Cache.get ip c) refl,
      text_eq_iff ip j,
      text_eq_iff j ip,
    )
  ]

  listed :
      (j : Text) (m : List (Text × LimiterEntry L)) (entry : LimiterEntry L)
      → find j m ≡ some entry
      → member j (keys_of m) ≡ true
  unfolding find
  listed j [] entry h = cc
  listed j ((k, v) ∷ m) entry h = ground (arith, listed j m entry, text_eq_iff k j, text_eq_iff j k)

module _ {R L : Type 0} where
  -- What the cleanup leaves under an address.
  abbrev pub unless_stale : RateLimiter R L → ℤ → Option (LimiterEntry L) → Option (LimiterEntry L)
  unless_stale rl now none = none
  unless_stale rl now (some entry) =
      if ltℤ rl.max_age (now -ℤ entry.last_used) then none else some entry

  swept_lem :
      (now : ℤ) (ip : Text) (rl : RateLimiter R L)
      → rl.limiters.cleanup_interval ≢ 0
      → DistinctKeys rl.limiters.entries
      → Cache.get ip (sweep_at now rl).limiters ≡ unless_stale rl now (Cache.get ip rl.limiters)
  unfolding sweep_at is_stale Cache.get
  swept_lem now ip rl n h =
      (tick-cleanup_tick (is_stale rl now)
        (record (rl.limiters) { cleanup_func = some (is_stale rl now) }) refl n h ip).0
      ∙ same (find ip rl.limiters.entries)
    where
      same : (o : Option (LimiterEntry L)) → kept (is_stale rl now) ip o ≡ unless_stale rl now o
      same none = refl
      same (some entry) = refl

  purged_lem :
      (now : ℤ) (ip : Text) (rl : RateLimiter R L)
      → Cache.get ip (purge_stale now rl).limiters ≡ unless_stale rl now (Cache.get ip rl.limiters)
  unfolding purge_stale Cache.keys Cache.get
  purged_lem now ip rl =
      get-purge_keys (now -ℤ rl.max_age) (keys_of rl.limiters.entries) ip rl.limiters
      ∙ same (find ip rl.limiters.entries) refl
    where
      same :
          (o : Option (LimiterEntry L))
          → find ip rl.limiters.entries ≡ o
          → (if member ip (keys_of rl.limiters.entries) then expired (now -ℤ rl.max_age) o else o)
            ≡ unless_stale rl now o
      same none e = ground arith
      same (some entry) e =
          rw (listed ip rl.limiters.entries entry e, age_test rl.max_age now entry.last_used)

  -- The tick of the cleanup goroutine and `purgeStale`, at one time, leave the same entries: those
  -- whose last use is at most the maximal age ago.
  pub sweep_at-purge_stale :
      (now : ℤ) (rl : RateLimiter R L)
      → rl.limiters.cleanup_interval ≢ 0
      → DistinctKeys rl.limiters.entries
      → (ip : Text)
      → (Cache.get ip (sweep_at now rl).limiters ≡ unless_stale rl now (Cache.get ip rl.limiters))
        × (Cache.get ip (purge_stale now rl).limiters
            ≡ unless_stale rl now (Cache.get ip rl.limiters))
  sweep_at-purge_stale now rl n h ip = (swept_lem now ip rl n h, purged_lem now ip rl)

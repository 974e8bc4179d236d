-- ===== src/Cache.antt =====
-- The cache of cache/cache.go: a map under a lock, whose operations are atomic steps. The map is a
-- list of pairs with distinct keys, in the order in which a range over it runs.
pub mod Laws
mod Tests
use baldsky.Common.{
  List, [], ◌∷◌, Option, none, some, Bool, true, false, not, ◌||◌, ◌==◌, if◌then◌else◌, Text,
  text_eq, ℕ, length, map, filter, zero, suc,
}

pub record Cache (V : Type 0) : Type 0 where
  pub entries : List (Text × V)
  pub cleanup_interval : ℕ
  pub cleanup_func : Option (Text → V → Bool)

module _ {V : Type 0} where
  -- `New` without options.
  unfoldable pub new : Cache V
  new = record { entries = []; cleanup_interval = 0; cleanup_func = none }

  -- The option `WithCleanup`.
  unfoldable pub with_cleanup : ℕ → (Text → V → Bool) → Cache V → Cache V
  with_cleanup interval cleanup_func c = record c {
    cleanup_interval = interval;
    cleanup_func = some cleanup_func;
  }

  -- The option `WithCleanupInterval`.
  unfoldable pub with_cleanup_interval : ℕ → Cache V → Cache V
  with_cleanup_interval interval c = record c { cleanup_interval = interval }

  unfoldable pub put : Text → V → List (Text × V) → List (Text × V)
  put k v [] = (k, v) ∷ []
  put k v ((j, w) ∷ m) = if text_eq j k then (k, v) ∷ m else (j, w) ∷ put k v m

  unfoldable pub remove : Text → List (Text × V) → List (Text × V)
  remove k [] = []
  remove k ((j, w) ∷ m) = if text_eq j k then remove k m else (j, w) ∷ remove k m

  unfoldable pub find : Text → List (Text × V) → Option V
  find k [] = none
  find k ((j, w) ∷ m) = if text_eq j k then some w else find k m

  -- `Set`.
  unfoldable pub set : Text → V → Cache V → Cache V
  unfolding put
  set key value c = record c { entries = put key value c.entries }

  -- `Delete`.
  unfoldable pub delete : Text → Cache V → Cache V
  unfolding remove
  delete key c = record c { entries = remove key c.entries }

  -- `Get`.
  unfoldable pub get : Text → Cache V → Option V
  unfolding find
  get key c = find key c.entries

  -- `Size`.
  unfoldable pub size : Cache V → ℕ
  size c = length c.entries

  abbrev pub keys_of : List (Text × V) → List Text
  keys_of [] = []
  keys_of ((k, v) ∷ m) = k ∷ keys_of m

  -- `Keys`.
  unfoldable pub keys : Cache V → List Text
  keys c = keys_of c.entries

  -- One tick of the goroutine of `StartCleanup`: the range over the map deletes as it goes.
  unfoldable pub sweep : (Text → V → Bool) → List (Text × V) → List (Text × V)
  sweep cleanup [] = []
  sweep cleanup ((k, v) ∷ m) = if cleanup k v then sweep cleanup m else (k, v) ∷ sweep cleanup m

  abbrev tick_with : Option (Text → V → Bool) → Cache V → Cache V
  tick_with none c = c
  tick_with (some cleanup) c = record c { entries = sweep cleanup c.entries }

  -- With no interval or no function there are no ticks.
  unfoldable pub tick : Cache V → Cache V
  unfolding sweep
  tick c = if c.cleanup_interval == 0 then c else tick_with c.cleanup_func c

  -- One tick of `Cleanup`: the keys to delete are collected under the read lock, and deleted under
  -- the write lock.
  unfoldable pub stale_keys : (Text → V → Bool) → List (Text × V) → List Text
  stale_keys should_delete [] = []
  stale_keys should_delete ((k, v) ∷ m) =
      if should_delete k v then k ∷ stale_keys should_delete m else stale_keys should_delete m

  unfoldable pub delete_keys : List Text → List (Text × V) → List (Text × V)
  unfolding remove
  delete_keys [] m = m
  delete_keys (k ∷ ks) m = delete_keys ks (remove k m)

  unfoldable pub cleanup_tick : (Text → V → Bool) → Cache V → Cache V
  unfolding stale_keys delete_keys
  cleanup_tick should_delete c =
      if c.cleanup_interval == 0
      then c
      else record c { entries = delete_keys (stale_keys should_delete c.entries) c.entries }

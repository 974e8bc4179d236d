-- ===== src/Cache/Tests.antt =====
-- The cache of cache/cache.go at concrete inputs.
use baldsky.Common.{Text, [], ◌∷◌, some, Bool, ℕ, codes, ◌≡◌, refl, text_eq, ltb}
use baldsky.Cache.{Cache, new, with_cleanup, with_cleanup_interval, set, size, put}

-- An entry is stale below 5.
abbrev small : Text → ℕ → Bool
small k n = ltb n 5

abbrev two : Cache ℕ
two = record {
  entries = (codes "a", 3) ∷ (codes "b", 8) ∷ [];
  cleanup_interval = 2;
  cleanup_func = some small;
}

two_built :
    set (codes "b") 8 (set (codes "a") 3 (with_cleanup_interval 2 (with_cleanup 1 small new))) ≡ two
unfolding set with_cleanup with_cleanup_interval new put text_eq
two_built = refl

size_run : size two ≡ 2
unfolding size
size_run = refl

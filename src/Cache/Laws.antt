-- ===== src/Cache/Laws.antt =====
-- The laws of the cache of cache/cache.go.
use baldsky.Common.{
  List, [], ◌∷◌, Option, none, some, Bool, false, ◌==◌, if◌then◌else◌, Text, text_eq, text_eq_iff,
  ◌≡◌, refl, ◌≢◌, ◌∙◌, arith, Bool-cases, Option-cases, inl, inr, member,
}
use baldsky.Cache.{
  Cache, set, get, delete, tick, cleanup_tick, put, remove, find, sweep, stale_keys, delete_keys,
}

module _ {V : Type 0} where
  pub find-put :
      (k j : Text) (v : V) (m : List (Text × V))
      → find j (put k v m) ≡ (if text_eq k j then some v else find j m)
  unfolding find put
  find-put k j v [] = refl
  find-put k j v ((i, w) ∷ m) =
      ground (arith, text_eq_iff k j, text_eq_iff i k, text_eq_iff i j, find-put k j v m)

  find-remove :
      (k j : Text) (m : List (Text × V))
      → find j (remove k m) ≡ (if text_eq k j then none else find j m)
  unfolding find remove
  find-remove k j [] = ground arith
  find-remove k j ((i, w) ∷ m) =
      ground (arith, text_eq_iff k j, text_eq_iff i k, text_eq_iff i j, find-remove k j m)

  -- Each key stands once.
  abbrev pub DistinctKeys : List (Text × V) → Type 0
  DistinctKeys [] = Unit
  DistinctKeys ((k, v) ∷ m) = (find k m ≡ none) × DistinctKeys m

  -- A read after a write of a key gives the value written, and after a deletion nothing; the other
  -- keys are as before.
  pub get-set-delete :
      (k j : Text) (v : V) (c : Cache V)
      → (get j (set k v c) ≡ (if text_eq k j then some v else get j c))
        × (get j (delete k c) ≡ (if text_eq k j then none else get j c))
  unfolding get set delete
  get-set-delete k j v c = (find-put k j v c.entries, find-remove k j c.entries)

  -- What a sweep leaves under a key.
  abbrev pub kept : (Text → V → Bool) → Text → Option V → Option V
  kept cleanup k none = none
  kept cleanup k (some v) = if cleanup k v then none else some v

  find-sweep :
      (cleanup : Text → V → Bool) (j : Text) (m : List (Text × V))
      → DistinctKeys m
      → find j (sweep cleanup m) ≡ kept cleanup j (find j m)
  unfolding find sweep
  find-sweep cleanup j [] h = refl
  find-sweep cleanup j ((k, v) ∷ m) h = elim (Bool-cases (text_eq k j)) [
    | inl e ↦
        let p : k ≡ j = (text_eq_iff k j).0 e in
        let f : find j m ≡ none = rw (← p) h.0 in ground (arith, find-sweep cleanup j m h.1)
    | inr e ↦ ground (arith, find-sweep cleanup j m h.1)
  ]

  find-delete_keys :
      (ks : List Text) (j : Text) (m : List (Text × V))
      → find j (delete_keys ks m) ≡ (if member j ks then none else find j m)
  unfolding delete_keys
  find-delete_keys [] j m = refl
  find-delete_keys (k ∷ ks) j m = ground (
    arith,
    find-delete_keys ks j (remove k m),
    find-remove k j m,
    text_eq_iff k j,
    text_eq_iff j k,
  )

  not_stale :
      (stale : Text → V → Bool) (j : Text) (m : List (Text × V))
      → find j m ≡ none
      → member j (stale_keys stale m) ≡ false
  unfolding find stale_keys
  not_stale stale j [] h = refl
  not_stale stale j ((k, v) ∷ m) h =
      ground (arith, not_stale stale j m, text_eq_iff k j, text_eq_iff j k)

  find-stale_keys :
      (stale : Text → V → Bool) (j : Text) (m : List (Text × V))
      → DistinctKeys m
      → (if member j (stale_keys stale m) then none else find j m) ≡ kept stale j (find j m)
  unfolding find stale_keys
  find-stale_keys stale j [] h = refl
  find-stale_keys stale j ((k, v) ∷ m) h = elim (Bool-cases (text_eq k j)) [
    | inl e ↦
        let p : k ≡ j = (text_eq_iff k j).0 e in
        let f : find j m ≡ none = rw (← p) h.0 in
        ground (arith, not_stale stale j m f, text_eq_iff j k)
    | inr e ↦ ground (arith, find-stale_keys stale j m h.1, text_eq_iff j k, text_eq_iff k j)
  ]

  -- The two routines of the cache that delete stale entries agree: after one tick of either, with
  -- the same test and an interval that is not 0, each key has what it had, or nothing if the test
  -- holds of its entry.
  pub tick-cleanup_tick :
      (stale : Text → V → Bool) (c : Cache V)
      → c.cleanup_func ≡ some stale
      → c.cleanup_interval ≢ 0
      → DistinctKeys c.entries
      → (j : Text)
      → (get j (tick c) ≡ kept stale j (get j c))
        × (get j (cleanup_tick stale c) ≡ kept stale j (get j c))
  unfolding get tick cleanup_tick
  tick-cleanup_tick stale c f n h j =
      let zero_test : (c.cleanup_interval == 0) ≡ false = ground arith in
      (
        simp (zero_test, f) (find-sweep stale j c.entries h),
        simp zero_test (
            find-delete_keys (stale_keys stale c.entries) j c.entries
            ∙ find-stale_keys stale j c.entries h),
      )

  put-DistinctKeys :
      (k : Text) (v : V) (m : List (Text × V)) → DistinctKeys m → DistinctKeys (put k v m)
  unfolding put find
  put-DistinctKeys k v [] h = (refl, tt)
  put-DistinctKeys k v ((i, w) ∷ m) h = elim (Bool-cases (text_eq i k)) [
    | inl e ↦ rw e (rw (← (text_eq_iff i k).0 e) h.0, h.1)
    | inr e ↦ rw e (
      ground (arith, find-put k i v m, text_eq_iff k i, text_eq_iff i k),
      put-DistinctKeys k v m h.1,
    )
  ]

  remove-DistinctKeys :
      (k : Text) (m : List (Text × V)) → DistinctKeys m → DistinctKeys (remove k m)
  unfolding remove
  remove-DistinctKeys k [] h = tt
  remove-DistinctKeys k ((i, w) ∷ m) h = elim (Bool-cases (text_eq i k)) [
    | inl e ↦ rw e (remove-DistinctKeys k m h.1)
    | inr e ↦ rw e (ground (arith, find-remove k i m, h.0), remove-DistinctKeys k m h.1)
  ]

  delete_keys-DistinctKeys :
      (ks : List Text) (m : List (Text × V)) → DistinctKeys m → DistinctKeys (delete_keys ks m)
  unfolding delete_keys
  delete_keys-DistinctKeys [] m h = h
  delete_keys-DistinctKeys (k ∷ ks) m h =
      delete_keys-DistinctKeys ks (remove k m) (remove-DistinctKeys k m h)

  sweep-DistinctKeys :
      (cleanup : Text → V → Bool) (m : List (Text × V))
      → DistinctKeys m
      → DistinctKeys (sweep cleanup m)
  unfolding sweep
  sweep-DistinctKeys cleanup [] h = tt
  sweep-DistinctKeys cleanup ((k, v) ∷ m) h = elim (Bool-cases (cleanup k v)) [
    | inl e ↦ rw e (sweep-DistinctKeys cleanup m h.1)
    | inr e ↦
        rw e (ground (arith, find-sweep cleanup k m h.1, h.0), sweep-DistinctKeys cleanup m h.1)
  ]

  tick-DistinctKeys : (c : Cache V) → DistinctKeys c.entries → DistinctKeys (tick c).entries
  unfolding tick
  tick-DistinctKeys c h = elim (Bool-cases (c.cleanup_interval == 0)) [
    | inl e ↦ simp e h
    | inr e ↦ elim (Option-cases c.cleanup_func) [
      | inl f ↦ simp (e, f) h
      | inr (cleanup, f) ↦ simp (e, f) (sweep-DistinctKeys cleanup c.entries h)
    ]
  ]

  -- Each operation and each cleanup keeps the keys distinct.
  cache-DistinctKeys :
      (k : Text) (v : V) (stale : Text → V → Bool) (c : Cache V)
      → DistinctKeys c.entries
      → DistinctKeys (set k v c).entries
        × DistinctKeys (delete k c).entries
        × DistinctKeys (tick c).entries
        × DistinctKeys (cleanup_tick stale c).entries
  unfolding set delete cleanup_tick
  cache-DistinctKeys k v stale c h = (
    put-DistinctKeys k v c.entries h,
    remove-DistinctKeys k c.entries h,
    tick-DistinctKeys c h,
    elim (Bool-cases (c.cleanup_interval == 0)) [
      | inl e ↦ simp e h
      | inr e ↦ simp e (delete_keys-DistinctKeys (stale_keys stale c.entries) c.entries h)
    ],
  )

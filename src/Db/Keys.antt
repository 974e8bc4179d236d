-- ===== src/Db/Keys.antt =====
-- The order of db/schema/queries/feed.sql on posts is strict, and is total on pairs of
-- `indexed_at` and `cid`.
use baldsky.Common.{
  Text, Bool, true, false, ◌&&◌, ◌||◌, ◌≡◌, ◌⊎◌, inl, inr, arith, text_eq, text_eq_iff, Bool-cases,
}
use baldsky.Common.Sort.{IsStrict}
use baldsky.Db.Tables.{Collation, PostRow}
use baldsky.Db.Queries.{newer}

module _ (c : Collation) where
  newer_irrefl : (a : PostRow) → newer c a a ≡ false
  unfolding newer
  newer_irrefl a = rw (c.lt_irrefl, c.lt_irrefl) (ground arith)

  -- The order on pairs, first by the first text.
  pair_lt : Text → Text → Text → Text → Bool
  pair_lt s t s' t' = c.lt s s' || (text_eq s s' && c.lt t t')

  pair_trans :
      (s t s' t' s'' t'' : Text)
      → pair_lt s t s' t' ≡ true
      → pair_lt s' t' s'' t'' ≡ true
      → pair_lt s t s'' t'' ≡ true
  unfolding pair_lt
  pair_trans s t s' t' s'' t'' h k = ground (
    arith,
    c.lt_trans s s' s'',
    c.lt_trans t t' t'',
    text_eq_iff s s',
    text_eq_iff s' s'',
    text_eq_iff s s'',
  )

  -- Of two texts one is less, or they are one.
  compare_cases : (s t : Text) → (c.lt s t ≡ true) ⊎ ((c.lt t s ≡ true) ⊎ (s ≡ t))
  compare_cases s t = elim (Bool-cases (c.lt s t)) [
    | inl e ↦ inl e
    | inr e ↦ elim (Bool-cases (c.lt t s)) [
      | inl f ↦ inr (inl f)
      | inr f ↦ inr (inr (c.lt_total s t e f))
    ]
  ]

  pair_cases :
      (s t s' t' : Text)
      → (pair_lt s t s' t' ≡ true) ⊎ ((pair_lt s' t' s t ≡ true) ⊎ ((s ≡ s') × (t ≡ t')))
  unfolding pair_lt
  pair_cases s t s' t' =
      ground (arith, compare_cases s s', compare_cases t t', text_eq_iff s s', text_eq_iff s' s)

  pair_split :
      (s t s' t' s'' t'' : Text)
      → pair_lt s t s'' t'' ≡ true
      → (pair_lt s t s' t' ≡ true) ⊎ (pair_lt s' t' s'' t'' ≡ true)
  pair_split s t s' t' s'' t'' h = elim (pair_cases s t s' t') [
    | inl e ↦ inl e
    | inr (inl e) ↦ inr (pair_trans s' t' s t s'' t'' e h)
    | inr (inr (e, f)) ↦ inr (rw (← e, ← f) h)
  ]

  -- The order of the pages is a strict order.
  pub newer-IsStrict : IsStrict (newer c)
  unfolding newer pair_lt
  newer-IsStrict = record {
    irrefl = newer_irrefl;
    trans = λ a b d h k. pair_trans d.indexed_at d.cid b.indexed_at b.cid a.indexed_at a.cid k h;
    split = λ a b d h.
        elim (pair_split d.indexed_at d.cid b.indexed_at b.cid a.indexed_at a.cid h) [
          | inl e ↦ inr e
          | inr e ↦ inl e
        ];
  }

  -- Two posts that differ in `indexed_at` or `cid` are told apart by the order.
  pub newer_total :
      (a b : PostRow)
      → ¬ ((a.indexed_at ≡ b.indexed_at) × (a.cid ≡ b.cid))
      → (newer c a b || newer c b a) ≡ true
  unfolding newer pair_lt
  newer_total a b h = elim (pair_cases a.indexed_at a.cid b.indexed_at b.cid) [
    | inl e ↦ ground arith
    | inr (inl e) ↦ ground arith
    | inr (inr e) ↦ absurd (h e)
  ]

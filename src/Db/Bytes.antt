-- ===== src/Db/Bytes.antt =====
-- The order of texts by their bytes, which PostgreSQL's collation "C" uses; the tests take it.
use baldsky.Common.{Text, [], ◌∷◌, Bool, true, false, ◌&&◌, ◌||◌, ltb, ◌==◌, ◌≡◌, refl, arith}
use baldsky.Db.Tables.{Collation}

unfoldable pub bytes_lt : Text → Text → Bool
bytes_lt [] [] = false
bytes_lt [] (d ∷ t) = true
bytes_lt (c ∷ s) [] = false
bytes_lt (c ∷ s) (d ∷ t) = ltb c d || (c == d && bytes_lt s t)

pub bytes_irrefl : (s : Text) → bytes_lt s s ≡ false
unfolding bytes_lt
bytes_irrefl [] = refl
bytes_irrefl (c ∷ s) = ground (arith, bytes_irrefl s)

pub bytes_trans : (s t u : Text) → bytes_lt s t ≡ true → bytes_lt t u ≡ true → bytes_lt s u ≡ true
unfolding bytes_lt
bytes_trans [] [] u h k = cc
bytes_trans [] (d ∷ t) [] h k = cc
bytes_trans [] (d ∷ t) (e ∷ u) h k = refl
bytes_trans (c ∷ s) [] u h k = cc
bytes_trans (c ∷ s) (d ∷ t) [] h k = cc
bytes_trans (c ∷ s) (d ∷ t) (e ∷ u) h k = ground (arith, bytes_trans s t u)

pub bytes_total : (s t : Text) → bytes_lt s t ≡ false → bytes_lt t s ≡ false → s ≡ t
unfolding bytes_lt
bytes_total [] [] h k = refl
bytes_total [] (d ∷ t) h k = cc
bytes_total (c ∷ s) [] h k = cc
bytes_total (c ∷ s) (d ∷ t) h k = ground (arith, bytes_total s t)

abbrev pub bytes : Collation
bytes = record {
  lt = bytes_lt;
  lt_irrefl = bytes_irrefl;
  lt_trans = bytes_trans;
  lt_total = bytes_total;
}

-- ===== src/Db/Tables.antt =====
-- The tables of db/schema/migrations, the rows and parameters of db/gen, and the order of texts.
use baldsky.Common.{Text, Bool, true, false, List, Option, ◌≡◌, ℤ, ℕ}

-- The order of PostgreSQL on texts, which the database's collation fixes.
pub record Collation : Type 0 where
  pub lt : Text → Text → Bool
  pub lt_irrefl : (s : Text) → lt s s ≡ false
  pub lt_trans : (s t u : Text) → lt s t ≡ true → lt t u ≡ true → lt s u ≡ true
  pub lt_total : (s t : Text) → lt s t ≡ false → lt t s ≡ false → s ≡ t

-- A row of `post`, whose primary key is `uri`.
pub record PostRow : Type 0 where
  pub uri : Text
  pub cid : Text
  pub indexed_at : Text
  pub feed_name : Text

-- A row of `sub_state`, whose primary key is `service`.
pub record SubStateRow : Type 0 where
  pub service : Text
  pub cursor : ℤ

-- A row of `feed_stats`, whose primary key is `feed_name`.
pub record FeedStat : Type 0 where
  pub feed_name : Text
  pub total_views : ℕ
  pub last_viewed_at : Option Text

-- `faults` says, for each query to come, whether the database fails it; none does once it is empty.
pub record Database : Type 0 where
  pub post : List PostRow
  pub sub_state : List SubStateRow
  pub feed_stats : List FeedStat
  pub faults : List Bool

pub record InsertPostParams : Type 0 where
  pub uri : Text
  pub cid : Text
  pub indexed_at : Text
  pub feed_name : Text

-- `sql.NullString` is an `Option`.
pub record GetFeedPageParams : Type 0 where
  pub feed_name : Text
  pub cursor_indexed_at : Option Text
  pub cursor_cid : Option Text
  pub limit : ℕ

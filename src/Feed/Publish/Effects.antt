-- ===== src/Feed/Publish/Effects.antt =====
-- What `Publish`, `Update` and `Delete` of feed/feed.go leave in the publisher's repository.
use baldsky.Common.{
  Text, [], ◌∷◌, Option, none, some, Bool, true, false, ◌&&◌, if◌then◌else◌, ok, ◌≡◌, refl, sym,
  ◌∙◌, ap, text_eq, text_eq_iff, Bool-cases, inl, inr,
}
use baldsky.Feed.Service.{FeedEntry, FeedMap, Service, find_feed}
use baldsky.Feed.Entries.{absent}
use baldsky.Feed.Publish.{Pds, FeedGenerator, generator}

-- The records by repository, collection and key.
abbrev pub Records : Type 0
Records = Text → Text → Text → Option FeedGenerator

-- One record is set or removed, and no other.
abbrev pub Changed : Text → Text → Text → Option FeedGenerator → Records → Records → Type 0
Changed repo collection key value before after =
    (r c k : Text)
    → after r c k
      ≡ (if text_eq repo r && (text_eq collection c && text_eq key k) then value else before r c k)

-- A PDS that answers a call without an error has done what the call asks for, and nothing else.
pub record LawfulPds {W Auth : Type 0} (pds : Pds W Auth) : Type 0 where
  pub stored : W → Records
  pub session_keeps :
      (identifier password : Text) (w : W)
      → stored (pds.create_session identifier password w).1 ≡ stored w
  pub get_keeps :
      (auth : Auth) (collection repo key : Text) (w : W)
      → stored (pds.get_record auth collection repo key w).1 ≡ stored w
  pub created :
      (auth : Auth) (repo collection key : Text) (g : FeedGenerator) (w w' : W) (uri : Text)
      → pds.create_record auth repo collection key g w ≡ (ok uri, w')
      → Changed repo collection key (some g) (stored w) (stored w')
  pub replaced :
      (auth : Auth) (repo collection key : Text) (swap : Option Text) (g : FeedGenerator) (w w' : W)
      (uri : Text)
      → pds.put_record auth repo collection key swap g w ≡ (ok uri, w')
      → Changed repo collection key (some g) (stored w) (stored w')
  pub removed :
      (auth : Auth) (repo collection key : Text) (w w' : W)
      → pds.delete_record auth repo collection key w ≡ (none, w')
      → Changed repo collection key none (stored w) (stored w')

-- What becomes of a record, given the configured feed of its key.
abbrev pub wanted :
    (FeedEntry → Option FeedGenerator)
    → Option FeedEntry
    → Option FeedGenerator
    → Option FeedGenerator
wanted effect none old = old
wanted effect (some e) old = if text_eq e.collection_name generator then effect e else old

-- A change of one record, and then one that leaves that record as it is.
two_changes :
    {A : Type 0} (own kind key : Bool) (after between before value : A) (f : A → A)
    → between ≡ (if own && (kind && key) then value else before)
    → after ≡ (if own && kind then f between else between)
    → (key ≡ true → f between ≡ between)
    → after ≡ (if own && kind then (if key then value else f before) else before)
two_changes false kind key after between before value f m h same = h ∙ m
two_changes true false key after between before value f m h same = h ∙ m
two_changes true true true after between before value f m h same = h ∙ (same refl ∙ m)
two_changes true true false after between before value f m h same = h ∙ ap f m

module _ (s : Service) (effect : FeedEntry → Option FeedGenerator) where
  -- The records of the feed generators of the publisher are as wanted, and all others as before.
  abbrev pub Done : FeedMap → Records → Records → Type 0
  Done feeds before after =
      (r c k : Text)
      → after r c k ≡ (
          if text_eq s.publisher_did r && text_eq generator c
          then wanted effect (find_feed k feeds) (before r c k)
          else before r c k)

  pub Done-nil : (before : Records) → Done [] before before
  unfolding find_feed
  Done-nil before r c k = elim (Bool-cases (text_eq s.publisher_did r && text_eq generator c)) [
    | inl e ↦ rw e refl
    | inr e ↦ rw e refl
  ]

  -- The records of a feed that is no generator are left alone.
  pub Done-other :
      (k : Text) (entry : FeedEntry) (feeds : FeedMap) (before after : Records)
      → text_eq entry.collection_name generator ≡ false
      → find_feed k feeds ≡ none
      → Done feeds before after
      → Done ((k, entry) ∷ feeds) before after
  unfolding find_feed
  Done-other k entry feeds before after other new rest r c j =
      let h = rest r c j in
      elim (Bool-cases (text_eq k j)) [
        | inl e ↦ let gone = absent k j feeds new e in let h' = rw gone at h in rw (e, other) h'
        | inr e ↦ rw e h
      ]

  pub Done-step :
      (k : Text) (entry : FeedEntry) (feeds : FeedMap) (before between after : Records)
      → k ≡ entry.short_name
      → text_eq entry.collection_name generator ≡ true
      → find_feed k feeds ≡ none
      → Changed s.publisher_did entry.collection_name entry.short_name (effect entry) before between
      → Done feeds between after
      → Done ((k, entry) ∷ feeds) before after
  unfolding find_feed
  Done-step k entry feeds before between after name it_is new change rest r c j =
      let kind : text_eq entry.collection_name c ≡ text_eq generator c =
        ap (λ t. text_eq t c) ((text_eq_iff entry.collection_name generator).0 it_is) in
      let key : text_eq entry.short_name j ≡ text_eq k j = ap (λ t. text_eq t j) (sym name) in
      let m = rw (kind, key) at (change r c j) in
      let both =
        two_changes (text_eq s.publisher_did r) (text_eq generator c) (text_eq k j) (after r c j)
          (between r c j) (before r c j) (effect entry) (wanted effect (find_feed j feeds)) m
          (rest r c j) (λ e. ap (λ o. wanted effect o (between r c j)) (absent k j feeds new e)) in
      elim (Bool-cases (text_eq k j)) [
        | inl e ↦ let b = rw e at both in rw (e, it_is) b
        | inr e ↦ let b = rw e at both in rw e b
      ]

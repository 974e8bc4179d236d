-- ===== src/Feed/Entries.antt =====
-- The map of feeds that `New` of feed/feed.go builds of its entries.
use baldsky.Common.{
  Text, List, [], ◌∷◌, Option, none, some, true, if◌then◌else◌, text_eq, text_eq_iff, text_eq_comm,
  ◌≡◌, refl, sym, ap, ◌∙◌, inl, inr, Bool-cases,
}
use baldsky.Feed.Service.{FeedEntry, FeedMap, set_feed, find_feed, add_entries, new}

-- The keys of the map are the short names, and each stands there once.
abbrev pub Named : FeedMap → Type 0
Named [] = Unit
Named ((k, e) ∷ feeds) = ((k ≡ e.short_name) × (find_feed k feeds ≡ none)) × Named feeds

pub absent :
    (k j : Text) (feeds : FeedMap)
    → find_feed k feeds ≡ none
    → text_eq k j ≡ true
    → find_feed j feeds ≡ none
absent k j feeds new e = ap (λ i. find_feed i feeds) (sym ((text_eq_iff k j).0 e)) ∙ new

find_feed-set_feed :
    (j k : Text) (e : FeedEntry) (feeds : FeedMap)
    → find_feed k (set_feed j e feeds) ≡ (if text_eq j k then some e else find_feed k feeds)
unfolding find_feed set_feed
find_feed-set_feed j k e [] = refl
find_feed-set_feed j k e ((i, f) ∷ feeds) = elim (Bool-cases (text_eq i j)) [
  | inl same ↦
      let q : text_eq i k ≡ text_eq j k = ap (λ t. text_eq t k) ((text_eq_iff i j).0 same) in
      elim (Bool-cases (text_eq j k)) [
        | inl h ↦ rw (same, q, h) refl
        | inr h ↦ rw (same, q, h) refl
      ]
  | inr other ↦ elim (Bool-cases (text_eq i k)) [
    | inl h ↦ elim (Bool-cases (text_eq j k)) [
      | inl g ↦
          let same : i ≡ j = (text_eq_iff i k).0 h ∙ sym ((text_eq_iff j k).0 g) in
          let t = (text_eq_iff i j).1 same in cc
      | inr g ↦ rw (other, h, g) refl
    ]
    | inr h ↦ rw (other, h) (find_feed-set_feed j k e feeds)
  ]
]

set_feed-Named :
    (e : FeedEntry) (feeds : FeedMap) → Named feeds → Named (set_feed e.short_name e feeds)
unfolding set_feed find_feed
set_feed-Named e [] h = ((refl, refl), tt)
set_feed-Named e ((i, f) ∷ feeds) ((name, new), rest) = elim (Bool-cases (text_eq i e.short_name)) [
  | inl same ↦
      let q = (text_eq_iff i e.short_name).0 same in
      rw same ((refl, ap (λ k. find_feed k feeds) (sym q) ∙ new), rest)
  | inr other ↦ rw other (
    (name, find_feed-set_feed e.short_name i e feeds ∙ rw (text_eq_comm e.short_name i, other) new),
    set_feed-Named e feeds rest,
  )
]

add_entries-Named :
    (entries : List FeedEntry) (feeds : FeedMap) → Named feeds → Named (add_entries feeds entries)
unfolding add_entries
add_entries-Named [] feeds h = h
add_entries-Named (e ∷ entries) feeds h =
    add_entries-Named entries (set_feed e.short_name e feeds) (set_feed-Named e feeds h)

-- The last of the entries with a short name.
abbrev pub last_named : Text → List FeedEntry → Option FeedEntry → Option FeedEntry
last_named k [] found = found
last_named k (e ∷ entries) found =
    last_named k entries (if text_eq e.short_name k then some e else found)

find_feed-add_entries :
    (k : Text) (entries : List FeedEntry) (feeds : FeedMap)
    → find_feed k (add_entries feeds entries) ≡ last_named k entries (find_feed k feeds)
unfolding add_entries
find_feed-add_entries k [] feeds = refl
find_feed-add_entries k (e ∷ entries) feeds =
    find_feed-add_entries k entries (set_feed e.short_name e feeds)
    ∙ ap (last_named k entries) (find_feed-set_feed e.short_name k e feeds)

module _ (service_did hostname publisher_did did_context service_id : Text)
    (entries : List FeedEntry) where
  -- The keys of the map are the names of the feeds, each once.
  pub new-Named :
      Named (new service_did hostname publisher_did did_context service_id entries).feeds
  unfolding new
  new-Named = add_entries-Named entries [] tt

  -- A name stands for the last of the entries that have it.
  pub find_feed-new :
      (k : Text)
      → find_feed k (new service_did hostname publisher_did did_context service_id entries).feeds
        ≡ last_named k entries none
  unfolding new find_feed
  find_feed-new k = find_feed-add_entries k entries []

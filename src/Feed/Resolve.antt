-- ===== src/Feed/Resolve.antt =====
-- Which request URIs `GetFeedPage` (feed/feed.go) takes, and the URIs that the service advertises.
use baldsky.Common.{
  ◌↔◌, Text, List, [], ◌∷◌, ◌++◌, some, ◌≡◌, refl, ◌≢◌, ◌∙◌, ap, inl, inr, Result, ok, All, split,
  split-append, split_single, trim_prefix, trim_prefix-append, codes, text_eq, text_eq_refl,
  text_eq_iff, arith, Bool-cases, Option-cases,
}
use baldsky.Feed.Service.{Service, FeedEntry, find_feed, feed_generator_uri}
use baldsky.Feed.Skeleton.{FeedError, resolve, check_parts}

abbrev pub NoSlash : Text → Type 0
NoSlash s = All (λ c. c ≢ b'/') s

-- The URI that the service advertises for a feed is taken by `GetFeedPage` as that feed, if the feed
-- is published in the collection of feed generators, and neither the publisher's DID nor the name
-- holds a slash.
pub resolve-feed_generator_uri :
    (s : Service) (name : Text) (entry : FeedEntry)
    → find_feed name s.feeds ≡ some entry
    → entry.collection_name ≡ codes "app.bsky.feed.generator"
    → NoSlash s.publisher_did
    → NoSlash name
    → resolve s (feed_generator_uri s.publisher_did name) ≡ ok name
unfolding resolve feed_generator_uri text_eq
resolve-feed_generator_uri s name entry found published free free_name =
    let parts =
      split-append b'/' s.publisher_did (codes "app.bsky.feed.generator/" ++ name) free
      ∙ ap (λ ps. s.publisher_did ∷ ps)
          (split-append b'/' (codes "app.bsky.feed.generator") name (omega arith))
      ∙ ap (λ ps. s.publisher_did ∷ codes "app.bsky.feed.generator" ∷ ps)
          (split_single b'/' name free_name) in
    rw
      (
        trim_prefix-append (codes "at://")
            (s.publisher_did ++ (codes "/app.bsky.feed.generator/" ++ name)),
        parts,
        text_eq_refl,
        found,
        published,
      )
      refl

-- The three parts of a URI that names a configured feed, in the collection it is published in.
pub record Names (s : Service) (parts : List Text) (name : Text) : Type 0 where
  pub entry : FeedEntry
  pub configured : find_feed name s.feeds ≡ some entry
  pub three : parts ≡ s.publisher_did ∷ entry.collection_name ∷ name ∷ []

check_parts_sound :
    (s : Service) (parts : List Text) (name : Text)
    → check_parts s parts ≡ ok name
    → Names s parts name
unfolding check_parts
check_parts_sound s (did ∷ collection ∷ rkey ∷ []) name h =
    elim (Bool-cases (text_eq did s.publisher_did)) [
      | inr other ↦ let e = rw other at h in cc
      | inl same ↦ elim (Option-cases (find_feed rkey s.feeds)) [
        | inl missing ↦ let e = rw (same, missing) at h in cc
        | inr (entry, found) ↦ elim (Bool-cases (text_eq collection entry.collection_name)) [
          | inr f ↦ let e = rw (same, found) at h in let e' = rw f at e in cc
          | inl f ↦
              let e = rw (same, found) at h in
              let e' : ◌≡◌ {A = Result FeedError Text} (ok rkey) (ok name) = rw f at e in
              let rkey_name : rkey ≡ name = cc in
              record {
                entry = entry;
                configured = rw (← rkey_name) found;
                three = cc (
                  (text_eq_iff did s.publisher_did).0 same,
                  (text_eq_iff collection entry.collection_name).0 f,
                );
              }
        ]
      ]
    ]
check_parts_sound s _ name h = cc

check_parts_complete :
    (s : Service) (parts : List Text) (name : Text)
    → Names s parts name
    → check_parts s parts ≡ ok name
unfolding check_parts
check_parts_complete s parts name n = rw (n.three, text_eq_refl, n.configured, text_eq_refl)

no_parts : (a b c : Text) → split b'/' (trim_prefix [] (codes "at://")) ≢ a ∷ b ∷ c ∷ []
unfolding split trim_prefix
no_parts a b c e = cc

-- A request is taken as the feed `name` exactly when that feed is configured and the URI, less an
-- "at://" in front, has three parts: the publisher's DID, the feed's collection and the name.
pub resolve_iff :
    (s : Service) (feed_uri name : Text)
    → (resolve s feed_uri ≡ ok name)
      ↔ Names s (split b'/' (trim_prefix feed_uri (codes "at://"))) name
unfolding resolve
resolve_iff s [] name = (λ h. cc, λ n. absurd (no_parts _ _ _ n.three))
resolve_iff s (x ∷ feed_uri) name = (check_parts_sound s _ name, check_parts_complete s _ name)

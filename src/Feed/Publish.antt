-- ===== src/Feed/Publish.antt =====
-- `BuildDescription`, `Publish`, `Update` and `Delete` of feed/feed.go, over the publisher's PDS.
pub mod Client
pub mod Effects
pub mod Facets
pub mod Performed
pub mod Records
pub mod Tests
use baldsky.Common.{
  Text, List, [], ◌∷◌, ◌++◌, Option, none, some, Bool, true, false, not, Result, ok, err, Error, ℕ,
  ◌+◌, ◌/◌, ◌%◌, ltb, length, codes, is_empty, text_eq, if◌then◌else◌,
}
use baldsky.Common.Utf8.{to_bytes}
use baldsky.Cache.{put}
use baldsky.Feed.Service.{FeedEntry, FeedMap, Service, feed_generator_uri}

-- A facet with its one feature, a link.
pub record Facet : Type 0 where
  pub byte_start : ℕ
  pub byte_end : ℕ
  pub link : Text

abbrev pub newlines : Text
newlines = b'\n' ∷ b'\n' ∷ []

unfoldable pub build_description : Text → Text → Text → Text × List Facet
build_description description link_label link_url =
    if is_empty link_url
    then (description, [])
    else let suffix = newlines ++ link_label in
      let prefix = to_bytes (description ++ newlines) in
      (
        description ++ suffix,
        record {
          byte_start = length prefix;
          byte_end = length prefix + length (to_bytes link_label);
          link = link_url;
        }
            ∷ [],
      )

-- `bsky.FeedGenerator`.
pub record FeedGenerator : Type 0 where
  pub did : Text
  pub display_name : Text
  pub description : Text
  pub description_facets : List Facet
  pub created_at : Text

-- The calls of the PDS that the program makes, over its state `W`; `Auth` is a session. A record is
-- named by repository, collection and key.
pub record Pds (W Auth : Type 0) : Type 0 where
  pub create_session : Text → Text → W → Result Error Auth × W
  pub create_record : Auth → Text → Text → Text → FeedGenerator → W → Result Error Text × W
  pub get_record : Auth → Text → Text → Text → W → Result Error (Option Text) × W
  pub put_record :
      Auth → Text → Text → Text → Option Text → FeedGenerator → W → Result Error Text × W
  pub delete_record : Auth → Text → Text → Text → W → Option Error × W

pub data PublishError : Type 0 where
  pds_required : PublishError
  identifier_required : PublishError
  password_required : PublishError
  authenticating : Error → PublishError
  feed_failed : Text → Error → PublishError

-- The URIs by short name, and the error.
abbrev pub Published : Type 0
Published = List (Text × Text) × Option PublishError

abbrev pub generator : Text
generator = codes "app.bsky.feed.generator"

module _ {W Auth : Type 0} (pds : Pds W Auth) (s : Service) where
  -- The record of a feed, at the time `now`.
  abbrev pub record_of : Text → FeedEntry → FeedGenerator
  record_of now entry =
      let (text, facets) = build_description entry.description entry.link_label entry.link_url in
      record {
        did = s.service_did;
        display_name = entry.display_name;
        description = text;
        description_facets = facets;
        created_at = now;
      }

  unfoldable pub publish_feed : Text → Auth → FeedEntry → W → Result Error Text × W
  publish_feed now auth entry w =
      pds.create_record auth s.publisher_did entry.collection_name entry.short_name
        (record_of now entry) w

  abbrev pub put_existing :
      Text → Auth → FeedEntry → Result Error (Option Text) × W → Result Error Text × W
  put_existing now auth entry (err e, w) = (err e, w)
  put_existing now auth entry (ok cid, w) =
      pds.put_record auth s.publisher_did entry.collection_name entry.short_name cid
        (record_of now entry) w

  unfoldable pub update_feed : Text → Auth → FeedEntry → W → Result Error Text × W
  update_feed now auth entry w =
      put_existing now auth entry
        (pds.get_record auth entry.collection_name s.publisher_did entry.short_name w)

  abbrev pub deleted_uri : Text → Option Error × W → Result Error Text × W
  deleted_uri uri (some e, w) = (err e, w)
  deleted_uri uri (none, w) = (ok uri, w)

  unfoldable pub delete_feed : Auth → FeedEntry → W → Result Error Text × W
  delete_feed auth entry w =
      deleted_uri (feed_generator_uri s.publisher_did entry.short_name)
        (pds.delete_record auth s.publisher_did entry.collection_name entry.short_name w)

  abbrev pub after_feed :
      (List (Text × Text) → W → Published × W)
      → FeedEntry
      → List (Text × Text)
      → Result Error Text × W
      → Published × W
  after_feed next entry done (err e, w) = ((done, some (feed_failed entry.short_name e)), w)
  after_feed next entry done (ok uri, w) = next (put entry.short_name uri done) w

  -- The loop over the feeds, in the order in which the range runs; it leaves at the first error.
  unfoldable pub each_feed :
      (FeedEntry → W → Result Error Text × W) → FeedMap → List (Text × Text) → W → Published × W
  each_feed operation [] done w = ((done, none), w)
  each_feed operation ((k, entry) ∷ feeds) done w =
      if not (text_eq entry.collection_name generator)
      then each_feed operation feeds done w
      else after_feed (λ done' w'. each_feed operation feeds done' w') entry done
          (operation entry w)

  abbrev pub with_session :
      (Auth → FeedEntry → W → Result Error Text × W) → Result Error Auth × W → Published × W
  with_session operation (err e, w) = (([], some (authenticating e)), w)
  with_session operation (ok auth, w) = each_feed (operation auth) s.feeds [] w

  -- What the three have in common: the checks of the configuration, the session and the loop.
  unfoldable pub with_client : (Auth → FeedEntry → W → Result Error Text × W) → W → Published × W
  unfolding each_feed
  with_client operation w =
      if is_empty s.pds
      then (([], some pds_required), w)
      else if is_empty s.publisher_identifier
      then (([], some identifier_required), w)
      else if is_empty s.publisher_password
      then (([], some password_required), w)
      else with_session operation (pds.create_session s.publisher_identifier s.publisher_password w)

  -- `Publish`, which reads the clock at each feed: `now` says what it shows there.
  unfoldable pub publish : (FeedEntry → Text) → W → Published × W
  unfolding with_client publish_feed
  publish now w = with_client (λ auth entry v. publish_feed (now entry) auth entry v) w

  -- `Update`, likewise.
  unfoldable pub update : (FeedEntry → Text) → W → Published × W
  unfolding with_client update_feed
  update now w = with_client (λ auth entry v. update_feed (now entry) auth entry v) w

  -- `Delete`.
  unfoldable pub delete_all : W → Published × W
  unfolding with_client delete_feed
  delete_all w = with_client (λ auth entry v. delete_feed auth entry v) w

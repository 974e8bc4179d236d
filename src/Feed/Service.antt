-- ===== src/Feed/Service.antt =====
-- `Service`, `New` and the answers that need no database, of feed/feed.go.
use baldsky.Common.{
  Text, List, [], ◌∷◌, ◌++◌, Option, none, some, codes, text_eq, if◌then◌else◌, map,
}

pub record FeedEntry : Type 0 where
  pub short_name : Text
  pub display_name : Text
  pub description : Text
  pub collection_name : Text
  pub link_label : Text
  pub link_url : Text

-- The map from short names to entries lists each key once.
abbrev pub FeedMap : Type 0
FeedMap = List (Text × FeedEntry)

-- `feeds[k] = e`.
unfoldable pub set_feed : Text → FeedEntry → FeedMap → FeedMap
set_feed k e [] = (k, e) ∷ []
set_feed k e ((j, f) ∷ m) = if text_eq j k then (k, e) ∷ m else (j, f) ∷ set_feed k e m

-- `entry, ok := feeds[k]`.
unfoldable pub find_feed : Text → FeedMap → Option FeedEntry
find_feed k [] = none
find_feed k ((j, f) ∷ m) = if text_eq j k then some f else find_feed k m

-- The fields of `Service` but the querier, which the operations take, and the clock, whose reading
-- they take.
pub record Service : Type 0 where
  pub service_did : Text
  pub hostname : Text
  pub publisher_did : Text
  pub did_context : Text
  pub service_id : Text
  pub feeds : FeedMap
  pub pds : Text
  pub publisher_identifier : Text
  pub publisher_password : Text
  pub user_agent : Text

unfoldable pub add_entries : FeedMap → List FeedEntry → FeedMap
add_entries feeds [] = feeds
add_entries feeds (e ∷ es) = add_entries (set_feed e.short_name e feeds) es

-- `New` without options.
unfoldable pub new : Text → Text → Text → Text → Text → List FeedEntry → Service
unfolding add_entries set_feed
new service_did hostname publisher_did did_context service_id entries = record {
  service_did = service_did;
  hostname = hostname;
  publisher_did = publisher_did;
  did_context = did_context;
  service_id = service_id;
  feeds = add_entries [] entries;
  pds = [];
  publisher_identifier = [];
  publisher_password = [];
  user_agent = [];
}

-- The option `WithPublisher`.
unfoldable pub with_publisher : Text → Text → Text → Text → Service → Service
with_publisher pds identifier password user_agent s = record s {
  pds = pds;
  publisher_identifier = identifier;
  publisher_password = password;
  user_agent = user_agent;
}

pub record DidServiceEntry : Type 0 where
  pub id : Text
  pub kind : Text
  pub service_endpoint : Text

pub record DidDocument : Type 0 where
  pub context : List Text
  pub id : Text
  pub service : List DidServiceEntry

unfoldable pub get_did_document : Service → DidDocument
get_did_document s = record {
  context = s.did_context ∷ [];
  id = s.service_did;
  service =
      record {
        id = s.service_id;
        kind = codes "BskyFeedGenerator";
        service_endpoint = codes "https://" ++ s.hostname;
      }
      ∷ [];
}

unfoldable pub feed_generator_uri : Text → Text → Text
feed_generator_uri publisher_did short_name =
    codes "at://" ++ (publisher_did ++ (codes "/app.bsky.feed.generator/" ++ short_name))

pub record FeedDescriptionEntry : Type 0 where
  pub uri : Text
  pub display_name : Text
  pub description : Text

pub record FeedDescription : Type 0 where
  pub did : Text
  pub feeds : List FeedDescriptionEntry

abbrev pub describe_entry : Text → Text × FeedEntry → FeedDescriptionEntry
describe_entry publisher_did (k, f) = record {
  uri = feed_generator_uri publisher_did f.short_name;
  display_name = f.display_name;
  description = f.description;
}

-- Go ranges over the map in any order; here it is the order of the list.
unfoldable pub get_feed_description : Service → FeedDescription
unfolding feed_generator_uri
get_feed_description s = record {
  did = s.service_did;
  feeds = map (describe_entry s.publisher_did) s.feeds;
}

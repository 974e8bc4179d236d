-- ===== src/FeedCommands/Repository.antt =====
-- What the commands of cmd/feed.go leave in the publisher's repository.
use baldsky.Common.{Text, List, codes, none, some, ◌&&◌, if◌then◌else◌, text_eq, ◌≡◌, refl}
use baldsky.Config.{Config}
use baldsky.Serve.{feed_entries}
use baldsky.Feed.Service
use baldsky.Feed.Entries.{Named, last_named, new-Named, find_feed-new}
use baldsky.Feed.Service.{FeedEntry, FeedMap, find_feed}
use baldsky.Feed.Publish.{Pds, Published, generator, publish, update, delete_all}
use baldsky.Feed.Publish.Effects.{LawfulPds, Records, wanted}
use baldsky.Feed.Publish.Performed.{
  Verb, publishing, updating, deleting, perform, effect_of, perform-Done,
}
use baldsky.FeedCommands.{
  Output, service_of, report, run_publish_feed, run_update_feed, run_delete_feed,
}

service_of-Named : {R : Type 0} (cfg : Config R) → Named (service_of cfg).feeds
unfolding service_of Service.with_publisher
service_of-Named cfg =
    new-Named cfg.server.service_did cfg.server.hostname cfg.server.publisher_did
      cfg.server.did_context cfg.server.service_id (feed_entries cfg.pipelines)

find_feed-service_of :
    {R : Type 0} (cfg : Config R) (k : Text)
    → find_feed k (service_of cfg).feeds ≡ last_named k (feed_entries cfg.pipelines) none
unfolding service_of Service.with_publisher
find_feed-service_of cfg k =
    find_feed-new cfg.server.service_did cfg.server.hostname cfg.server.publisher_did
      cfg.server.did_context cfg.server.service_id (feed_entries cfg.pipelines) k

publisher_did-service_of :
    {R : Type 0} (cfg : Config R) → (service_of cfg).publisher_did ≡ cfg.server.publisher_did
unfolding service_of Service.with_publisher Service.new
publisher_did-service_of cfg = refl

-- A command that returns no error has been told so by the service.
reported :
    {W : Type 0} (verb done : Text) (w' : W) (lines : List Text) (o : Published × W)
    → report verb done o ≡ ((lines, none), w')
    → (uris : List (Text × Text)) × (o ≡ ((uris, none), w'))
reported verb done w' lines ((uris, some e), v) h = cc
reported verb done w' lines ((uris, none), v) h = (uris, cc)

module _ {R W Auth : Type 0} (pds : Pds W Auth) (cfg : Config R) where
  -- The three commands.
  abbrev pub run_feed : Verb → (FeedEntry → Text) → W → Output × W
  run_feed publishing now w = run_publish_feed pds now (some cfg) w
  run_feed updating now w = run_update_feed pds now (some cfg) w
  run_feed deleting now w = run_delete_feed pds (some cfg) w

  -- Under the publisher's DID and the collection of feed generators, the record of a key is the one
  -- of the last enabled pipeline of that short name, where that is a feed generator: its description
  -- after `publish` and `update`, none after `delete`. All others are as before.
  abbrev pub Arranged : Verb → (FeedEntry → Text) → Records → Records → Type 0
  Arranged verb now before after =
      (r c k : Text)
      → after r c k ≡ (
          if text_eq cfg.server.publisher_did r && text_eq generator c
          then wanted (effect_of pds (service_of cfg) verb now)
              (last_named k (feed_entries cfg.pipelines) none) (before r c k)
          else before r c k)

  performed :
      (verb : Verb) (now : FeedEntry → Text) (w w' : W) (lines : List Text)
      → run_feed verb now w ≡ ((lines, none), w')
      → (uris : List (Text × Text)) × (perform pds (service_of cfg) verb now w ≡ ((uris, none), w'))
  unfolding run_publish_feed run_update_feed run_delete_feed
  performed publishing now w w' lines h =
      reported (codes "publish") (codes "published") w' lines (publish pds (service_of cfg) now w) h
  performed updating now w w' lines h =
      reported (codes "update") (codes "updated") w' lines (update pds (service_of cfg) now w) h
  performed deleting now w w' lines h =
      reported (codes "delete") (codes "deleted") w' lines (delete_all pds (service_of cfg) w) h

  -- If a PDS does what it answers to have done, and `publish feed`, `update feed` or `delete feed`
  -- returns no error, then the repository holds for each short name of an enabled pipeline, where the
  -- last pipeline of that name is a feed generator, the description of that pipeline, or nothing
  -- after `delete feed`, and all other records are as before.
  pub run_feed-Arranged :
      (lawful : LawfulPds pds) (verb : Verb) (now : FeedEntry → Text) (w w' : W) (lines : List Text)
      → run_feed verb now w ≡ ((lines, none), w')
      → Arranged verb now (lawful.stored w) (lawful.stored w')
  run_feed-Arranged lawful verb now w w' lines h r c k =
      let (uris, q) = performed verb now w w' lines h in
      let holds =
        perform-Done pds (service_of cfg) lawful verb now w w' uris (service_of-Named cfg) q r c
          k in
      rw (publisher_did-service_of cfg, find_feed-service_of cfg k) at holds

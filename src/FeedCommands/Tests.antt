-- ===== src/FeedCommands/Tests.antt =====
-- The commands of cmd/feed.go at concrete inputs.
use baldsky.Common.{
  List, Text, [], ◌∷◌, Option, none, some, codes, text_eq, ◌≡◌, refl, sym, ap, ok, ℕ, ◌&&◌,
  if◌then◌else◌, ◌++◌,
}
use baldsky.Cache.{put}
use baldsky.Feed.Service.{FeedEntry, feed_generator_uri}
use baldsky.Feed.Service
use baldsky.Feed.Publish.{delete_all, delete_feed, each_feed, with_client}
use baldsky.Feed.Publish.Tests.{pds}
use baldsky.Feed.Publish.{Pds, FeedGenerator, publish_feed, publish, build_description}
use baldsky.Feed.Publish.Effects.{Records, LawfulPds}
use baldsky.Feed.Publish.Performed.{publishing}
use baldsky.FeedCommands.Repository.{run_feed, Arranged, run_feed-Arranged}
use baldsky.Serve.{feed_entries}
use baldsky.Serve.Tests.{config}
use baldsky.FeedCommands.{
  Output, run_publish_feed, service_of, build_user_agent, run_delete_feed, Printed,
  run_delete_feed-feed_generator_uri,
}

abbrev printed : List Text
printed = codes "[bald] deleted feed generator: at://did:plc:me/app.bsky.feed.generator/bald" ∷ []

deleted_run : run_delete_feed pds (some config) 0 ≡ ((printed, none), 1)
unfolding run_delete_feed service_of build_user_agent delete_all with_client each_feed delete_feed
    feed_generator_uri text_eq put feed_entries Service.new Service.with_publisher
deleted_run = refl

run_delete_feed-feed_generator_uri_example :
    Printed printed (service_of config).publisher_did (service_of config).feeds
run_delete_feed-feed_generator_uri_example =
    run_delete_feed-feed_generator_uri pds config 0 1 printed deleted_run

-- A PDS whose state is the map of its records.
abbrev set_record : Text → Text → Text → Option FeedGenerator → Records → Records
set_record repo collection key value before = λ r c k.
    if text_eq repo r && (text_eq collection c && text_eq key k) then value else before r c k

abbrev records_pds : Pds Records ℕ
records_pds = record {
  create_session = λ identifier password w. (ok 1, w);
  create_record =
      λ auth repo collection rkey g w. (ok rkey, set_record repo collection rkey (some g) w);
  get_record = λ auth collection repo rkey w. (ok none, w);
  put_record =
      λ auth repo collection rkey swap g w. (ok rkey, set_record repo collection rkey (some g) w);
  delete_record = λ auth repo collection rkey w. (none, set_record repo collection rkey none w);
}

abbrev records_pds_lawful : LawfulPds records_pds
records_pds_lawful = record {
  stored = λ w. w;
  session_keeps = λ identifier password w. refl;
  get_keeps = λ auth collection repo key w. refl;
  created = λ auth repo collection key g w w' uri e r c k. ap (λ v. v.1 r c k) (sym e);
  replaced = λ auth repo collection key swap g w w' uri e r c k. ap (λ v. v.1 r c k) (sym e);
  removed = λ auth repo collection key w w' e r c k. ap (λ v. v.1 r c k) (sym e);
}

abbrev no_records : Records
no_records = λ r c k. none

-- The clock shows another time at each feed.
abbrev clock : FeedEntry → Text
clock entry = codes "at " ++ entry.short_name

abbrev publish_outcome : Output × Records
publish_outcome = run_feed records_pds config publishing clock no_records

published_lines :
    publish_outcome
    ≡ ((codes "[bald] published feed generator: bald" ∷ [], none), publish_outcome.1)
unfolding run_publish_feed service_of build_user_agent publish with_client each_feed publish_feed
    text_eq put feed_entries Service.new Service.with_publisher build_description
published_lines = refl

run_feed-Arranged_example :
    Arranged records_pds config publishing clock no_records publish_outcome.1
run_feed-Arranged_example =
    run_feed-Arranged records_pds config records_pds_lawful publishing clock no_records
      publish_outcome.1 (codes "[bald] published feed generator: bald" ∷ []) published_lines

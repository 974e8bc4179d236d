-- ===== src/FeedCommands.antt =====
-- The commands `publish feed`, `update feed` and `delete feed` of cmd/feed.go, and `BuildUserAgent`
-- of subscription/subscription.go.
pub mod Repository
mod Tests
use baldsky.Common.{
  Text, List, [], ◌∷◌, ◌++◌, Option, none, some, Bool, true, false, not, is_empty, codes, map,
  text_eq, text_eq_iff, if◌then◌else◌, Memᴰ, ◌≡◌, refl, ap, All, All-imp, Bool-cases, inl, inr,
}
use baldsky.Cache.{find}
use baldsky.Config.{Config}
use baldsky.Serve.{feed_entries}
use baldsky.Feed.Service
use baldsky.Feed.Service.{FeedEntry, FeedMap, with_publisher, feed_generator_uri}
use baldsky.Feed.Publish.{Pds, Published, PublishError, publish, update, delete_all, generator}
use baldsky.Feed.Publish.Records.{Recorded, delete_all-feed_generator_uri}

-- `version.Version`.
abbrev pub version : Text
version = codes "dev"

unfoldable pub build_user_agent : Text → Text → Text
build_user_agent name url =
    let ua = name ++ (codes "/" ++ version) in
    if not (is_empty url) then ua ++ (codes " (+" ++ (url ++ codes ")")) else ua

-- The service that the three commands make, which has no database.
unfoldable pub service_of : {R : Type 0} → Config R → Service.Service
unfolding build_user_agent
service_of cfg =
    with_publisher cfg.auth.pds cfg.auth.identifier cfg.auth.password
      (build_user_agent cfg.server.user_agent cfg.server.user_agent_url)
      (Service.new cfg.server.service_did cfg.server.hostname cfg.server.publisher_did
        cfg.server.did_context cfg.server.service_id (feed_entries cfg.pipelines))

pub data CommandError : Type 0 where
  config_error : CommandError
  feed_error : PublishError → CommandError

-- The lines that a command prints, and the error that it returns.
abbrev pub Output : Type 0
Output = List Text × Option CommandError

abbrev pub line_of : Text → Text × Text → Text
line_of done (short_name, uri) =
    codes "[" ++ (short_name ++ (codes "] " ++ (done ++ (codes " feed generator: " ++ uri))))

abbrev pub print_lines : Text → Text → List (Text × Text) → List Text
print_lines verb done [] = (codes "no enabled pipelines to " ++ verb) ∷ []
print_lines verb done (p ∷ ps) = map (line_of done) (p ∷ ps)

-- What follows the call of the service.
abbrev pub report : {W : Type 0} → Text → Text → Published × W → Output × W
report verb done ((uris, some e), w) = (([], some (feed_error e)), w)
report verb done ((uris, none), w) = ((print_lines verb done uris, none), w)

module _ {R W Auth : Type 0} (pds : Pds W Auth) where
  -- `none` is a configuration that cannot be read; `now` is what the clock shows at each feed.
  unfoldable pub run_publish_feed : (FeedEntry → Text) → Option (Config R) → W → Output × W
  run_publish_feed now none w = (([], some config_error), w)
  run_publish_feed now (some cfg) w =
      report (codes "publish") (codes "published") (publish pds (service_of cfg) now w)

  unfoldable pub run_update_feed : (FeedEntry → Text) → Option (Config R) → W → Output × W
  run_update_feed now none w = (([], some config_error), w)
  run_update_feed now (some cfg) w =
      report (codes "update") (codes "updated") (update pds (service_of cfg) now w)

  unfoldable pub run_delete_feed : Option (Config R) → W → Output × W
  run_delete_feed none w = (([], some config_error), w)
  run_delete_feed (some cfg) w =
      report (codes "delete") (codes "deleted") (delete_all pds (service_of cfg) w)

found_printed :
    (done k uri : Text) (m : List (Text × Text))
    → find k m ≡ some uri
    → Memᴰ (line_of done (k, uri)) (map (line_of done) m)
unfolding find
found_printed done k uri [] h = cc
found_printed done k uri ((j, v) ∷ m) h = elim (Bool-cases (text_eq j k)) [
  | inl e ↦
      let same : j ≡ k = (text_eq_iff j k).0 e in
      let value : v ≡ uri = let q = rw e at h in cc in Memᴰ.head (rw (same, value))
  | inr e ↦ Memᴰ.tail (found_printed done k uri m (rw e at h))
]

lines_printed :
    (verb done k uri : Text) (m : List (Text × Text))
    → find k m ≡ some uri
    → Memᴰ (line_of done (k, uri)) (print_lines verb done m)
unfolding find
lines_printed verb done k uri [] h = cc
lines_printed verb done k uri (p ∷ m) h = found_printed done k uri (p ∷ m) h

-- Each feed generator of the service has its line.
abbrev pub Printed : List Text → Text → FeedMap → Type 0
Printed lines publisher_did feeds =
    All
      (λ e.
        e.1.collection_name ≡ generator
        → Memᴰ
            (line_of (codes "deleted")
              (e.1.short_name, feed_generator_uri publisher_did e.1.short_name))
            lines)
      feeds

module _ {R W Auth : Type 0} (pds : Pds W Auth) (cfg : Config R) where
  report_lem :
      (w w' : W) (lines : List Text) (o : Published × W)
      → delete_all pds (service_of cfg) w ≡ o
      → report (codes "delete") (codes "deleted") o ≡ ((lines, none), w')
      → Printed lines (service_of cfg).publisher_did (service_of cfg).feeds
  report_lem w w' lines ((uris, some e), v) q h = cc
  report_lem w w' lines ((uris, none), v) q h =
      let printed : print_lines (codes "delete") (codes "deleted") uris ≡ lines = cc in
      rw (← printed) (
        All-imp
          (λ e r k. lines_printed (codes "delete") (codes "deleted") e.1.short_name _ uris (r k))
          (service_of cfg).feeds (delete_all-feed_generator_uri pds (service_of cfg) w v uris q).1)

  -- If `delete feed` returns no error, it has printed a line for each feed generator among the feeds
  -- of the service, with the URI that the service advertises for it.
  pub run_delete_feed-feed_generator_uri :
      (w w' : W) (lines : List Text)
      → run_delete_feed pds (some cfg) w ≡ ((lines, none), w')
      → Printed lines (service_of cfg).publisher_did (service_of cfg).feeds
  unfolding run_delete_feed
  run_delete_feed-feed_generator_uri w w' lines h =
      report_lem w w' lines (delete_all pds (service_of cfg) w) refl h

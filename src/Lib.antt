-- ===== src/Lib.antt =====
-- baldsky is a feed generator for Bluesky. It reads the commits of the network from a firehose,
-- keeps the posts that match the keyword pipelines of its configuration in PostgreSQL, and
-- serves each pipeline as a feed over HTTP. One process may do all of it, or a publisher passes
-- the commits on to workers over NATS.
--
-- The parts, and the files that model them:
--
-- * Pipelines, subscription/subscription.go: `NewPipeline` is Pipeline/Build (`new_pipeline`),
--   its regular expressions Pipeline/Regexp (`keyword_pattern`, matched by backtracking), and
--   `matches`, `MatchesPost` and `shouldInsert` Pipeline/Match.
-- * Events, subscription/subscription.go: `buildURI` is Ingest/Uri, and `ProcessEvent`,
--   `handleDelete` and `handleCreate` are Ingest/Processor, over a state that the stores of the
--   pipelines change.
-- * Commits, Ingest/Commit: `HandleCommit` of subscription/subscription.go, `handleCommit` of
--   publisher/publisher.go, and the message handler of `Run` of worker/worker.go.
-- * The firehose, Ingest/Stream: `Listen` and `subscribe` of subscription/subscription.go and
--   `Run` of firehose/firehose.go as a step relation on the stores, the stream, the flag
--   `connected` and the handlers that run. A handler has left a `Program`, the calls of the
--   stores that `ProcessEvent` still makes; each call is a step of its own, so that handlers
--   interleave between them and the process may end there. `received` and `handled` are
--   histories, which no step reads. Ingest/Stream/Stores has the program of `ProcessEvent`.
--   Ingest/Stream/Publisher makes publisher/publisher.go an instance of it, with the calls of
--   NATS in Ingest/Stream/Sending, and Ingest/Worker
--   has `Run` of worker/worker.go. Ingest/Stream/Address is `FirehoseURL` of atproto/atproto.go.
-- * The database, db/gen and db/schema: the tables are Db/Tables and the queries Db/Queries. A
--   table is the list of its rows; a schedule says which of the queries to come the database
--   fails. Db/Connect has `New` and `Migrate` of db/postgres.go. Ingest/Rows tells what an event
--   does to the table of posts without the table, and Ingest/Stream/Content what the
--   subscription makes of the table, in both of which the clock is read at each insertion.
--   Ingest/Rows/Served leads from an event to the pages of a feed.
-- * The feed service, feed/feed.go: Feed/Service has its state, Feed/Cursor the cursors of
--   pages, Feed/Skeleton `GetFeedPage`, and Feed/Store the calls of pipelines, firehose and
--   server. Feed/Publish has `BuildDescription`, `Publish`, `Update` and `Delete`, with the
--   description's text in UTF-8. Feed/Metrics has `Run` of feed/metrics.go over the events of
--   the channel, and Feed/Views the metrics service as a step relation on the channel, the
--   database and what `Run` holds, with the accepted and the written events as histories.
-- * The cache, cache/cache.go, is Cache: each operation under the lock is one step, and so is
--   one tick of each of the two cleanup loops. RateLimiter models server/ratelimit.go over it.
-- * The server, server/server.go: Server/Types has its state and requests, Server/Handlers the
--   handlers, Server/Middleware the rate limit, the bearer token and the table of routes,
--   Server/Run `Run` as a step relation on the requests, the limiter's cleanup and the end of
--   the server, and Server/Build `New` with its options and those that cmd/serve.go passes.
-- * The commands: Purge models `findStalePosts` of cmd/purge.go, and Purge/Run `runPurge` and
--   `deletePost`. Serve has the feeds and pipelines that cmd/serve.go makes of the
--   configuration, and Serve/Roles what it starts. FeedCommands models cmd/feed.go, with what
--   the commands leave on the PDS in FeedCommands/Repository, and Config config/config.go;
--   Config/Defaults has `initConfig` of cmd/root.go. Serve/Roles/Names is about the names of the
--   roles, and Serve/Wiring what they are constructed with. Logger is logger/logger.go.
--
-- Common has what they share: texts as lists of runes with the functions of Go's `strings` that
-- the program calls, signed integers, results, and a stable insertion sort.
--
-- Bounds. The loops of the program run over lists, and are recursion on them, but for the pages
-- of the purge and those of the client of Feed/Walk, which is not part of the program: both ask
-- for pages on fuel, and more fuel than the feed has posts is enough, since each page but the
-- last has a post. The batches of a page are bounded by its length. Numbers have no bound in the
-- model, but those that `Atoi` reads, which have 64 bits; the page limit, which the program
-- narrows to 32 bits, is read by it. Times are texts in RFC 3339 or nanoseconds, and each
-- operation takes the readings of the clock.
--
-- The runs of the subscription have no bound: a state is any that finitely many steps reach. The
-- queue of the scheduler is not seen: an event counts as received when a worker takes it. `New`
-- of db/postgres.go runs over the list of the cases that its `select` takes, and a ping that
-- hangs, which no context ends, leaves it without a result.
--
-- Parameters. `unicode.ToLower` and the size limit of `regexp.Compile` (`Runtime`), the parser
-- of CAR files (`CarReader`), CBOR, the NATS connection (`NatsConn`), the PDS of the publisher
-- (`Pds`, with what is relied on of its answers, `LawfulPds`), the API of Bluesky (`GetPosts`),
-- the limiter of golang.org/x/time/rate (`RatePackage`) and the order of texts in PostgreSQL
-- (`Collation`, a strict total order, with the order by bytes as an instance) are arguments of
-- the definitions. So are the relay (`Setup.next`, with the promise `Relay`), what lies outside
-- the purge (`Surroundings`), what the database and NATS answer to `serve` (`Outside`) and to
-- `New` (`Driver`), the migration libraries (`Migrations`), viper (`Viper`, with what it
-- documents, `LawfulViper`) and net/url (`UrlPackage`).
--
-- Not modelled: the router, CORS and the HTTP server behind them; the header of the request to
-- the firehose; what the drain of a worker still delivers; how viper reads files and the
-- environment; signals and the end of the process; what is logged.
pub mod Common
pub mod Pipeline
pub mod Db
pub mod Feed
pub mod Ingest
pub mod Cache
pub mod RateLimiter
pub mod Server
pub mod Purge
pub mod Config
pub mod Serve
pub mod FeedCommands
pub mod Logger

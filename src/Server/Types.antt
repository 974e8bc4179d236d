-- ===== src/Server/Types.antt =====
-- The state of `Server` of server/server.go, its requests and its responses.
use baldsky.Common.{Text, List, Option, Bool, ℕ}
use baldsky.Db.Tables.{Database}
use baldsky.Feed.Service.{Service, DidDocument, FeedDescription}
use baldsky.Feed.Skeleton.{FeedResponse}
use baldsky.Feed.Views.{FeedStatsResponse}
use baldsky.RateLimiter.{RateLimiter}

-- The values that the handlers write as JSON.
pub data Body : Type 0 where
  no_body : Body
  null : Body
  error_body : Text → Body
  did_document : DidDocument → Body
  description : FeedDescription → Body
  skeleton : FeedResponse → Body
  health : Bool → Bool → Bool → Body
  feed_stats : FeedStatsResponse → Body

pub record Response : Type 0 where
  pub status : ℕ
  pub body : Body

-- What the handlers and the middleware read of a request.
pub record Request : Type 0 where
  pub remote_addr : Text
  pub authorization : Text
  pub feed : Text
  pub limit : Text
  pub cursor : Text

-- The route that the router finds, with its variable.
pub data Route : Type 0 where
  did_json : Route
  healthz : Route
  describe_feed_generator : Route
  get_feed_skeleton : Route
  admin_delete_post : Text → Route
  admin_feed_metrics : Text → Route

-- The configuration and the checkers: a firehose or worker is whether it is connected.
pub record Server : Type 0 where
  pub svc : Service
  pub firehose : Option Bool
  pub workers : List Bool
  pub admin_token : Text
  -- the capacity of the channel of views, if there is a metrics service
  pub metrics : Option ℕ

-- What the requests change: the database and whether it answers a ping, the rate limiter and the
-- channel of views.
pub record World (R L : Type 0) : Type 0 where
  pub db : Database
  pub ping : Bool
  pub limiter : RateLimiter R L
  pub views : List Text

-- ===== src/Serve/Wiring.antt =====
-- What `serve` of cmd/serve.go constructs: `NewFirehoseConn` of firehose/firehose.go, and `New` of
-- publisher/publisher.go, worker/worker.go and subscription/subscription.go, with the arguments that
-- `serve` gives them. The stores, the dialer and the processors are those of the one process.
use baldsky.Common.{Text, Result, ok, err, Error, Option, none, some, ℤ, ℕ, ◌≡◌}
use baldsky.Config.{Config, NatsConfig}
use baldsky.FeedCommands.{build_user_agent}
use baldsky.Pipeline.Build.{Runtime, PipelineStore}
use baldsky.Serve.Roles.{Outside, publisher_name, worker_name}

pub record FirehoseConn : Type 0 where
  pub service : Text
  pub user_agent : Text
  pub concurrency : ℤ
  pub queue_size : ℤ

-- The connection to NATS, which reconnects without an end.
pub record Connection : Type 0 where
  pub url : Text
  pub name : Text
  pub reconnect_wait : ℤ

pub record Publisher : Type 0 where
  pub firehose : FirehoseConn
  pub nc : Connection
  pub subject : Text
  pub reconnect_delay : ℤ
  pub flush_timeout : ℤ

pub record Worker : Type 0 where
  pub nc : Connection
  pub name : Text
  pub subject : Text
  pub queue_group : Text
  pub service : Text

pub record Subscription : Type 0 where
  pub firehose : FirehoseConn
  pub reconnect_delay : ℤ

abbrev pub connection : NatsConfig → Text → Connection
connection nats_cfg name = record {
  url = nats_cfg.url;
  name = name;
  reconnect_wait = nats_cfg.reconnect_wait;
}

-- `none` is a connection that stands.
unfoldable pub new_publisher :
    Option Error → FirehoseConn → NatsConfig → ℤ → ℤ → Text → Result Error Publisher
new_publisher (some e) firehose nats_cfg reconnect_delay flush_timeout name = err e
new_publisher none firehose nats_cfg reconnect_delay flush_timeout name = ok (record {
  firehose = firehose;
  nc = connection nats_cfg name;
  subject = nats_cfg.subject;
  reconnect_delay = reconnect_delay;
  flush_timeout = flush_timeout;
})

unfoldable pub new_worker : Option Error → Text → NatsConfig → Text → Result Error Worker
new_worker (some e) service nats_cfg name = err e
new_worker none service nats_cfg name = ok (record {
  nc = connection nats_cfg name;
  name = name;
  subject = nats_cfg.subject;
  queue_group = nats_cfg.queue_group;
  service = service;
})

module _ {R S : Type 0} (rt : Runtime) (store : PipelineStore S) (cfg : Config R)
    (out : Outside) where
  abbrev pub firehose_conn : FirehoseConn
  firehose_conn = record {
    service = cfg.subscription.endpoint;
    user_agent = build_user_agent cfg.server.user_agent cfg.server.user_agent_url;
    concurrency = cfg.subscription.concurrency;
    queue_size = cfg.subscription.queue_size;
  }

  unfoldable pub make_publisher : Result Error Publisher
  unfolding new_publisher
  make_publisher =
      new_publisher (out.connect_nats (publisher_name rt store cfg out)) firehose_conn cfg.nats
        cfg.subscription.reconnect_delay cfg.publisher.flush_timeout
        (publisher_name rt store cfg out)

  unfoldable pub make_worker : ℕ → Result Error Worker
  unfolding new_worker
  make_worker i =
      new_worker (out.connect_nats (worker_name rt store cfg out i)) cfg.subscription.endpoint
        cfg.nats (worker_name rt store cfg out i)

  unfoldable pub make_subscription : Subscription
  make_subscription = record {
    firehose = firehose_conn;
    reconnect_delay = cfg.subscription.reconnect_delay;
  }

  -- The publisher and each worker meet: at one NATS server, on one subject, and on one row of the
  -- cursors, which is also that of the standalone subscription.
  make_publisher-make_worker :
      (p : Publisher) (i : ℕ) (w : Worker)
      → make_publisher ≡ ok p
      → make_worker i ≡ ok w
      → (p.nc.url ≡ w.nc.url)
        × (p.subject ≡ w.subject)
        × (p.firehose.service ≡ w.service)
        × (p.firehose ≡ make_subscription.firehose)
  unfolding make_publisher make_worker make_subscription
  make_publisher-make_worker p i w h k =
      meet (out.connect_nats (publisher_name rt store cfg out))
        (out.connect_nats (worker_name rt store cfg out i)) h k
    where
      meet :
          (a b : Option Error)
          → new_publisher a firehose_conn cfg.nats cfg.subscription.reconnect_delay
              cfg.publisher.flush_timeout
              (publisher_name rt store cfg out)
            ≡ ok p
          → new_worker b cfg.subscription.endpoint cfg.nats (worker_name rt store cfg out i) ≡ ok w
          → (p.nc.url ≡ w.nc.url)
            × (p.subject ≡ w.subject)
            × (p.firehose.service ≡ w.service)
            × (p.firehose ≡ make_subscription.firehose)
      meet (some e) b h' k' = cc
      meet none (some e) h' k' = cc
      meet none none h' k' = (cc, cc, cc, cc)

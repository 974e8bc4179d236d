-- ===== src/Serve/Tests.antt =====
-- The theorems on cmd/serve.go at concrete inputs.
use baldsky.Common.{
  [], ◌∷◌, true, false, none, some, ℕ, pos, failed, text_eq, map, codes, ◌≡◌, refl, if◌then◌else◌,
}
use baldsky.Pipeline.Build.{PipelineStore, new_pipeline, compile_all}
use baldsky.Pipeline.Rule.{built}
use baldsky.Pipeline.Tests.{ascii}
use baldsky.Common.Decimal.{show}
use baldsky.Config.{Config, PipelineConfig}
use baldsky.Serve.Roles.{
  metrics, publisher, worker, Outside, serve, start_roles, start_publisher, start_workers,
  worker_loop, start_subscription, start_server, worker_error,
}
use baldsky.Serve.Roles.Names.{names, DistinctNames, serve-DistinctNames}
use baldsky.Serve.Roles.Wanted.{StartsOf, wanted_roles, serve_lem}
use baldsky.Serve.{feed_entries, build_pipelines, pipeline_of, build_pipelines-feed_entries}

abbrev pub off_config : PipelineConfig
off_config = record {
  enabled = false;
  short_name = codes "hats";
  display_name = codes "Hats";
  description = [];
  collection_name = codes "app.bsky.feed.generator";
  link_label = [];
  link_url = [];
  keywords = codes "hat" ∷ [];
  exclude_keywords = [];
  context_keywords = [];
  context_words = [];
  block_dids = [];
  languages = [];
  require_media = false;
}

abbrev pub on_config : PipelineConfig
on_config = record off_config { enabled = true; short_name = codes "bald" }

abbrev pub silent : PipelineStore ℕ
silent = record { insert_post = λ f u c n. (n, none); delete_posts = λ us n. (n, none) }

build_pipelines-feed_entries_example :
    map
      (λ q. q.name)
      (built ascii (codes "bald") (codes "hat" ∷ []) [] [] [] [] [] false silent ∷ [])
    ≡ map (λ e. e.short_name) (feed_entries (off_config ∷ on_config ∷ []))
build_pipelines-feed_entries_example =
    build_pipelines-feed_entries ascii silent (off_config ∷ on_config ∷ [])
      (built ascii (codes "bald") (codes "hat" ∷ []) [] [] [] [] [] false silent ∷ [])
      (unfold build_pipelines pipeline_of new_pipeline compile_all in refl)

-- A configuration with a publisher and two workers.
abbrev pub config : Config ℕ
config = record {
  server = record {
    enabled = true;
    port = pos 8080;
    log_level = codes "info";
    hostname = codes "https://bald.example/";
    service_did = codes "did:web:bald.example";
    publisher_did = codes "did:plc:me";
    did_context = codes "https://www.w3.org/ns/did/v1";
    service_id = codes "#bsky_fg";
    user_agent = codes "baldsky";
    user_agent_url = [];
    admin_token = codes "secret";
    rate = 10;
    limit = pos 20;
    rate_max_age = pos 60;
  };
  auth = record { pds = codes "https://pds"; identifier = codes "me"; password = codes "pw" };
  database = record { dsn = codes "postgres"; reconnect_delay = pos 5 };
  pipelines = off_config ∷ on_config ∷ [];
  subscription = record {
    enabled = true;
    endpoint = codes "wss://bsky.network";
    reconnect_delay = pos 5;
    concurrency = pos 4;
    queue_size = pos 512;
  };
  nats = record {
    url = codes "nats://nats";
    subject = codes "commits";
    queue_group = codes "workers";
    reconnect_wait = pos 2;
    name_prefix = codes "b";
  };
  publisher = record { enabled = true; flush_timeout = pos 5 };
  worker = record { enabled = true; count = pos 2 };
}

-- NATS refuses the second worker.
abbrev outside : Outside
outside = record {
  connect_database = none;
  migrate = none;
  connect_nats = λ name. if text_eq name (codes "b-worker-1") then some failed else none;
}

second_worker : serve ascii silent config outside ≡ (
  metrics ∷ publisher (codes "b-publisher") ∷ worker (codes "b-worker-0") ∷ [],
  some (worker_error (codes "b-worker-1") failed),
)
unfolding serve start_roles start_publisher start_workers worker_loop start_subscription
    start_server text_eq build_pipelines pipeline_of new_pipeline compile_all show
second_worker = refl

serve_lem_example :
    StartsOf (wanted_roles ascii silent config outside) (serve ascii silent config outside)
serve_lem_example = serve_lem ascii silent config outside

serve-DistinctNames_example : DistinctNames (names (serve ascii silent config outside).0)
serve-DistinctNames_example = serve-DistinctNames ascii silent config outside

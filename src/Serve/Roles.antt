-- ===== src/Serve/Roles.antt =====
-- The roles that `serve` of cmd/serve.go starts, in the order in which it starts them.
pub mod Wanted
pub mod Names
use baldsky.Common.{
  Text, List, [], ◌∷◌, ◌++◌, Option, none, some, Bool, true, false, not, ◌&&◌, ◌||◌, Result, ok,
  err, Error, ℕ, zero, suc, ◌+◌, pos_part, is_empty, codes, if◌then◌else◌, ◌≡◌, refl, length,
}
use baldsky.Common.Decimal.{show}
use baldsky.Config.{Config}
use baldsky.Pipeline.Build.{Runtime, BuildError, PipelineStore}
use baldsky.Serve.{build_pipelines}

-- What is started: goroutines, and at last the server, with whether it has a firehose to check and
-- the number of its workers.
pub data Role : Type 0 where
  metrics : Role
  publisher : Text → Role
  worker : Text → Role
  subscription : Role
  server : Bool → ℕ → Role

pub data ServeError : Type 0 where
  no_roles : ServeError
  nats_url_required : ServeError
  database_error : Error → ServeError
  migration_error : Error → ServeError
  user_agent_required : ServeError
  publisher_error : Error → ServeError
  pipeline_error : BuildError → ServeError
  worker_error : Text → Error → ServeError

-- What the database and NATS answer: the errors of `db.New` and `Migrate`, and that of a connection
-- under a name.
pub record Outside : Type 0 where
  pub connect_database : Option Error
  pub migrate : Option Error
  pub connect_nats : Text → Option Error

-- What was started, and the error that `serve` returned, if it did.
abbrev pub Trace : Type 0
Trace = List Role × Option ServeError

abbrev pub unless_failed : Trace → (List Role → Trace) → Trace
unless_failed (roles, some e) next = (roles, some e)
unless_failed (roles, none) next = next roles

abbrev pub start : List Role → Role → Trace
start roles role = (roles ++ role ∷ [], none)

module _ {R S : Type 0} (rt : Runtime) (store : PipelineStore S) (cfg : Config R)
    (out : Outside) where
  abbrev pub publisher_name : Text
  publisher_name =
      if not (is_empty cfg.nats.name_prefix)
      then cfg.nats.name_prefix ++ codes "-publisher"
      else codes "publisher"

  abbrev pub worker_name : ℕ → Text
  worker_name i =
      if not (is_empty cfg.nats.name_prefix)
      then cfg.nats.name_prefix ++ (codes "-worker-" ++ show i)
      else codes "worker-" ++ show i

  abbrev pub started_or : (Error → ServeError) → Option Error → Role → List Role → Trace
  started_or wrap (some e) role roles = (roles, some (wrap e))
  started_or wrap none role roles = start roles role

  unfoldable pub start_publisher : List Role → Trace
  start_publisher roles =
      if cfg.publisher.enabled
      then started_or publisher_error (out.connect_nats publisher_name) (publisher publisher_name)
          roles
      else (roles, none)

  -- The loop over the workers: how many are left, and the number of the next.
  unfoldable pub worker_loop : ℕ → ℕ → List Role → Trace
  worker_loop zero i roles = (roles, none)
  worker_loop (suc left) i roles =
      unless_failed
        (started_or (worker_error (worker_name i)) (out.connect_nats (worker_name i))
          (worker (worker_name i)) roles)
        (λ roles'. worker_loop left (i + 1) roles')

  abbrev pub with_pipelines :
      {A : Type 0} → Result BuildError A → List Role → (List Role → Trace) → Trace
  with_pipelines (err e) roles next = (roles, some (pipeline_error e))
  with_pipelines (ok pipelines) roles next = next roles

  unfoldable pub start_workers : List Role → Trace
  unfolding worker_loop
  start_workers roles =
      if cfg.worker.enabled
      then with_pipelines (build_pipelines rt store cfg.pipelines) roles
          (λ roles'. worker_loop (pos_part cfg.worker.count) 0 roles')
      else (roles, none)

  -- The standalone subscription runs if neither a publisher nor workers do.
  abbrev pub standalone : Bool
  standalone = cfg.subscription.enabled && (not cfg.publisher.enabled && not cfg.worker.enabled)

  unfoldable pub start_subscription : List Role → Trace
  start_subscription roles =
      if standalone
      then with_pipelines (build_pipelines rt store cfg.pipelines) roles
          (λ roles'. start roles' subscription)
      else (roles, none)

  abbrev pub worker_count : ℕ
  worker_count = if cfg.worker.enabled then pos_part cfg.worker.count else 0

  unfoldable pub start_server : List Role → Trace
  start_server roles =
      if not cfg.server.enabled
      then (roles, none)
      else start roles (server (standalone || cfg.publisher.enabled) worker_count)

  unfoldable pub start_roles : Trace
  unfolding start_publisher start_workers start_subscription start_server
  start_roles =
      if is_empty cfg.server.user_agent
      then ([], some user_agent_required)
      else unless_failed
          (unless_failed
            (unless_failed (start_publisher (metrics ∷ [])) (λ roles. start_workers roles))
            (λ roles. start_subscription roles))
          (λ roles. start_server roles)

  abbrev pub with_database : Option Error → Option Error → Trace
  with_database (some e) migrated = ([], some (database_error e))
  with_database none (some e) = ([], some (migration_error e))
  with_database none none = start_roles

  -- `serve`, once the configuration is read.
  unfoldable pub serve : Trace
  unfolding start_roles
  serve =
      if not cfg.server.enabled
        && (not cfg.subscription.enabled && (not cfg.publisher.enabled && not cfg.worker.enabled))
      then ([], some no_roles)
      else if (cfg.publisher.enabled || cfg.worker.enabled) && is_empty cfg.nats.url
      then ([], some nats_url_required)
      else with_database out.connect_database out.migrate

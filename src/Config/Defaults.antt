-- ===== src/Config/Defaults.antt =====
-- `initConfig` of cmd/root.go and `New` of config/config.go, over the calls of viper.
pub mod Missing
mod Tests
use baldsky.Common.{
  Text, List, [], ◌∷◌, Option, none, some, Bool, true, false, not, ℤ, pos, Result, ok, err, Error,
  is_empty, codes, if◌then◌else◌,
}
use baldsky.Config.{Config}

-- The defaults; a rate is written as a text.
pub data Value : Type 0 where
  flag : Bool → Value
  number : ℤ → Value
  decimal : Text → Value
  text : Text → Value
  texts : List Text → Value

-- The calls of viper, over its state `V`.
pub record Viper (V R : Type 0) : Type 0 where
  pub set_config_file : Text → V → V
  pub add_config_path : Text → V → V
  pub set_config_name : Text → V → V
  pub set_config_type : Text → V → V
  pub set_default : Text → Value → V → V
  pub set_env_prefix : Text → V → V
  pub set_env_key_replacer : Text → Text → V → V
  pub automatic_env : V → V
  pub read_in_config : V → V × Option Error
  pub unmarshal : V → Result Error (Config R)

abbrev pub defaults : List (Text × Value)
defaults =
    (codes "server.enabled", flag true)
    ∷ (codes "server.port", number (pos 8080))
    ∷ (codes "server.log_level", text (codes "info"))
    ∷ (codes "server.admin_token", text [])
    ∷ (codes "server.rate", decimal (codes "10.0"))
    ∷ (codes "server.limit", number (pos 20))
    ∷ (codes "server.rate_max_age", text (codes "3m"))
    ∷ (codes "database.dsn", text [])
    ∷ (codes "database.reconnect_delay", text (codes "5s"))
    ∷ (codes "feed.short_name", text [])
    ∷ (codes "feed.display_name", text [])
    ∷ (codes "feed.keywords", texts [])
    ∷ (codes "feed.did_context", text (codes "https://www.w3.org/ns/did/v1"))
    ∷ (codes "feed.service_id", text (codes "#bsky_fg"))
    ∷ (codes "feed.collection_name", text (codes "app.bsky.feed.generator"))
    ∷ (codes "subscription.enabled", flag true)
    ∷ (codes "subscription.endpoint", text (codes "wss://bsky.network"))
    ∷ (codes "subscription.reconnect_delay", text (codes "5s"))
    ∷ (codes "subscription.concurrency", number (pos 4))
    ∷ (codes "subscription.queue_size", number (pos 1000))
    ∷ (codes "auth.pds", text (codes "https://bsky.social"))
    ∷ (codes "auth.identifier", text [])
    ∷ (codes "auth.password", text [])
    ∷ (codes "nats.url", text [])
    ∷ (codes "nats.subject", text (codes "firehose.events"))
    ∷ (codes "nats.queue_group", text (codes "baldsky-workers"))
    ∷ (codes "nats.reconnect_wait", text (codes "2s"))
    ∷ (codes "nats.name_prefix", text (codes "baldsky"))
    ∷ (codes "publisher.enabled", flag false)
    ∷ (codes "publisher.flush_timeout", text (codes "5s"))
    ∷ (codes "worker.enabled", flag false)
    ∷ (codes "worker.count", number (pos 1))
    ∷ []

module _ {V R : Type 0} (viper : Viper V R) where
  unfoldable pub set_defaults : List (Text × Value) → V → V
  set_defaults [] v = v
  set_defaults ((k, value) ∷ ds) v = set_defaults ds (viper.set_default k value v)

  abbrev pub with_file : Text → Text → V → V
  with_file home cfg_file v =
      if not (is_empty cfg_file)
      then viper.set_config_file cfg_file v
      else let searched = if not (is_empty home) then viper.add_config_path home v else v in
        viper.set_config_type (codes "yaml")
          (viper.set_config_name (codes ".baldsky") (viper.add_config_path (codes ".") searched))

  -- `initConfig`, with the home directory, which is empty if there is none, and the flag `--config`.
  -- A file that cannot be read is only logged.
  unfoldable pub init_config : Text → Text → V → V
  unfolding set_defaults
  init_config home cfg_file v =
      (viper.read_in_config (
        viper.automatic_env (
          viper.set_env_key_replacer (codes ".") (codes "_") (
            viper.set_env_prefix (codes "BALDSKY")
              (set_defaults defaults (with_file home cfg_file v)))))).0

  -- `New`; `none` is a viper that is nil.
  unfoldable pub new : Error → Option V → Result Error (Config R)
  new not_initialized none = err not_initialized
  new not_initialized (some v) = viper.unmarshal v

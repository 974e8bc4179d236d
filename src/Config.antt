-- ===== src/Config.antt =====
-- The configuration of config/config.go, as `New` reads it. Durations are nanoseconds, and `R` is
-- the type of a rate.
pub mod Defaults
use baldsky.Common.{Text, List, Bool, ℤ}

pub record NatsConfig : Type 0 where
  pub url : Text
  pub subject : Text
  pub queue_group : Text
  pub reconnect_wait : ℤ
  pub name_prefix : Text

pub record PublisherConfig : Type 0 where
  pub enabled : Bool
  pub flush_timeout : ℤ

pub record WorkerConfig : Type 0 where
  pub enabled : Bool
  pub count : ℤ

pub record ServerConfig (R : Type 0) : Type 0 where
  pub enabled : Bool
  pub port : ℤ
  pub log_level : Text
  pub hostname : Text
  pub service_did : Text
  pub publisher_did : Text
  pub did_context : Text
  pub service_id : Text
  pub user_agent : Text
  pub user_agent_url : Text
  pub admin_token : Text
  pub rate : R
  pub limit : ℤ
  pub rate_max_age : ℤ

pub record AuthConfig : Type 0 where
  pub pds : Text
  pub identifier : Text
  pub password : Text

pub record DatabaseConfig : Type 0 where
  pub dsn : Text
  pub reconnect_delay : ℤ

pub record PipelineConfig : Type 0 where
  pub enabled : Bool
  pub short_name : Text
  pub display_name : Text
  pub description : Text
  pub collection_name : Text
  pub link_label : Text
  pub link_url : Text
  pub keywords : List Text
  pub exclude_keywords : List Text
  pub context_keywords : List Text
  pub context_words : List Text
  pub block_dids : List Text
  pub languages : List Text
  pub require_media : Bool

pub record SubscriptionConfig : Type 0 where
  pub enabled : Bool
  pub endpoint : Text
  pub reconnect_delay : ℤ
  pub concurrency : ℤ
  pub queue_size : ℤ

pub record Config (R : Type 0) : Type 0 where
  pub server : ServerConfig R
  pub auth : AuthConfig
  pub database : DatabaseConfig
  pub pipelines : List PipelineConfig
  pub subscription : SubscriptionConfig
  pub nats : NatsConfig
  pub publisher : PublisherConfig
  pub worker : WorkerConfig

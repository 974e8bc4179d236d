-- ===== src/Config/Defaults/Tests.antt =====
-- The defaults of cmd/root.go over a concrete viper.
use baldsky.Common.{
  Text, List, [], ◌∷◌, Option, none, some, ok, err, failed, codes, if◌then◌else◌, text_eq, ◌≡◌,
  refl, ap, sym, map, ℕ,
}
use baldsky.Config.{Config}
use baldsky.Config.Defaults.{Value, Viper, init_config, new}
use baldsky.Config.Defaults.Missing.{text_of, LawfulViper, init_config-get_did_document}
use baldsky.Feed.Service.{get_did_document}
use baldsky.FeedCommands.{service_of}
use baldsky.Serve.Tests.{config}

abbrev found : Text → List (Text × Value) → Option Value
found k [] = none
found k ((j, value) ∷ ds) = if text_eq j k then some value else found k ds

abbrev configured : List (Text × Value) → Config ℕ
configured ds = record config {
  server = record (config.server) {
    did_context = text_of (found (codes "server.did_context") ds);
    service_id = text_of (found (codes "server.service_id") ds);
  };
}

-- A viper that knows the defaults only.
abbrev defaults_only : Viper (List (Text × Value)) ℕ
defaults_only = record {
  set_config_file = λ file v. v;
  add_config_path = λ path v. v;
  set_config_name = λ name v. v;
  set_config_type = λ type v. v;
  set_default = λ k value v. (k, value) ∷ v;
  set_env_prefix = λ prefix v. v;
  set_env_key_replacer = λ old by v. v;
  automatic_env = λ v. v;
  read_in_config = λ v. (v, some failed);
  unmarshal = λ v. ok (configured v);
}

abbrev defaults_only_lawful : LawfulViper defaults_only
defaults_only_lawful = record {
  given = λ v k. none;
  default_of = λ v k. found k v;
  sets = λ j k value v. refl;
  keeps_file = λ file k v. refl;
  keeps_path = λ path k v. refl;
  keeps_name = λ name k v. refl;
  keeps_type = λ type k v. refl;
  keeps_prefix = λ prefix k v. refl;
  keeps_replacer = λ old by k v. refl;
  keeps_env = λ k v. refl;
  keeps_read = λ k v. refl;
  reads_context = λ v cfg e. ap (λ o. elim o [ ok c ↦ c.server.did_context | err x ↦ [] ]) (sym e);
  reads_id = λ v cfg e. ap (λ o. elim o [ ok c ↦ c.server.service_id | err x ↦ [] ]) (sym e);
}

abbrev read_config : Config ℕ
read_config = configured (init_config defaults_only (codes "/root") [] [])

init_config-get_did_document_example :
    ((get_did_document (service_of read_config)).context ≡ [] ∷ [])
    × (map (λ entry. entry.id) (get_did_document (service_of read_config)).service ≡ [] ∷ [])
unfolding new
init_config-get_did_document_example =
    init_config-get_did_document defaults_only defaults_only_lawful (codes "/root") [] [] failed
      read_config (λ k. refl) refl refl refl

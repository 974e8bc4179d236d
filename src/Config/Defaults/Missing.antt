-- ===== src/Config/Defaults/Missing.antt =====
-- What the defaults of cmd/root.go do not reach: the DID document of feed/feed.go.
use baldsky.Common.{
  Text, List, [], ◌∷◌, Option, none, some, ok, Error, is_empty, codes, if◌then◌else◌, text_eq, ◌≡◌,
  refl, ap, ◌∙◌, map, Bool-cases, inl, inr,
}
use baldsky.Config.{Config}
use baldsky.Config.Defaults.{
  Value, text, Viper, defaults, set_defaults, with_file, init_config, new,
}
use baldsky.Feed.Service.{DidDocument, get_did_document, with_publisher}
use baldsky.Feed.Service
use baldsky.FeedCommands.{service_of}

-- A text field that has no value is empty.
abbrev pub text_of : Option Value → Text
text_of (some (text t)) = t
text_of _ = []

abbrev pub or_else : Option Value → Option Value → Option Value
or_else none o = o
or_else (some v) o = some v

-- What viper documents: a key has the value of the environment or the file, else its default; only
-- `SetDefault` sets defaults; and `Unmarshal` reads each field under its section and its tag.
pub record LawfulViper {V R : Type 0} (viper : Viper V R) : Type 0 where
  pub given : V → Text → Option Value
  pub default_of : V → Text → Option Value
  pub sets :
      (j k : Text) (value : Value) (v : V)
      → default_of (viper.set_default j value v) k
        ≡ (if text_eq j k then some value else default_of v k)
  pub keeps_file :
      (file k : Text) (v : V) → default_of (viper.set_config_file file v) k ≡ default_of v k
  pub keeps_path :
      (path k : Text) (v : V) → default_of (viper.add_config_path path v) k ≡ default_of v k
  pub keeps_name :
      (name k : Text) (v : V) → default_of (viper.set_config_name name v) k ≡ default_of v k
  pub keeps_type :
      (type k : Text) (v : V) → default_of (viper.set_config_type type v) k ≡ default_of v k
  pub keeps_prefix :
      (prefix k : Text) (v : V) → default_of (viper.set_env_prefix prefix v) k ≡ default_of v k
  pub keeps_replacer :
      (old by k : Text) (v : V)
      → default_of (viper.set_env_key_replacer old by v) k ≡ default_of v k
  pub keeps_env : (k : Text) (v : V) → default_of (viper.automatic_env v) k ≡ default_of v k
  pub keeps_read : (k : Text) (v : V) → default_of (viper.read_in_config v).0 k ≡ default_of v k
  pub reads_context :
      (v : V) (cfg : Config R)
      → viper.unmarshal v ≡ ok cfg
      → cfg.server.did_context
        ≡ text_of (
            or_else
              (given v (codes "server.did_context"))
              (default_of v (codes "server.did_context")))
  pub reads_id :
      (v : V) (cfg : Config R)
      → viper.unmarshal v ≡ ok cfg
      → cfg.server.service_id
        ≡ text_of (
            or_else
              (given v (codes "server.service_id"))
              (default_of v (codes "server.service_id")))

-- The last value that a list of defaults sets for a key.
abbrev pub set_last : Text → List (Text × Value) → Option Value → Option Value
set_last k [] o = o
set_last k ((j, value) ∷ ds) o = set_last k ds (if text_eq j k then some value else o)

module _ {V R : Type 0} (viper : Viper V R) (lawful : LawfulViper viper) where
  set_defaults_lem :
      (k : Text) (ds : List (Text × Value)) (v : V)
      → lawful.default_of (set_defaults viper ds v) k ≡ set_last k ds (lawful.default_of v k)
  unfolding set_defaults
  set_defaults_lem k [] v = refl
  set_defaults_lem k ((j, value) ∷ ds) v =
      set_defaults_lem k ds (viper.set_default j value v)
      ∙ ap (set_last k ds) (lawful.sets j k value v)

  with_file_lem :
      (home cfg_file k : Text) (v : V)
      → lawful.default_of (with_file viper home cfg_file v) k ≡ lawful.default_of v k
  with_file_lem home cfg_file k v = elim (Bool-cases (is_empty cfg_file)) [
    | inr e ↦ rw e (lawful.keeps_file cfg_file k v)
    | inl e ↦ elim (Bool-cases (is_empty home)) [
      | inl f ↦
          rw (e, f) (lawful.keeps_type _ k _ ∙ lawful.keeps_name _ k _ ∙ lawful.keeps_path _ k _)
      | inr f ↦
          rw (e, f)
            (lawful.keeps_type _ k _
              ∙ lawful.keeps_name _ k _
              ∙ lawful.keeps_path _ k _
              ∙ lawful.keeps_path _ k _)
    ]
  ]

  init_config_lem :
      (home cfg_file k : Text) (v : V)
      → lawful.default_of (init_config viper home cfg_file v) k
        ≡ set_last k defaults (lawful.default_of v k)
  unfolding init_config
  init_config_lem home cfg_file k v =
      lawful.keeps_read k _
      ∙ lawful.keeps_env k _
      ∙ lawful.keeps_replacer _ _ k _
      ∙ lawful.keeps_prefix _ k _
      ∙ set_defaults_lem k defaults (with_file viper home cfg_file v)
      ∙ ap (set_last k defaults) (with_file_lem home cfg_file k v)

  -- If neither the file nor the environment gives `server.did_context` and `server.service_id`, the
  -- DID document of the feed service has an empty context and the empty identifier: the defaults that
  -- `initConfig` sets for them are set under keys that no field has.
  pub init_config-get_did_document :
      (home cfg_file : Text) (v : V) (e : Error) (cfg : Config R)
      → ((k : Text) → lawful.default_of v k ≡ none)
      → lawful.given (init_config viper home cfg_file v) (codes "server.did_context") ≡ none
      → lawful.given (init_config viper home cfg_file v) (codes "server.service_id") ≡ none
      → new viper e (some (init_config viper home cfg_file v)) ≡ ok cfg
      → ((get_did_document (service_of cfg)).context ≡ [] ∷ [])
        × (map (λ entry. entry.id) (get_did_document (service_of cfg)).service ≡ [] ∷ [])
  unfolding new text_eq get_did_document service_of Service.new with_publisher
  init_config-get_did_document home cfg_file v e cfg fresh no_context no_id read =
      let w = init_config viper home cfg_file v in
      let context =
        lawful.reads_context w cfg read
        ∙ ap text_of (
            ap (λ o. or_else o (lawful.default_of w (codes "server.did_context"))) no_context
            ∙ init_config_lem home cfg_file (codes "server.did_context") v
            ∙ ap (set_last (codes "server.did_context") defaults) (fresh _)) in
      let id =
        lawful.reads_id w cfg read
        ∙ ap text_of (
            ap (λ o. or_else o (lawful.default_of w (codes "server.service_id"))) no_id
            ∙ init_config_lem home cfg_file (codes "server.service_id") v
            ∙ ap (set_last (codes "server.service_id") defaults) (fresh _)) in
      (ap (λ t. t ∷ []) context, ap (λ t. t ∷ []) id)

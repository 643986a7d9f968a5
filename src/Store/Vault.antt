-- ===== src/Store/Vault.antt =====
-- pkg/store/vault/vault.go. The Vault client library is a parameter.
pub mod Data
use crypt_controller.Base.{String, ◌<>◌, List, [], ◌∷◌, Option, none, some}
use crypt_controller.Base.Dict.{GoMap, Entries, insert}
use crypt_controller.Base.Outcome.{Result, ok, err, key_not_found, invalid_data, ◌>>=◌}
use crypt_controller.Kube.{Bytes}
use crypt_controller.Any.{Any, as_bytes}
use crypt_controller.Store.{Object, Store}

-- github.com/hashicorp/vault/api: configurations, clients, and `Logical().Read`, which gives the
-- field `Data` of the secret, or nothing if there is no secret.
pub record Api : Type 1 where
  pub Config : Type 0
  pub Client : Type 0
  pub default_config : Config
  pub new_client : Config → Result Client
  pub read : Client → String → Result (Option (GoMap Any))

-- The loop of `dataToObject`, over the entries still to visit and the object made so far.
convert : Entries Any → Entries Bytes → Result Object
convert [] o = ok (some o)
convert ((key, value) ∷ rest) o = elim (as_bytes value) [
  | none ↦ err invalid_data
  | some b ↦ convert rest (insert key b o)
]

unfoldable pub data_to_object : GoMap Any → Result Object
unfolding convert insert
data_to_object none = ok (some [])
data_to_object (some entries) = convert entries []

module _ (api : Api) where
  open api use {Config, Client, default_config, new_client, read}

  unfoldable pub get : Client → String → Result Object
  get client key = elim (read client ("secret/data/" <> key)) [
    | err e ↦ err e
    | ok none ↦ err key_not_found
    | ok (some contents) ↦ data_to_object contents
  ]

  config_or_default : Option Config → Config
  config_or_default none = default_config
  config_or_default (some config) = config

  -- A nil configuration is replaced by the default one.
  unfoldable pub new : Option Config → Result Store
  unfolding config_or_default
  new config = do client ← new_client (config_or_default config); ok (record { get = get client })

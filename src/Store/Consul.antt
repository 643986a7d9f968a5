-- ===== src/Store/Consul.antt =====
-- pkg/store/consul/consul.go. The Consul client library and the JSON decoder are parameters.
use crypt_controller.Base.{String, Option, none, some}
use crypt_controller.Base.Outcome.{Result, ok, err, key_not_found, invalid_data, ◌>>=◌}
use crypt_controller.Kube.{Bytes}
use crypt_controller.Store.{Object, Store}

-- github.com/hashicorp/consul/api: configurations, clients, and `KV().Get`, which gives the value
-- of the pair, or nothing if there is no pair.
pub record Api : Type 1 where
  pub Config : Type 0
  pub Client : Type 0
  pub default_config : Config
  pub new_client : Config → Result Client
  pub kv_get : Client → String → Result (Option Bytes)

-- `unmarshal` is `json.Unmarshal` into a `map[string][]byte`.
module _ (api : Api) (unmarshal : Bytes → Result Object) where
  open api use {Config, Client, default_config, new_client, kv_get}

  unfoldable pub get : Client → String → Result Object
  get client key = elim (kv_get client key) [
    | err e ↦ err e
    | ok none ↦ err key_not_found
    | ok (some value) ↦ elim (unmarshal value) [ err e ↦ err invalid_data | ok obj ↦ ok obj ]
  ]

  config_or_default : Option Config → Config
  config_or_default none = default_config
  config_or_default (some config) = config

  -- A nil configuration is replaced by the default one.
  unfoldable pub new : Option Config → Result Store
  unfolding config_or_default
  new config = do client ← new_client (config_or_default config); ok (record { get = get client })

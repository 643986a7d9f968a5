-- ===== src/Tests/StoreTests.antt =====
-- The stores and the factory at concrete inputs.
use crypt_controller.Base.{
  ◌≡◌, refl, none, some, [], ◌∷◌, true, false, arith, ◌⊎◌, String, ==_iff, string_eq,
}
use crypt_controller.Base.Dict.{Entries, lookup}
use crypt_controller.Base.Outcome.{Result, ok, err, invalid_data, external, invalid_store_type}
use crypt_controller.Kube.{Bytes}
use crypt_controller.Any.{Any, bytes, text}
use crypt_controller.Store.{Object}
use crypt_controller.Store.Consul as Consul
use crypt_controller.Store.Vault as Vault
use crypt_controller.Store.Vault.{data_to_object}
use crypt_controller.Store.Vault.Data.{
  all_bytes, bytes_at, Holds, SameResult, data_to_object_exact, data_to_object_order,
}
use crypt_controller.Store.Factory.{
  Runes, codes, Factory, make, consul_store_type, vault_store_type,
}
use crypt_controller.Store.Factory.Laws.{IsSpelling, make-IsSpelling}

abbrev mixed : Entries Any
mixed = ("a", bytes (1 ∷ [])) ∷ ("b", text "x") ∷ []

abbrev pure_ab : Entries Any
pure_ab = ("a", bytes (1 ∷ [])) ∷ ("b", bytes (2 ∷ [])) ∷ []

abbrev pure_ba : Entries Any
pure_ba = ("b", bytes (2 ∷ [])) ∷ ("a", bytes (1 ∷ [])) ∷ []

data_to_object_exact_example :
    ((all_bytes mixed ≡ true) × Holds (data_to_object (some mixed)) (bytes_at mixed))
    ⊎ ((all_bytes mixed ≡ false) × (data_to_object (some mixed) ≡ err invalid_data))
unfolding lookup
data_to_object_exact_example = data_to_object_exact mixed (refl, (refl, tt))

data_to_object_order_example :
    SameResult (data_to_object (some pure_ab)) (data_to_object (some pure_ba))
unfolding lookup
data_to_object_order_example =
    data_to_object_order pure_ab pure_ba (refl, (refl, tt)) (refl, (refl, tt)) same_ab
  where
    same_ab : (k : String) → lookup k pure_ab ≡ lookup k pure_ba
    same_ab k = ground (arith, ==_iff k "a", ==_iff k "b", ==_iff {A = String} "a" "b")

-- A Vault that answers every path with one text, as Vault's key-value engine does.
abbrev pub vault_api : Vault.Api
vault_api = record {
  Config = Unit {0};
  Client = Unit {0};
  default_config = tt;
  new_client = λ c. ok tt;
  read = λ c path. ok (some (some (("data", text path) ∷ [])));
}

abbrev pub consul_api : Consul.Api
consul_api = record {
  Config = Unit {0};
  Client = Unit {0};
  default_config = tt;
  new_client = λ c. ok tt;
  kv_get = λ c key. ok none;
}

abbrev pub no_json : Bytes → Result Object
no_json b = err (external "json")

abbrev factory : Factory
factory = record { config = "/etc/store" }

abbrev spaced : Runes
spaced = codes " Vault  "

make-IsSpelling_example :
    (IsSpelling consul_store_type spaced
      × (make consul_api no_json vault_api factory spaced
          ≡ Consul.new consul_api no_json (some tt)))
    ⊎ (IsSpelling vault_store_type spaced
        × (make consul_api no_json vault_api factory spaced ≡ Vault.new vault_api (some tt)))
    ⊎ ((¬ IsSpelling consul_store_type spaced)
        × (¬ IsSpelling vault_store_type spaced)
        × (make consul_api no_json vault_api factory spaced ≡ err invalid_store_type))
make-IsSpelling_example = make-IsSpelling consul_api no_json vault_api factory spaced

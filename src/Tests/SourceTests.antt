-- ===== src/Tests/SourceTests.antt =====
-- Two stores that hold one object.
use crypt_controller.Base.{◌≡◌, refl, none, some, [], ◌∷◌}
use crypt_controller.Base.Dict.{Entries, lookup}
use crypt_controller.Base.Outcome.{Result, ok}
use crypt_controller.Kube.{Bytes}
use crypt_controller.Store.{Object, Store}
use crypt_controller.Store.Memory as Memory
use crypt_controller.Store.Consul as Consul
use crypt_controller.Store.Contract.{KeepsPairs, new_consul-new_memory}

abbrev pairs : Entries Bytes
pairs = ("test/foo", 1 ∷ 2 ∷ []) ∷ []

abbrev contents : Entries Object
contents = ("test/foo", some (("value", 1 ∷ 2 ∷ []) ∷ [])) ∷ []

abbrev decode_value : Bytes → Result Object
decode_value b = ok (some (("value", b) ∷ []))

abbrev pair_server : Consul.Api
pair_server = record {
  Config = Unit {0};
  Client = Unit {0};
  default_config = tt;
  new_client = λ c. ok tt;
  kv_get = λ c key. ok (lookup key pairs);
}

pair_server-KeepsPairs : KeepsPairs pair_server pairs
pair_server-KeepsPairs client key = refl

abbrev memory_store : Store
memory_store = record { get = Memory.get (some contents) }

abbrev consul_store : Store
consul_store = record { get = Consul.get pair_server decode_value tt }

new_consul-new_memory_example : consul_store ≡ memory_store
unfolding Memory.new Consul.new
new_consul-new_memory_example =
    new_consul-new_memory pair_server decode_value none pairs contents consul_store memory_store
      pair_server-KeepsPairs refl refl refl

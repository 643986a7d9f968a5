-- ===== src/Tests/SyncTests.antt =====
-- `syncHandler` on the fixture, and the theorems about it.
use crypt_controller.Base.{String, Option, inr, ◌≡◌, refl, none, some, List, [], ◌∷◌, ◌++◌}
use crypt_controller.Base.Outcome.{returned, key_not_found}
use crypt_controller.Base.Dict.{GoMap, lookup}
use crypt_controller.Kube.{Bytes, Secret}
use crypt_controller.Store.{Object, get_data}
use crypt_controller.Store.Memory as Memory
use crypt_controller.Lister.{get_in}
use crypt_controller.Controller.{Controller, World, Report, could_not_create, store_failure}
use crypt_controller.Controller.Secrets.{new_secret, create_secret, put_secret}
use crypt_controller.Controller.Sync.{
  sync_handler, create_all, create_in, find_namespace_matches, namespace_matches, sync_crypt,
}
use crypt_controller.Controller.Sync.Effect.{held, sync_handler-wanted}
use crypt_controller.Controller.Sync.Frame.{sync_handler_untouched, asked_by_all_untargeted}
use crypt_controller.Controller.Sync.Orders.{Keyed, sync_handler_commutes}
use crypt_controller.Controller.Sync.Returns.{sync_handler-returns, synced as synced_event}
use crypt_controller.Tests.Cluster.{
  env, forbidden, secrets_in_memory-IsFaithful as faithful, env-Serves,
}
use crypt_controller.Tests.Fixture.{
  test_controller, test_crypt, second_crypt, test_key, foo_definition, world_of, controller_of,
  test_namespaces,
}

synced : World env
unfolding sync_handler sync_crypt create_all create_in create_secret put_secret new_secret get_data
    get_in namespace_matches find_namespace_matches Memory.get lookup
synced = (sync_handler env test_controller test_key (world_of [])).1

foo_data : GoMap Bytes
foo_data = some (("foo", b'f' ∷ []) ∷ [])

lost_reports : List Report
lost_reports = store_failure key_not_found ∷ could_not_create test_key "default" key_not_found ∷ []

-- The closed namespace refuses two secrets, and the definition whose key the store lacks fails in each
-- of the four matches. The messages name the namespace of the Crypt.
synced_reports :
    synced.reports
    ≡ (could_not_create test_key "default" forbidden
        ∷ could_not_create test_key "default" forbidden
        ∷ lost_reports)
      ++ (lost_reports ++ (lost_reports ++ lost_reports))
unfolding synced lost_reports
synced_reports = refl

sync_handler-wanted_example :
    ((sync_handler env test_controller test_key (world_of [])).0 ≡ returned none)
    × (held env test_controller
          (sync_handler env test_controller test_key (world_of [])).1
          "test-ns1"
          "test-foo-secret"
        ≡ some (new_secret env foo_data foo_definition test_crypt "test-ns1"))
unfolding foo_data find_namespace_matches Memory.get get_in lookup get_data
sync_handler-wanted_example =
    sync_handler-wanted env test_controller faithful test_key "default" "test-crypt" "test-ns1"
      "test-foo-secret" test_crypt (world_of []) refl refl
      (env-Serves "test-ns1" "test-foo-secret" refl)

-- No pattern matches a namespace that is not in the cache.
sync_handler_untouched_example :
    held env test_controller
      (sync_handler env test_controller test_key (world_of [])).1
      "other"
      "test-foo-secret"
    ≡ none
unfolding Memory.get get_in lookup
sync_handler_untouched_example =
    sync_handler_untouched env test_controller faithful "other" "test-foo-secret" test_key
      (world_of [])
      (λ namespace name crypt split cached.
        asked_by_all_untargeted env test_controller crypt crypt.spec.secrets "other"
          "test-foo-secret")

sync_handler-returns_example :
    ((sync_handler env test_controller test_key (world_of [])).0 ≡ returned none)
    × ((sync_handler env test_controller test_key (world_of [])).1.queue ≡ (world_of []).queue)
    × ((sync_handler env test_controller test_key (world_of [])).1.events
        ≡ synced_event env test_controller test_crypt ∷ [])
unfolding get_in
sync_handler-returns_example = sync_handler-returns env test_controller test_key (world_of [])

-- Two Crypts, of which only the first defines "test-bar-secret".
abbrev two_cached : Controller
two_cached = controller_of (test_crypt ∷ second_crypt ∷ []) test_namespaces

abbrev first_keyed : Keyed env two_cached
unfolding get_in
first_keyed = record {
  key = test_key;
  namespace = "default";
  name = "test-crypt";
  crypt = test_crypt;
  parted = refl;
  cached = refl;
}

abbrev second_keyed : Keyed env two_cached
unfolding get_in
second_keyed = record {
  key = "default/second-crypt";
  namespace = "default";
  name = "second-crypt";
  crypt = second_crypt;
  parted = refl;
  cached = refl;
}

-- The secret after a sync of two keys.
abbrev bar_after : String → String → Option Secret
bar_after one two =
    held env two_cached
      (sync_handler env two_cached two (sync_handler env two_cached one (world_of [])).1).1
      "test-ns1" "test-bar-secret"

sync_handler_commutes_example :
    (bar_after test_key "default/second-crypt" ≡ bar_after "default/second-crypt" test_key)
    × (held env two_cached
          (sync_handler env two_cached test_key
            (sync_handler env two_cached "default/second-crypt"
              (sync_handler env two_cached test_key (world_of [])).1).1).1
          "test-ns1"
          "test-bar-secret"
        ≡ bar_after test_key "default/second-crypt")
unfolding Memory.get lookup first_keyed second_keyed
sync_handler_commutes_example =
    sync_handler_commutes env two_cached faithful "test-ns1" "test-bar-secret"
      (env-Serves "test-ns1" "test-bar-secret" refl) first_keyed second_keyed (world_of [])
      (inr refl)

foo_object : Object
foo_object = some (("foo", b'f' ∷ []) ∷ [])

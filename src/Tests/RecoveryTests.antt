-- ===== src/Tests/RecoveryTests.antt =====
-- A Crypt that changes, up to the secret that follows.
use crypt_controller.Base.{◌≡◌, refl, string_eq, true, some, [], ◌∷◌}
use crypt_controller.Base.Dict.{lookup}
use crypt_controller.Base.Outcome.{returned}
use crypt_controller.Any.{text, crypt}
use crypt_controller.Lister.{get_in}
use crypt_controller.Store.{get_data}
use crypt_controller.Store.Memory as Memory
use crypt_controller.Controller.{World}
use crypt_controller.Controller.Secrets.{new_secret}
use crypt_controller.Controller.Sync.Effect.{held}
use crypt_controller.Controller.Worker.{process_next_work_item}
use crypt_controller.Controller.Recovery.{IsKeyOf, notify-process_next_work_item, changed}
use crypt_controller.Controller.Start.{updated, of_crypts, notify}
use crypt_controller.Tests.Cluster.{env, secrets_in_memory-IsFaithful as faithful, env-Serves}
use crypt_controller.Tests.Fixture.{
  test_controller, test_crypt, second_crypt, test_key, foo_definition, world_of,
}

test_key-IsKeyOf : IsKeyOf env test_crypt test_key
test_key-IsKeyOf = record { made = refl; parted = refl }

-- The world in which the key has come to be ready.
abbrev ready : World env
ready = world_of (text test_key ∷ [])

notify-process_next_work_item_example :
    (notify env test_controller
        (of_crypts (updated (crypt second_crypt) (crypt test_crypt)))
        (world_of [])
      ≡ returned (record (world_of []) {
        queue = env.workqueue.add_rate_limited (text test_key) (world_of []).queue;
      }))
    × (((process_next_work_item env test_controller ready).0 ≡ returned true)
        × (held env test_controller
              (process_next_work_item env test_controller ready).1
              "test-ns1"
              "test-foo-secret"
            ≡ some (
                new_secret env
                  (some (("foo", b'f' ∷ []) ∷ []))
                  foo_definition
                  test_crypt
                  "test-ns1")))
unfolding get_in Memory.get lookup get_data
notify-process_next_work_item_example =
    notify-process_next_work_item env test_controller test_controller faithful test_crypt test_crypt
      (updated (crypt second_crypt) (crypt test_crypt)) test_key "test-ns1" "test-foo-secret"
      (world_of []) ready _ (changed (crypt second_crypt)) test_key-IsKeyOf refl refl
      (env-Serves "test-ns1" "test-foo-secret" refl)

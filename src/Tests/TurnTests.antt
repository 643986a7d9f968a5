-- ===== src/Tests/TurnTests.antt =====
-- Workers on typed caches, and one that is interrupted during a sync.
use crypt_controller.Base.{ℕ, ◌≡◌, refl, sym, subst, set, get_elem?, some, List, [], ◌∷◌, string_eq}
use crypt_controller.Api.{Crypt}
use crypt_controller.Base.Dict.{lookup}
use crypt_controller.Base.Outcome.{ok}
use crypt_controller.Store.{Object}
use crypt_controller.Store.Memory as Memory
use crypt_controller.Controller.{Controller}
use crypt_controller.Controller.Secrets.Requests.{Serves}
use crypt_controller.Controller.Threads.Lasting.{IsThere}
use crypt_controller.Controller.Threads.Taken.{woken, taken-IsThere}
use crypt_controller.Lister.{get_in}
use crypt_controller.Controller.Sync.{find_namespace_matches, namespace_matches}
use crypt_controller.Controller.Threads.{
  Task, Thread, idle, syncing, System, work, Reach, here, next, advance, take, begin_key, begin,
}
use crypt_controller.Tests.Cluster.{secrets_in_memory-IsFaithful as faithful, env-Serves}
use crypt_controller.Tests.Queue.{keys_env}
use crypt_controller.Tests.Fixture.{
  controller_of, test_namespaces, test_controller, test_key, test_crypt, foo_definition,
}
use crypt_controller.Tests.ThreadTests.{two_workers, Nobody}

-- The system after a step of one of its workers.
abbrev stepped : ℕ → Thread → System keys_env → System keys_env
stepped i t s = record {
  threads = set s.threads i (advance keys_env test_controller t s.world).0;
  world = (advance keys_env test_controller t s.world).1;
}

abbrev one_task : List Task
one_task = record { sec = foo_definition; target = "test-ns1" } ∷ []

abbrev halfway : Thread
halfway = syncing test_key "default" test_crypt one_task

abbrev AnyCache : Controller → Type 0
AnyCache C = Unit

-- The first worker has a request to make, and the second comes in between.
abbrev started : System keys_env
started = record two_workers { threads = halfway ∷ idle ∷ [] }

abbrev requested : System keys_env
requested = stepped 0 halfway started

abbrev interrupted : System keys_env
interrupted = stepped 1 idle requested

abbrev last_step : Thread
last_step = syncing test_key "default" test_crypt []

abbrev settled : System keys_env
settled = stepped 0 last_step interrupted

interrupted-Reach : Reach keys_env AnyCache Nobody (λ q q'. q' ≡ q) started settled
unfolding advance
interrupted-Reach =
    next
      (next (next here (work 0 halfway test_controller tt refl))
        (work 1 idle test_controller tt refl))
      (work 0 last_step test_controller tt refl)

-- A cache whose store has the value of the one task.
abbrev StockedCache : Controller → Type 0
StockedCache C = (obj : Object) × (C.store.get "test/foo" ≡ ok obj)

test_controller-StockedCache : StockedCache test_controller
unfolding Memory.get lookup
test_controller-StockedCache = (_, refl)

keys_env-Serves : Serves keys_env "test-ns1" "test-foo-secret"
keys_env-Serves =
    let v = env-Serves "test-ns1" "test-foo-secret" refl in
    record { create_served = v.create_served; update_served = v.update_served }

-- A Crypt that asks for one secret in one namespace.
abbrev modest : Crypt
modest = record test_crypt {
  spec = record { secrets = foo_definition ∷ []; namespaces = "test-ns1" ∷ [] };
}

abbrev modest_controller : Controller
modest_controller = controller_of (modest ∷ []) test_namespaces

abbrev moved_by : ℕ → Thread → System keys_env → System keys_env
moved_by i t s = record {
  threads = set s.threads i (advance keys_env modest_controller t s.world).0;
  world = (advance keys_env modest_controller t s.world).1;
}

abbrev key_taken : System keys_env
key_taken = woken "test-ns1" "test-foo-secret" keys_env StockedCache modest_controller 0 two_workers

abbrev asking : Thread
asking = syncing test_key "default" modest one_task

abbrev finishing : Thread
finishing = syncing test_key "default" modest []

-- The second worker comes in between the request and the end of the round.
abbrev delivered : System keys_env
delivered = moved_by 0 finishing (moved_by 1 idle (moved_by 0 asking key_taken))

delivered-Reach : Reach keys_env StockedCache Nobody (λ q q'. q' ≡ q) key_taken delivered
unfolding advance take begin_key begin get_in namespace_matches find_namespace_matches Memory.get
    lookup
delivered-Reach =
    let seen : StockedCache modest_controller = (_, refl) in
    next
      (next (next here (work 0 asking modest_controller seen refl))
        (work 1 idle modest_controller seen refl))
      (work 0 finishing modest_controller seen refl)

taken-IsThere_example :
    (get_elem? delivered.threads 0 ≡ some idle)
    × IsThere "test-ns1" "test-foo-secret" keys_env delivered.world.cluster
unfolding delivered-Reach get_in namespace_matches find_namespace_matches
taken-IsThere_example =
    taken-IsThere "test-ns1" "test-foo-secret" keys_env StockedCache faithful keys_env-Serves Nobody
      (λ k k' same there. subst (IsThere "test-ns1" "test-foo-secret" keys_env) (sym same) there)
      (λ q q'. q' ≡ q) modest_controller 0 test_key "default" "test-crypt" modest
      (record { waiting = []; busy = test_key ∷ [] }) two_workers delivered delivered-Reach refl
      refl refl refl refl refl ((λ named C seen. seen), tt) refl

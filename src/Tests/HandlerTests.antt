-- ===== src/Tests/HandlerTests.antt =====
-- The informers' handlers on small caches.
use crypt_controller.Base.{
  ◌≡◌, refl, Option, none, List, [], ◌∷◌, String, select, arith, ◌==◌, ◌&&◌, true, string_eq,
  contains, ◌≢◌, subst, sym, ==_iff,
}
use crypt_controller.Base.Outcome.{returned, Error}
use crypt_controller.Api.{Crypt}
use crypt_controller.Any.{Any, secret, namespace, deleted_final_state_unknown, crypt}
use crypt_controller.Lister.{get_in, list_in}
use crypt_controller.Client as Client
use crypt_controller.Controller.{Controller}
use crypt_controller.Controller.Secrets.{new_secret}
use crypt_controller.Controller.Worker.{enqueue_crypt}
use crypt_controller.Controller.Handlers.{handle_namespace_add, handle_secret_delete, all_crypts}
use crypt_controller.Controller.Handlers.NamespaceAdd.{
  handle_namespace_add-first_matches, handle_namespace_add_skips,
}
use crypt_controller.Controller.Handlers.SecretDelete.{
  directly, by_tombstone, handle_secret_delete-first_hit, handle_secret_delete_restores,
  namespaces_of, Misses,
}
use crypt_controller.Controller.Start.{Notice, of_namespaces, added, notify}
use crypt_controller.Controller.Start.Notices.{notify_keeps}
use crypt_controller.Tests.Cluster.{env, not_found, env-IsOwnership}
use crypt_controller.Tests.Fixture.{
  controller_of, test_crypt, second_crypt, namesake, foo_definition, namespace_of, world_of,
}

abbrev pub two_crypts : List Crypt
two_crypts = test_crypt ∷ second_crypt ∷ []

-- The namespace "default" holds two Crypts that match every name.
abbrev pub crowded : Controller
crowded = controller_of two_crypts (namespace_of "default" ∷ [])

-- What the cache of `crowded` lists for a namespace.
abbrev pub listing_of : String → List Crypt × Option Error
listing_of ns = (select (λ c. c.meta.namespace == ns && true) two_crypts, none)

pub listed_of :
    (ns : String) → list_in crowded.crypt_lister ns env.new_selector ≡ returned (listing_of ns)
unfolding list_in
listed_of ns = ground arith

-- The second Crypt matches as well, and is not put on the queue.
handle_namespace_add-first_matches_example :
    handle_namespace_add env crowded (namespace (namespace_of "new")) (world_of [])
    ≡ returned (enqueue_crypt env (crypt test_crypt) (world_of []))
handle_namespace_add-first_matches_example =
    handle_namespace_add-first_matches env crowded listing_of listed_of (namespace_of "new")
      (world_of [])

-- The namesake's namespace is listed first.
abbrev shared_name : Controller
shared_name = controller_of (namesake ∷ test_crypt ∷ []) []

abbrev pub foo_secret : Any
foo_secret = secret (new_secret env none foo_definition test_crypt "test-ns1")

-- The secret belonged to `test_crypt`, and its namesake is put on the queue.
handle_secret_delete-first_hit_example :
    handle_secret_delete env shared_name foo_secret (world_of [])
    ≡ returned (enqueue_crypt env (crypt namesake) (world_of []))
unfolding get_in all_crypts Client.list
handle_secret_delete-first_hit_example =
    handle_secret_delete-first_hit env shared_name env-IsOwnership none foo_definition test_crypt
      namesake "test-ns1" foo_secret (world_of []) directly refl

-- A Crypt of another name is listed first, in another namespace.
abbrev pub stranger : Crypt
stranger = record namesake { meta = (namespace_of "x").meta }

abbrev pub two_names : Controller
two_names = controller_of (stranger ∷ test_crypt ∷ []) []

pub others_miss :
    (ns : String)
    → contains (namespaces_of env two_names (all_crypts env two_names)) ns ≡ true
    → ns ≢ "default"
    → Misses env two_names "test-crypt" ns
unfolding get_in all_crypts Client.list
others_miss ns listed other =
    let e : ns ≡ "" = ground (arith, ==_iff ns "", ==_iff ns "default") in
    subst (λ (a : String). Misses env two_names "test-crypt" a) (sym e) (not_found, refl)

handle_secret_delete_restores_example :
    handle_secret_delete env two_names (deleted_final_state_unknown "k" foo_secret) (world_of [])
    ≡ returned (enqueue_crypt env (crypt test_crypt) (world_of []))
unfolding get_in all_crypts Client.list
handle_secret_delete_restores_example =
    handle_secret_delete_restores env two_names env-IsOwnership none foo_definition test_crypt
      "test-ns1" (deleted_final_state_unknown "k" foo_secret) (world_of []) (by_tombstone "k") refl
      refl others_miss

abbrev new_appears : Notice
new_appears = of_namespaces (added (namespace (namespace_of "new")))

told :
    notify env crowded new_appears (world_of [])
    ≡ returned (enqueue_crypt env (crypt test_crypt) (world_of []))
unfolding notify
told =
    handle_namespace_add_skips env crowded listing_of listed_of (namespace_of "new")
      (namespace_of "default") [] (second_crypt ∷ []) test_crypt (world_of []) refl refl refl refl

notify_keeps_example :
    ((enqueue_crypt env (crypt test_crypt) (world_of [])).cluster ≡ (world_of []).cluster)
    × ((enqueue_crypt env (crypt test_crypt) (world_of [])).events ≡ (world_of []).events)
notify_keeps_example = notify_keeps env crowded new_appears (world_of []) _ told

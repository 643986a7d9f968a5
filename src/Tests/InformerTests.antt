-- ===== src/Tests/InformerTests.antt =====
-- A factory that is asked for two informers, and started in between.
use crypt_controller.Base.{
  ℕ, ◌≡◌, refl, ◌++◌, map, none, some, true, ◌==◌, nat_eq, List, [], ◌∷◌, string_eq,
}
use crypt_controller.Base.Dict.{lookup, insert}
use crypt_controller.Client.{RestClient}
use crypt_controller.Informers.{
  Factory, ListWatch, NewInformerFunc, informer_for, new_factory, with_custom_resync_config, start,
  start_each, wait_for_cache_sync, crypt_type,
}
use crypt_controller.Informers.Crypts.{
  Indexers, CryptInformer, crypts_informer, lister, for_resource,
}
use crypt_controller.Base.Outcome.{ok}
use crypt_controller.Informers.Options.{
  Choice, resync_config, in_namespace, option_of, crypts_informer-options,
}
use crypt_controller.Lister.{Indexer}
use crypt_controller.Tests.Cluster.{indexer_of}
use crypt_controller.Informers.Requests.{Call, ask, begin, call_all, for_resource_shares}
use crypt_controller.Informers.Runs.{runs_of}
use crypt_controller.Informers.Once.{runs_of-requested}
use crypt_controller.Tests.Fixture.{rest_client, test_crypt}

-- An informer is told apart by its resync period.
abbrev by_period : (client : RestClient) → ListWatch client → ℕ → Indexers → ℕ
by_period client watch period indexers = period

abbrev numbered : ℕ → NewInformerFunc ℕ
numbered n client period = n

abbrev small_factory : Factory ℕ
small_factory =
    new_factory ℕ (rest_client []) 30 (with_custom_resync_config ℕ ((crypt_type, 10) ∷ []) ∷ [])

abbrev some_calls : List (Call ℕ)
some_calls = begin ∷ ask "v1.Secret" (numbered 7) ∷ begin ∷ begin ∷ []

abbrev shared_factory : Factory ℕ
shared_factory = (call_all some_calls (crypts_informer by_period small_factory).1).1

for_resource_shares_example :
    for_resource by_period
      (record { group = "core.bluehoodie.io"; version = "v1alpha1"; resource = "crypts" })
      shared_factory
    ≡ ok (
      record {
        informer = (crypts_informer by_period small_factory).0;
        resource = record { group = "core.bluehoodie.io"; resource = "crypts" };
      },
      shared_factory,
    )
for_resource_shares_example =
    for_resource_shares by_period
      (record { group = "core.bluehoodie.io"; version = "v1alpha1"; resource = "crypts" })
      some_calls small_factory

abbrev orders : List (Call ℕ)
orders = ask crypt_type (numbered 1) ∷ begin ∷ ask crypt_type (numbered 2) ∷ []

-- The type is asked for twice, with a Start in between, and is run once.
runs_of-requested_example :
    (runs_of crypt_type (call_all (orders ++ begin ∷ []) small_factory).0 ≡ 1)
    × (lookup crypt_type
          (wait_for_cache_sync ℕ (λ n. n == 1) (call_all (orders ++ begin ∷ []) small_factory).1)
        ≡ some true)
    × (start ℕ (call_all (orders ++ begin ∷ []) small_factory).1
        ≡ ([], (call_all (orders ++ begin ∷ []) small_factory).1))
unfolding informer_for start start_each lookup insert
runs_of-requested_example =
    runs_of-requested crypt_type orders small_factory (λ n. n == 1) refl refl

-- The options come twice, and the second time they count.
abbrev choices : List Choice
choices =
    resync_config ((crypt_type, 20) ∷ ("v1.Secret", 40) ∷ [])
    ∷ in_namespace "dev"
    ∷ resync_config ((crypt_type, 5) ∷ [])
    ∷ in_namespace "prod"
    ∷ []

abbrev same_indexer : ℕ → Indexer
same_indexer n = indexer_of (test_crypt ∷ [])

abbrev made : ℕ × Factory ℕ
made = crypts_informer by_period (new_factory ℕ (rest_client []) 30 (map option_of choices))

abbrev anywhere : CryptInformer
anywhere = record { namespace = ""; tweak_list_options = none }

crypts_informer-options_example :
    (made.0 ≡ 5)
    × (lister by_period same_indexer anywhere (call_all some_calls made.1).1
        ≡ (indexer_of (test_crypt ∷ []), (call_all some_calls made.1).1))
crypts_informer-options_example =
    crypts_informer-options by_period same_indexer (rest_client []) 30 choices anywhere some_calls

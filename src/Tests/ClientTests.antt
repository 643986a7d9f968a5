-- ===== src/Tests/ClientTests.antt =====
-- A lister over a cache, and two servers that differ in one namespace.
use crypt_controller.Base.{
  ℕ, ◌+◌, not, nat_eq, ◌≡◌, refl, true, none, some, [], ◌∷◌, ◌==◌, string_eq,
}
use crypt_controller.Base.Outcome.{returned, panicked, external, ok}
use crypt_controller.Any.{crypt, text}
use crypt_controller.Lister.{Indexer, list, list_in}
use crypt_controller.Lister.Listings.{list-list_in}
use crypt_controller.Client.{RestClient}
use crypt_controller.Clientset.{
  Library, Conf, Clientset, new_for_config, new_for_config_or_die, with_limiter,
}
use crypt_controller.Clientset.Limiter.{IsMadeOf, new_for_config-IsMadeOf}
use crypt_controller.Tests.Fixture.{test_crypt, second_crypt, rest_client}

-- Two Crypts, and in the namespace "default" also something else.
abbrev mixed : Indexer
mixed = record {
  get_by_key = λ key. ok none;
  list_all = λ sel. (crypt test_crypt ∷ crypt second_crypt ∷ [], some (external "partial"));
  list_all_by_namespace = λ ns sel. (crypt test_crypt ∷ text "odd" ∷ [], none);
}

list-list_in_example :
    (list mixed (λ labels. true)
      ≡ returned (test_crypt ∷ second_crypt ∷ [], some (external "partial")))
    × (list_in mixed "default" (λ labels. true) ≡ panicked)
list-list_in_example = list-list_in mixed "default" (λ labels. true)

abbrev pub one_server : RestClient
one_server = rest_client (test_crypt ∷ [])

-- Rates are numbers, and the limiters are numbered as they are made.
abbrev pub small_library : Library
small_library = record {
  Limiter = ℕ;
  Limiters = ℕ;
  Qps = ℕ;
  Others = Unit;
  Discovery = ℕ;
  is_positive = λ q. not (q == 0);
  new_token_bucket = λ q burst made. (made, made + 1);
  default_user_agent = "agent";
  rest_client_for = λ c. ok one_server;
  discovery_for = λ c. ok 5;
  discovery_over = λ c. 5;
}

abbrev pub unlimited : Conf small_library
unlimited = record {
  rate_limiter = none;
  qps = 7;
  burst = 10;
  group_version = none;
  api_path = "";
  user_agent = "";
  others = tt;
}

abbrev pub both_clients : Clientset small_library
both_clients = record { discovery_client = 5; core_v1alpha1 = one_server }

-- Three limiters have been made before.
new_for_config-IsMadeOf_example :
    ((new_for_config small_library unlimited 3).1 ≡ 4)
    × ((core : Conf small_library) × (discovery : Conf small_library) × IsMadeOf small_library
          unlimited 3 both_clients core discovery)
    × (new_for_config_or_die small_library (with_limiter small_library unlimited 3).0
        ≡ returned both_clients)
unfolding new_for_config
new_for_config-IsMadeOf_example =
    new_for_config-IsMadeOf small_library unlimited 3 both_clients refl

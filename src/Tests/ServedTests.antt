-- ===== src/Tests/ServedTests.antt =====
-- A server that understands the requests of a client, and an informer over it.
use crypt_controller.Base.{
  true, false, ◌≡◌, Option, none, some, [], ◌∷◌, ◌==◌, string_eq, if◌then◌else◌,
}
use crypt_controller.Base.Outcome.{Error, external, ok}
use crypt_controller.Api.{Crypt}
use crypt_controller.Client.{
  ListOptions, GetOptions, timeout_of, get, list, watch, create, update, update_status, delete,
  delete_collection, patch,
}
use crypt_controller.Client.Served.{
  Operation, Server, collection, make, replace, replace_status, remove, amend, rest_of, client_in,
  client_served,
}
use crypt_controller.Informers.{crypt_list_watch}
use crypt_controller.Informers.Reads.{crypt_list_watch-served}
use crypt_controller.Tests.Fixture.{test_crypt, second_crypt}

-- What is written comes back, and what is read is the second Crypt.
abbrev crypt_for : Operation → Crypt × Option Error
crypt_for (make c) = (c, none)
crypt_for (replace name c) = (c, none)
crypt_for (replace_status name c) = (c, some (external name))
crypt_for (amend name pt contents subs) = (test_crypt, some (external pt))
crypt_for _ = (second_crypt, none)

abbrev error_for : Operation → Option Error
error_for (remove name options) = some (external name)
error_for _ = none

-- A watch is told by its operation.
abbrev echo : Server
echo = record {
  Watch = Operation;
  crypt = λ ns op. if ns == "default" then crypt_for op else (test_crypt, some (external ns));
  items = λ ns op. (record { items = test_crypt ∷ [] }, some (external ns));
  error = λ ns op. error_for op;
  open_watch = λ ns op. ok op;
  crypt_refused = (test_crypt, some (external "refused"));
  list_refused = (record { items = [] }, some (external "refused"));
  refusal = external "refused";
}

abbrev few : ListOptions
few = record {
  label_selector = "app=x";
  field_selector = "";
  watch = false;
  timeout_seconds = some 2;
}

abbrev newest : GetOptions
newest = record { resource_version = "" }

client_served_example :
    (get (client_in echo "default") "a" newest ≡ (second_crypt, none))
    × (list (client_in echo "default") few
        ≡ (record { items = test_crypt ∷ [] }, some (external "default")))
    × (watch (client_in echo "default") few
        ≡ ok (collection (record few { watch = true }) 2_000_000_000))
    × (create (client_in echo "default") test_crypt ≡ (test_crypt, none))
    × (update (client_in echo "default") test_crypt ≡ (test_crypt, none))
    × (update_status (client_in echo "default") test_crypt
        ≡ (test_crypt, some (external "test-crypt")))
    × (delete (client_in echo "default") "a" none ≡ some (external "a"))
    × (delete_collection (client_in echo "default") none few ≡ none)
    × (patch (client_in echo "default") "a" "json" [] [] ≡ (test_crypt, some (external "json")))
unfolding timeout_of
client_served_example = client_served echo "default" "a" "json" test_crypt newest few none [] []

-- The tweak keeps one label.
abbrev one_label : ListOptions → ListOptions
one_label opts = record opts { label_selector = "tier=y" }

crypt_list_watch-served_example :
    ((crypt_list_watch (rest_of echo) "dev" (some one_label)).list_func few
      ≡ (record { items = test_crypt ∷ [] }, some (external "dev")))
    × ((crypt_list_watch (rest_of echo) "dev" (some one_label)).watch_func few
        ≡ ok (collection (record few { label_selector = "tier=y"; watch = true }) 2_000_000_000))
unfolding timeout_of
crypt_list_watch-served_example = crypt_list_watch-served echo "dev" (some one_label) few

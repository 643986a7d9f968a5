-- ===== src/Tests/Fixture.antt =====
-- The Crypts, namespaces and store of controller/controller_test.go, with a second Crypt of the same
-- namespace and one of the same name in another namespace.
use crypt_controller.Base.{String, none, some, List, [], ◌∷◌}
use crypt_controller.Base.Dict.{GoMap}
use crypt_controller.Base.Outcome.{ok}
use crypt_controller.Kube.{Namespace, ObjectMeta}
use crypt_controller.Api.{Crypt, SecretDefinition}
use crypt_controller.Any.{Any}
use crypt_controller.Store.{Object}
use crypt_controller.Store.Memory as Memory
use crypt_controller.Client.{RestClient}
use crypt_controller.Controller.{Controller, World}
use crypt_controller.Tests.Cluster.{env, indexer_of}

abbrev meta_of : String → String → String → ObjectMeta
meta_of ns n id = record {
  name = n;
  namespace = ns;
  uid = id;
  owner_references = [];
  labels = none;
  annotations = none;
}

abbrev pub definition : String → String → SecretDefinition
definition n key = record { name = n; type = ""; key = key; labels = none; annotations = none }

abbrev crypt_of : String → String → String → List SecretDefinition → List String → Crypt
crypt_of ns n id secrets patterns = record {
  type_meta = record { kind = ""; api_version = "core.bluehoodie.io/v1alpha1" };
  meta = meta_of ns n id;
  spec = record { secrets = secrets; namespaces = patterns };
  status = record {};
}

abbrev pub foo_definition : SecretDefinition
foo_definition = definition "test-foo-secret" "test/foo"

-- Two patterns match "test-ns1", and one definition has a key that the store lacks.
abbrev pub test_crypt : Crypt
test_crypt =
    crypt_of "default" "test-crypt" "1"
      (foo_definition
        ∷ definition "test-bar-secret" "test/bar"
        ∷ definition "lost" "test/lost"
        ∷ [])
      ("test-ns1" ∷ ".*" ∷ [])

abbrev pub second_crypt : Crypt
second_crypt = crypt_of "default" "second-crypt" "2" (foo_definition ∷ []) (".*" ∷ [])

-- The same name as the first, in another namespace.
abbrev pub namesake : Crypt
namesake = crypt_of "dev" "test-crypt" "3" [] []

abbrev pub namespace_of : String → Namespace
namespace_of n = record { meta = meta_of "" n "" }

abbrev pub test_namespaces : List Namespace
test_namespaces =
    namespace_of "test-ns1" ∷ namespace_of "test-ns2" ∷ namespace_of "kube-system" ∷ []

abbrev pub test_store : GoMap Object
test_store = some (
    ("test/foo", some (("foo", b'f' ∷ []) ∷ []))
    ∷ ("test/bar", some (("bar", b'b' ∷ []) ∷ []))
    ∷ [])

abbrev pub rest_client : List Crypt → RestClient
rest_client crypts = record {
  Watch = Unit {0};
  into_crypt = λ r. (test_crypt, none);
  into_list = λ r. (record { items = crypts }, none);
  error = λ r. none;
  open_watch = λ r. ok tt;
}

-- A controller whose cache and API server hold the same Crypts.
abbrev pub controller_of : List Crypt → List Namespace → Controller
controller_of crypts namespaces = record {
  crypt_clientset = rest_client crypts;
  namespace_lister = λ sel. (namespaces, none);
  crypt_lister = indexer_of crypts;
  store = record { get = Memory.get test_store };
}

abbrev pub test_controller : Controller
test_controller = controller_of (test_crypt ∷ []) test_namespaces

abbrev pub test_key : String
test_key = "default/test-crypt"

-- No secrets, and the items on the queue.
abbrev pub world_of : List Any → World env
world_of items = record {
  queue = record { items = items; done = []; forgotten = []; delayed = [] };
  cluster = λ ns n. none;
  events = [];
  reports = [];
}

-- ===== src/Client.antt =====
-- pkg/client/clientset/versioned/typed/crypt/v1alpha1/crypt.go: the requests that the client of the
-- Crypt resource sends. Sending one is a parameter.
pub mod Served
use crypt_controller.Base.{ℕ, ◌*◌, ◌%◌, ◌^◌, String, Bool, true, Option, none, some, List, [], ◌∷◌}
use crypt_controller.Base.Outcome.{Error, Result}
use crypt_controller.Api.{Crypt, CryptList}

pub data Verb : Type 0 where
  get_verb post_verb put_verb delete_verb : Verb
  patch_verb : String → Verb

-- `metav1.ListOptions`. The timeout is a number of seconds.
pub record ListOptions : Type 0 where
  pub label_selector : String
  pub field_selector : String
  pub watch : Bool
  pub timeout_seconds : Option ℕ

pub record GetOptions : Type 0 where
  pub resource_version : String

pub data Params : Type 0 where
  no_params : Params
  get_params : GetOptions → Params
  list_params : ListOptions → Params

pub data Body : Type 0 where
  no_body : Body
  crypt_body : Crypt → Body
  -- `*metav1.DeleteOptions`, by its text
  delete_body : Option String → Body
  patch_body : List ℕ → Body

-- What the calls on `rest.Request` collect. The timeout is in nanoseconds.
pub record Request : Type 0 where
  pub verb : Verb
  pub namespace : String
  pub resource : String
  pub name : Option String
  pub sub_resource : List String
  pub params : Params
  pub timeout : Option ℕ
  pub body : Body

-- `rest.Interface`: `Do().Into(…)` with the value that the result then has, `Do().Error()`, `Watch()`.
pub record RestClient : Type 1 where
  pub Watch : Type 0
  pub into_crypt : Request → Crypt × Option Error
  pub into_list : Request → CryptList × Option Error
  pub error : Request → Option Error
  pub open_watch : Request → Result Watch

pub record Crypts : Type 1 where
  pub client : RestClient
  pub ns : String

-- `time.Duration(n) * time.Second` in an int64, as a bit pattern.
unfoldable pub timeout_of : Option ℕ → ℕ
timeout_of none = 0
timeout_of (some n) = (n * 1_000_000_000) % 2 ^ 64

-- The request that each method begins: a verb on the resource "crypts" in the client's namespace.
unfoldable pub request : Crypts → Verb → Request
request c verb = record {
  verb = verb;
  namespace = c.ns;
  resource = "crypts";
  name = none;
  sub_resource = [];
  params = no_params;
  timeout = none;
  body = no_body;
}

unfoldable pub get : Crypts → String → GetOptions → Crypt × Option Error
unfolding request
get c name options =
    c.client.into_crypt
      (record (request c get_verb) { name = some name; params = get_params options })

unfoldable pub list : Crypts → ListOptions → CryptList × Option Error
unfolding request timeout_of
list c opts = c.client.into_list (record (request c get_verb) {
  params = list_params opts;
  timeout = some (timeout_of opts.timeout_seconds);
})

unfoldable pub watch : (c : Crypts) → ListOptions → Result (c.client.Watch)
unfolding request timeout_of
watch c opts = c.client.open_watch (record (request c get_verb) {
  params = list_params (record opts { watch = true });
  timeout = some (timeout_of opts.timeout_seconds);
})

unfoldable pub create : Crypts → Crypt → Crypt × Option Error
unfolding request
create c crypt = c.client.into_crypt (record (request c post_verb) { body = crypt_body crypt })

unfoldable pub update : Crypts → Crypt → Crypt × Option Error
unfolding request
update c crypt =
    c.client.into_crypt
      (record (request c put_verb) { name = some crypt.meta.name; body = crypt_body crypt })

unfoldable pub update_status : Crypts → Crypt → Crypt × Option Error
unfolding request
update_status c crypt = c.client.into_crypt (record (request c put_verb) {
  name = some crypt.meta.name;
  sub_resource = "status" ∷ [];
  body = crypt_body crypt;
})

unfoldable pub delete : Crypts → String → Option String → Option Error
unfolding request
delete c name options =
    c.client.error (record (request c delete_verb) { name = some name; body = delete_body options })

unfoldable pub delete_collection : Crypts → Option String → ListOptions → Option Error
unfolding request timeout_of
delete_collection c options list_options = c.client.error (record (request c delete_verb) {
  params = list_params list_options;
  timeout = some (timeout_of list_options.timeout_seconds);
  body = delete_body options;
})

unfoldable pub patch : Crypts → String → String → List ℕ → List String → Crypt × Option Error
unfolding request
patch c name pt contents subresources = c.client.into_crypt (record (request c (patch_verb pt)) {
  sub_resource = subresources;
  name = some name;
  body = patch_body contents;
})

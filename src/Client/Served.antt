-- ===== src/Client/Served.antt =====
-- What an API server makes of the requests that the client of
-- pkg/client/clientset/versioned/typed/crypt/v1alpha1/crypt.go sends.
use crypt_controller.Base.{
  ℕ, String, true, ◌≡◌, refl, Option, none, some, List, [], ◌∷◌, ◌==◌, string_eq, if◌then◌else◌,
}
use crypt_controller.Base.Outcome.{Error, Result, err}
use crypt_controller.Api.{Crypt, CryptList}
use crypt_controller.Client.{
  Verb, get_verb, post_verb, put_verb, delete_verb, patch_verb, RestClient, Request, Params,
  no_params, get_params, list_params, Body, no_body, crypt_body, delete_body, patch_body, Crypts,
  ListOptions, GetOptions, timeout_of, request, get, list, watch, create, update, update_status,
  delete, delete_collection, patch,
}

-- What is asked of the Crypts of a namespace. Timeouts are in nanoseconds, what is to be deleted comes
-- with the text of its options, and a patch with its type, its bytes and its subresources.
pub data Operation : Type 0 where
  read : (name : String) → GetOptions → Operation
  collection : ListOptions → (timeout : ℕ) → Operation
  make : Crypt → Operation
  replace : (name : String) → Crypt → Operation
  replace_status : (name : String) → Crypt → Operation
  remove : (name : String) → Option String → Operation
  remove_all : Option String → ListOptions → (timeout : ℕ) → Operation
  amend : (name pt : String) → List ℕ → List String → Operation

-- A server takes a request for an operation by its verb, by whether it names an object and a
-- subresource, and by what it carries; all others it does not understand.
abbrev get_of : Option String → List String → Params → Option ℕ → Body → Option Operation
get_of (some name) [] (get_params options) none no_body = some (read name options)
get_of none [] (list_params options) (some timeout) no_body = some (collection options timeout)
get_of _ _ _ _ _ = none

abbrev post_of : Option String → List String → Params → Option ℕ → Body → Option Operation
post_of none [] no_params none (crypt_body crypt) = some (make crypt)
post_of _ _ _ _ _ = none

abbrev put_of : Option String → List String → Params → Option ℕ → Body → Option Operation
put_of (some name) [] no_params none (crypt_body crypt) = some (replace name crypt)
put_of (some name) (sub ∷ []) no_params none (crypt_body crypt) =
    if sub == "status" then some (replace_status name crypt) else none
put_of _ _ _ _ _ = none

abbrev delete_of : Option String → List String → Params → Option ℕ → Body → Option Operation
delete_of (some name) [] no_params none (delete_body options) = some (remove name options)
delete_of none [] (list_params list_options) (some timeout) (delete_body options) =
    some (remove_all options list_options timeout)
delete_of _ _ _ _ _ = none

abbrev patch_of : String → Option String → List String → Params → Option ℕ → Body → Option Operation
patch_of pt (some name) subs no_params none (patch_body contents) =
    some (amend name pt contents subs)
patch_of _ _ _ _ _ _ = none

abbrev by_verb : Verb → Option String → List String → Params → Option ℕ → Body → Option Operation
by_verb get_verb = get_of
by_verb post_verb = post_of
by_verb put_verb = put_of
by_verb delete_verb = delete_of
by_verb (patch_verb pt) = patch_of pt

abbrev operation_of : Request → Option Operation
operation_of r =
    if r.resource == "crypts"
    then by_verb r.verb r.name r.sub_resource r.params r.timeout r.body
    else none

-- A server, by what it answers to an operation on the Crypts of a namespace; `crypt_refused` and
-- `list_refused` are what a call that is not understood comes to.
pub record Server : Type 1 where
  pub Watch : Type 0
  pub crypt : String → Operation → Crypt × Option Error
  pub items : String → Operation → CryptList × Option Error
  pub error : String → Operation → Option Error
  pub open_watch : String → Operation → Result Watch
  pub crypt_refused : Crypt × Option Error
  pub list_refused : CryptList × Option Error
  pub refusal : Error

module _ (S : Server) where
  abbrev on {ℓ} : {A : Type ℓ} → A → (String → Operation → A) → Request → A
  on refused answer r = elim (operation_of r) [ none ↦ refused | some op ↦ answer r.namespace op ]

  abbrev pub rest_of : RestClient
  rest_of = record {
    Watch = S.Watch;
    into_crypt = on S.crypt_refused S.crypt;
    into_list = on S.list_refused S.items;
    error = on (some S.refusal) S.error;
    open_watch = on (err S.refusal) S.open_watch;
  }

  abbrev pub client_in : String → Crypts
  client_in ns = record { client = rest_of; ns = ns }

  -- A client of the Crypts of a namespace, over any server that reads requests in this way: each method
  -- gives what the server answers to the operation that it stands for on that namespace, with the
  -- arguments of the method. Update and UpdateStatus are about the object that has the name of the
  -- Crypt, List and Watch about the collection, Watch with the option to watch, and the timeout is that
  -- of the list options.
  pub client_served :
      (ns name pt : String) (crypt : Crypt) (get_options : GetOptions) (opts : ListOptions)
      (options : Option String) (contents : List ℕ) (subs : List String)
      → (get (client_in ns) name get_options ≡ S.crypt ns (read name get_options))
        × (list (client_in ns) opts
            ≡ S.items ns (collection opts (timeout_of opts.timeout_seconds)))
        × (watch (client_in ns) opts
            ≡ S.open_watch ns
                (collection (record opts { watch = true }) (timeout_of opts.timeout_seconds)))
        × (create (client_in ns) crypt ≡ S.crypt ns (make crypt))
        × (update (client_in ns) crypt ≡ S.crypt ns (replace crypt.meta.name crypt))
        × (update_status (client_in ns) crypt ≡ S.crypt ns (replace_status crypt.meta.name crypt))
        × (delete (client_in ns) name options ≡ S.error ns (remove name options))
        × (delete_collection (client_in ns) options opts
            ≡ S.error ns (remove_all options opts (timeout_of opts.timeout_seconds)))
        × (patch (client_in ns) name pt contents subs ≡ S.crypt ns (amend name pt contents subs))
  unfolding get list watch create update update_status delete delete_collection patch request
      timeout_of
  client_served ns name pt crypt get_options opts options contents subs =
      (refl, refl, refl, refl, refl, refl, refl, refl, refl)

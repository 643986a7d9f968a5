-- ===== src/Fake/Matter.antt =====
-- What a fake client of the Crypts and the client that it stands for ask for in common, and the law of
-- reactors that answer as a server does.
use crypt_controller.Base.{String, ◌≡◌, Option, none, some, List, [], ◌∷◌, Bool, true, false}
use crypt_controller.Base.Outcome.{Error}
use crypt_controller.Api.{Crypt, CryptList}
use crypt_controller.Client.{
  RestClient, Request, Verb, get_verb, post_verb, put_verb, delete_verb, patch_verb, ListOptions,
  Params, list_params, Body, crypt_body, patch_body, no_body, delete_body,
}
use crypt_controller.Fake.{
  Object, crypt_object, list_object, Deed, get_deed, list_deed, watch_deed, create_deed,
  update_deed, update_subresource_deed, delete_deed, delete_collection_deed, patch_subresource_deed,
  Reactors, crypts_resource, crypts_kind,
}

-- What a request and an action have in common: all but the options of Get and of Delete.
pub record Matter : Type 0 where
  pub verb : Verb
  pub namespace : String
  pub name : Option String
  pub subresources : List String
  pub options : Option ListOptions
  pub sent : Body

abbrev listing : Params → Option ListOptions
listing (list_params options) = some options
listing _ = none

abbrev sent_in : Body → Body
sent_in (delete_body options) = no_body
sent_in b = b

abbrev pub asked_by : Request → Matter
asked_by r = record {
  verb = r.verb;
  namespace = r.namespace;
  name = r.name;
  subresources = r.sub_resource;
  options = listing r.params;
  sent = sent_in r.body;
}

abbrev matter : Verb → String → Option String → List String → Option ListOptions → Body → Matter
matter v ns name subs options sent = record {
  verb = v;
  namespace = ns;
  name = name;
  subresources = subs;
  options = options;
  sent = sent;
}

abbrev pub asked_for : String → Deed → Matter
asked_for ns (get_deed name) = matter get_verb ns (some name) [] none no_body
asked_for ns (list_deed kind opts) = matter get_verb ns none [] (some opts) no_body
asked_for ns (watch_deed opts) = matter get_verb ns none [] (some opts) no_body
asked_for ns (create_deed c) = matter post_verb ns none [] none (crypt_body c)
asked_for ns (update_deed c) = matter put_verb ns (some c.meta.name) [] none (crypt_body c)
asked_for ns (update_subresource_deed sub c) =
    matter put_verb ns (some c.meta.name) (sub ∷ []) none (crypt_body c)
asked_for ns (delete_deed name) = matter delete_verb ns (some name) [] none no_body
asked_for ns (delete_collection_deed opts) = matter delete_verb ns none [] (some opts) no_body
asked_for ns (patch_subresource_deed name pt contents subs) =
    matter (patch_verb pt) ns (some name) subs none (patch_body contents)

-- What the tracker returns: no object with an error, else the object.
abbrev pub seen {ℓ} : {A : Type ℓ} → A × Option Error → Option A × Option Error
seen (a, none) = (some a, none)
seen (a, some e) = (none, some e)

abbrev pub boxed {ℓ} : {A : Type ℓ} → (A → Object) → A × Option Error → Option Object × Option Error
boxed box (a, none) = (some (box a), none)
boxed box (a, some e) = (none, some e)

-- The deeds that answer with a Crypt, and those that answer with an error alone.
abbrev pub gives_crypt : Deed → Bool
gives_crypt (get_deed name) = true
gives_crypt (create_deed c) = true
gives_crypt (update_deed c) = true
gives_crypt (update_subresource_deed sub c) = true
gives_crypt (patch_subresource_deed name pt contents subs) = true
gives_crypt _ = false

abbrev pub deletes : Deed → Bool
deletes (delete_deed name) = true
deletes (delete_collection_deed opts) = true
deletes _ = false

-- In the state `s`, the reactors answer as the server does to a request for the same.
pub record StandsFor (F : Reactors) (R : RestClient) (s : F.State) : Type 0 where
  pub crypts_alike :
      (r : Request) (ns : String) (d : Deed) (default : Crypt)
      → gives_crypt d ≡ true
      → r.resource ≡ "crypts"
      → asked_by r ≡ asked_for ns d
      → (F.invokes
          (record { resource = crypts_resource; namespace = ns; deed = d })
          (crypt_object default)
          s).0
        ≡ boxed crypt_object (R.into_crypt r)
  pub lists_alike :
      (r : Request) (ns : String) (opts : ListOptions) (default : CryptList)
      → r.resource ≡ "crypts"
      → asked_by r ≡ asked_for ns (list_deed crypts_kind opts)
      → (F.invokes
          (record { resource = crypts_resource; namespace = ns; deed = list_deed crypts_kind opts })
          (list_object default)
          s).0
        ≡ boxed list_object (R.into_list r)
  pub errors_alike :
      (r : Request) (ns : String) (d : Deed) (default : Object)
      → deletes d ≡ true
      → r.resource ≡ "crypts"
      → asked_by r ≡ asked_for ns d
      → (F.invokes (record { resource = crypts_resource; namespace = ns; deed = d }) default s).0.1
        ≡ R.error r

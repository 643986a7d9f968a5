-- ===== src/Controller/Sync/Made.antt =====
-- What the secrets are like that `syncHandler` of controller/controller.go leaves in the cluster.
use mathlib.Core.Option.{map as map_option}
use crypt_controller.Base.{String, ◌≡◌, Option, none, some, ◌==◌, string_eq, if◌then◌else◌}
use crypt_controller.Base.Dict.{index}
use crypt_controller.Base.Outcome.{ok, err}
use crypt_controller.Kube.{Secret, OwnerReference}
use crypt_controller.Api.{Crypt, SecretDefinition}
use crypt_controller.Store.{Object, get_data}
use crypt_controller.Controller.{Env, Controller}
use crypt_controller.Controller.Secrets.{new_secret}
use crypt_controller.Controller.Handlers.SecretDelete.{IsOwnership}

-- A secret is as the definition of a Crypt, an object of the store and a namespace say.
pub record IsSecretFor (E : Env) (crypt : Crypt) (sec : SecretDefinition) (obj : Object)
    (ns : String) (f : Secret) : Type 0 where
  pub named : f.meta.name ≡ sec.name
  pub placed : f.meta.namespace ≡ ns
  pub typed : f.type ≡ (if sec.type == "" then "Opaque" else sec.type)
  pub filled : (key : String) → index f.payload key ≡ index obj key
  pub labelled : f.meta.labels ≡ sec.labels
  pub annotated : f.meta.annotations ≡ sec.annotations
  pub owner : OwnerReference
  pub owned : E.get_controller_of f ≡ some owner
  pub owner_kind : owner.kind ≡ "Crypt"
  pub owner_name : owner.name ≡ crypt.meta.name

module _ (E : Env) (O : IsOwnership E) where
  module _ (C : Controller) where
    -- A definition of the name, with the object that the store has for its key.
    abbrev pub supplied : String → SecretDefinition → Option (SecretDefinition × Object)
    supplied n sec = elim (C.store.get sec.key) [
      | err e ↦ none
      | ok obj ↦ if n == sec.name then some (sec, obj) else none
    ]

    abbrev made_of : Crypt → String → SecretDefinition × Object → Secret
    made_of crypt ns p = new_secret E (get_data p.1) p.0 crypt ns

-- ===== src/Lister.antt =====
-- pkg/client/listers/crypt/v1alpha1/crypt.go: reads of the informer's cache of Crypts.
pub mod Listings
use crypt_controller.Base.{String, ◌<>◌, Bool, Option, none, some, List, [], ◌∷◌, ◌++◌}
use crypt_controller.Base.Dict.{GoMap}
use crypt_controller.Base.Outcome.{Error, Result, ok, err, Outcome, returned, panicked}
use crypt_controller.Kube.{GroupResource}
use crypt_controller.Api.{Crypt, resource}
use crypt_controller.Any.{Any, as_crypt}

-- `labels.Selector`, by its method `Matches`.
abbrev pub Selector : Type 0
Selector = GoMap String → Bool

-- `cache.Indexer` at the moment of a call: `GetByKey`, with `none` for an object that does not
-- exist, and the objects that `cache.ListAll` and `cache.ListAllByNamespace` hand to their callback,
-- with the error that they return.
pub record Indexer : Type 0 where
  pub get_by_key : String → Result (Option Any)
  pub list_all : Selector → List Any × Option Error
  pub list_all_by_namespace : String → Selector → List Any × Option Error

-- k8s.io/apimachinery/pkg/api/errors: making an error of the kind "not found", and telling kinds.
pub record StatusErrors : Type 0 where
  pub new_not_found : GroupResource → String → Error
  pub is_not_found : Error → Bool
  pub is_already_exists : Error → Bool

-- The callback `ret = append(ret, m.(*v1alpha1.Crypt))`, over all objects and from `ret`.
append_crypts : List Any → List Crypt → Outcome (List Crypt)
append_crypts [] ret = returned ret
append_crypts (m ∷ ms) ret = elim (as_crypt m) [
  | none ↦ panicked
  | some c ↦ append_crypts ms (ret ++ c ∷ [])
]

listed : List Any × Option Error → Outcome (List Crypt × Option Error)
listed (objects, e) = elim (append_crypts objects []) [
  | panicked ↦ panicked
  | returned ret ↦ returned (ret, e)
]

-- `List` of `cryptLister`
unfoldable pub list : Indexer → Selector → Outcome (List Crypt × Option Error)
unfolding append_crypts listed
list indexer selector = listed (indexer.list_all selector)

-- `Crypts(namespace).List(selector)`
unfoldable pub list_in : Indexer → String → Selector → Outcome (List Crypt × Option Error)
unfolding append_crypts listed
list_in indexer namespace selector = listed (indexer.list_all_by_namespace namespace selector)

module _ (errors : StatusErrors) where
  -- `Crypts(namespace).Get(name)`
  unfoldable pub get_in : Indexer → String → String → Outcome (Result Crypt)
  get_in indexer namespace name = elim (indexer.get_by_key (namespace <> "/" <> name)) [
    | err e ↦ returned (err e)
    | ok none ↦ returned (err (errors.new_not_found (resource "crypt") name))
    | ok (some obj) ↦ elim (as_crypt obj) [ none ↦ panicked | some c ↦ returned (ok c) ]
  ]

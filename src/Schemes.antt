-- ===== src/Schemes.antt =====
-- The registrations with schemes: pkg/apis/crypt/v1alpha1/register.go, the register.go of the packages
-- scheme and fake under pkg/client/clientset/versioned, and the call in `New` of controller/controller.go.
pub mod Tables
pub mod Registered
use crypt_controller.Base.{String, Option, none, some, List, [], ◌∷◌}
use crypt_controller.Base.Outcome.{Error, Outcome, returned, panicked}
use crypt_controller.Kube.{GroupVersion}
use crypt_controller.Api.{scheme_group_version}

-- The Go types that are registered: the two of this API, and all others, by their names.
pub data ApiType : Type 0 where
  crypt_type crypt_list_type : ApiType
  other_type : String → ApiType

-- What is used of `runtime` and `metav1`. A function on a scheme gives the scheme as it is then.
pub record SchemeApi : Type 1 where
  pub Scheme : Type 0
  pub new_scheme : Scheme
  -- The type that a scheme has for a kind of a group's version.
  pub type_of : Scheme → GroupVersion → String → Option ApiType
  pub add_known_types : GroupVersion → List ApiType → Scheme → Outcome Scheme
  pub add_to_group_version : GroupVersion → Scheme → Outcome Scheme
  pub new_scheme_builder :
      List (Scheme → Outcome (Option Error × Scheme))
      → List (Scheme → Outcome (Option Error × Scheme))
  -- The method `AddToScheme` of a `SchemeBuilder`.
  pub add_to_scheme :
      List (Scheme → Outcome (Option Error × Scheme)) → Scheme → Outcome (Option Error × Scheme)
  -- `utilruntime.Must`
  pub must : Option Error → Outcome {0} Unit

abbrev pub version_one : GroupVersion
version_one = record { group = ""; version = "v1" }

module _ (S : SchemeApi) where
  abbrev pub SchemeFunc : Type 0
  SchemeFunc = S.Scheme → Outcome (Option Error × S.Scheme)

  -- `addKnownTypes`
  unfoldable pub add_known_types : SchemeFunc
  add_known_types scheme =
      elim (S.add_known_types scheme_group_version (crypt_type ∷ crypt_list_type ∷ []) scheme) [
        | panicked ↦ panicked
        | returned known ↦ elim (S.add_to_group_version scheme_group_version known) [
          | panicked ↦ panicked
          | returned all ↦ returned (none, all)
        ]
      ]

  -- `SchemeBuilder` and `AddToScheme` of the API's package.
  unfoldable pub scheme_builder : List SchemeFunc
  scheme_builder = S.new_scheme_builder (add_known_types ∷ [])

  unfoldable pub add_to_scheme : SchemeFunc
  add_to_scheme = S.add_to_scheme scheme_builder

  -- `localSchemeBuilder` and `AddToScheme` of the package scheme.
  abbrev pub local_scheme_builder : List SchemeFunc
  local_scheme_builder = add_to_scheme ∷ []

  unfoldable pub add_clientset : SchemeFunc
  add_clientset = S.add_to_scheme local_scheme_builder

  -- `utilruntime.Must(AddToScheme(scheme))`, also the call in `New`.
  unfoldable pub must_add : S.Scheme → Outcome S.Scheme
  must_add scheme = elim (add_clientset scheme) [
    | panicked ↦ panicked
    | returned (e, all) ↦ elim (S.must e) [ panicked ↦ panicked | returned t ↦ returned all ]
  ]

  -- The scheme that `init` of the package scheme leaves.
  unfoldable pub init : Outcome S.Scheme
  init = elim (S.add_to_group_version version_one S.new_scheme) [
    | panicked ↦ panicked
    | returned scheme ↦ must_add scheme
  ]

  -- `localSchemeBuilder`, `AddToScheme` and `init` of the package fake.
  abbrev pub fake_scheme_builder : List SchemeFunc
  fake_scheme_builder = add_to_scheme ∷ []

  unfoldable pub add_fake : SchemeFunc
  add_fake = S.add_to_scheme fake_scheme_builder

  unfoldable pub init_fake : Outcome S.Scheme
  init_fake = elim (S.add_to_group_version version_one S.new_scheme) [
    | panicked ↦ panicked
    | returned scheme ↦ elim (add_fake scheme) [
      | panicked ↦ panicked
      | returned (e, all) ↦ elim (S.must e) [ panicked ↦ panicked | returned t ↦ returned all ]
    ]
  ]

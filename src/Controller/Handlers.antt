-- ===== src/Controller/Handlers.antt =====
-- controller/controller.go: `handleNamespaceAdd` and `handleSecretDelete`.
pub mod NamespaceAdd
pub mod SecretDelete
use crypt_controller.Base.{
  String, Bool, true, false, Option, none, some, List, [], ◌∷◌, ◌==◌, string_eq, contains,
  if◌then◌else◌,
}
use crypt_controller.Base.Outcome.{Error, ok, err, Outcome, returned, panicked}
use crypt_controller.Kube.{Secret, Namespace}
use crypt_controller.Api.{Crypt}
use crypt_controller.Any.{Any, crypt, as_secret, as_namespace, as_tombstone}
use crypt_controller.Lister.{list_in, get_in}
use crypt_controller.Client as Client
use crypt_controller.Controller.{
  Env, Controller, World, no_tombstone, no_secret_in_tombstone, ignoring_orphan,
}
use crypt_controller.Controller.Secrets.{report}
use crypt_controller.Controller.Worker.{enqueue_crypt}

module _ (E : Env) where
  -- The innermost loop of `handleNamespaceAdd`: whether some pattern matches.
  unfoldable pub some_match : String → List String → Bool
  some_match name [] = false
  some_match name (pattern ∷ rest) =
      if (E.match_string pattern name).0 then true else some_match name rest

  -- The loop labelled `Out`: `break Out` leaves it at the first Crypt with a match.
  unfoldable pub enqueue_matching : String → List Crypt → World E → World E
  unfolding some_match
  enqueue_matching name [] w = w
  enqueue_matching name (c ∷ rest) w =
      if some_match name c.spec.namespaces
      then enqueue_crypt E (crypt c) w
      else enqueue_matching name rest w

  module _ (C : Controller) where
    -- The loop over all namespaces.
    unfoldable pub visit_namespaces : String → List Namespace → World E → Outcome (World E)
    visit_namespaces name [] w = returned w
    visit_namespaces name (ns ∷ rest) w =
        elim (list_in C.crypt_lister ns.meta.name E.new_selector) [
          | panicked ↦ panicked
          | returned (crypts, some e) ↦ visit_namespaces name rest w
          | returned (crypts, none) ↦ visit_namespaces name rest (enqueue_matching name crypts w)
        ]

    unfoldable pub visit_listed :
        String → List Namespace × Option Error → World E → Outcome (World E)
    visit_listed name (namespaces, some e) w = returned w
    visit_listed name (namespaces, none) w = visit_namespaces name namespaces w

    unfoldable pub handle_namespace_add : Any → World E → Outcome (World E)
    unfolding visit_listed
    handle_namespace_add obj w = elim (as_namespace obj) [
      | none ↦ returned w
      | some ns ↦ visit_listed ns.meta.name (C.namespace_lister E.new_selector) w
    ]

    -- The search of `handleSecretDelete`, over the Crypts that the API server lists. `none` is not
    -- found. `namespaces_checked` is the set of that name.
    unfoldable pub search_crypt : String → List Crypt → List String → Outcome (Option Crypt)
    search_crypt name [] namespaces_checked = returned none
    search_crypt name (ci ∷ rest) namespaces_checked =
        elim (contains namespaces_checked ci.meta.namespace) [
          | true ↦ search_crypt name rest namespaces_checked
          | false ↦ elim (get_in E.errors C.crypt_lister ci.meta.namespace name) [
            | panicked ↦ panicked
            | returned (ok c) ↦ returned (some c)
            | returned (err e) ↦ search_crypt name rest (ci.meta.namespace ∷ namespaces_checked)
          ]
        ]

    unfoldable pub enqueue_found :
        Secret → String → World E → Outcome (Option Crypt) → Outcome (World E)
    enqueue_found secret name w panicked = panicked
    enqueue_found secret name w (returned none) = returned (report (ignoring_orphan secret name) w)
    enqueue_found secret name w (returned (some c)) = returned (enqueue_crypt E (crypt c) w)

    -- `cryptClientset.CoreV1alpha1().Crypts("").List(metav1.ListOptions{})`, its error dropped.
    unfoldable pub all_crypts : List Crypt
    all_crypts = (Client.list clients options).0.items
      where
        clients : Client.Crypts
        clients = record { client = C.crypt_clientset; ns = "" }

        options : Client.ListOptions
        options = record {
          label_selector = "";
          field_selector = "";
          watch = false;
          timeout_seconds = none;
        }

    -- The handler from the point where the secret is known.
    unfoldable pub handle_deleted : Secret → World E → Outcome (World E)
    unfolding enqueue_found
    handle_deleted secret w = elim (E.get_controller_of secret) [
      | none ↦ returned w
      | some owner_ref ↦
          if owner_ref.kind == "Crypt"
          then enqueue_found secret owner_ref.name w (search_crypt owner_ref.name all_crypts [])
          else returned w
    ]

    unfoldable pub handle_tombstone : Any → World E → Option Any → Outcome (World E)
    handle_tombstone obj w none = returned (report (no_tombstone obj) w)
    handle_tombstone obj w (some inner) = elim (as_secret inner) [
      | none ↦ returned (report (no_secret_in_tombstone obj) w)
      | some secret ↦ handle_deleted secret w
    ]

    unfoldable pub handle_secret_delete : Any → World E → Outcome (World E)
    unfolding handle_tombstone
    handle_secret_delete obj w = elim (as_secret obj) [
      | some secret ↦ handle_deleted secret w
      | none ↦ handle_tombstone obj w (as_tombstone obj)
    ]

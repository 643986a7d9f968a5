-- ===== src/Controller/Start/Typed.antt =====
-- The panics of controller/controller.go and pkg/client/listers/crypt/v1alpha1/crypt.go, where the
-- informers' caches hold Crypts.
use crypt_controller.Base.{
  String, true, ◌≡◌, refl, ◌∙◌, ap, Option, none, some, List, [], ◌∷◌, inl, inr, Option-cases,
  Bool-cases, contains, string_eq, ◌<>◌, ◌==◌,
}
use crypt_controller.Base.Outcome.{
  Error, Result, ok, err, Result-cases, Outcome, returned, panicked,
}
use crypt_controller.Kube.{Namespace, Secret, GroupResource}
use crypt_controller.Api.{Crypt}
use crypt_controller.Any.{Any, crypt, as_secret, as_namespace, as_tombstone}
use crypt_controller.Lister.{Indexer, Selector, StatusErrors, get_in, list_in}
use crypt_controller.Lister.Listings.{all_as_crypts, listing_of, list-list_in}
use crypt_controller.Controller.{Env, Controller, World}
use crypt_controller.Controller.Handlers.{
  visit_namespaces, visit_listed, handle_namespace_add, search_crypt, all_crypts, enqueue_found,
  handle_deleted, handle_tombstone, handle_secret_delete,
}
use crypt_controller.Controller.Start.{
  Notice, of_crypts, of_secrets, of_namespaces, added, updated, deleted, notify,
}

-- The cache of an informer for Crypts: what it holds are Crypts, and a read of it fails only to say that
-- there is none.
pub record HoldsCrypts (errors : StatusErrors) (indexer : Indexer) : Type 0 where
  pub read_crypt :
      (key : String) (obj : Any)
      → indexer.get_by_key key ≡ ok (some obj)
      → (c : Crypt) × (obj ≡ crypt c)
  pub read_fails :
      (key : String) (e : Error) → indexer.get_by_key key ≡ err e → errors.is_not_found e ≡ true
  pub listed_crypts :
      (ns : String) (selector : Selector)
      → (cs : List Crypt) × (all_as_crypts (indexer.list_all_by_namespace ns selector).0 ≡ some cs)

-- `errors.IsNotFound` knows the errors that `errors.NewNotFound` makes.
abbrev pub KnowsNotFound : StatusErrors → Type 0
KnowsNotFound errors =
    (r : GroupResource) (name : String) → errors.is_not_found (errors.new_not_found r name) ≡ true

module _ (E : Env) (K : KnowsNotFound E.errors) where
  -- A read that does not break a sync.
  abbrev pub Readable : Outcome (Result Crypt) → Type 0
  Readable panicked = ⊥
  Readable (returned (ok c)) = Unit
  Readable (returned (err e)) = E.errors.is_not_found e ≡ true

  abbrev pub Returns : Outcome (World E) → Type 0
  Returns panicked = ⊥
  Returns (returned w) = Unit

  module _ (C : Controller) (H : HoldsCrypts E.errors C.crypt_lister) where
    pub get_in-Readable : (ns name : String) → Readable (get_in E.errors C.crypt_lister ns name)
    unfolding get_in
    get_in-Readable ns name = elim (Result-cases (C.crypt_lister.get_by_key (ns <> "/" <> name))) [
      | inr (e, failed) ↦ rw (get_in, failed) (H.read_fails _ e failed)
      | inl (none, got) ↦ rw (get_in, got) (K _ name)
      | inl (some obj, got) ↦
          let (c, is_crypt) = H.read_crypt _ obj got in
          rw (get_in, got ∙ ap (λ o. ok (some o)) is_crypt) tt
    ]

    visit_namespaces-Returns :
        (name : String) (nss : List Namespace) (w : World E)
        → Returns (visit_namespaces E C name nss w)
    unfolding visit_namespaces
    visit_namespaces-Returns name [] w = tt
    visit_namespaces-Returns name (ns ∷ rest) w =
        let (cs, all) = H.listed_crypts ns.meta.name E.new_selector in
        let r = C.crypt_lister.list_all_by_namespace ns.meta.name E.new_selector in
        let e : list_in C.crypt_lister ns.meta.name E.new_selector ≡ returned (cs, r.1) =
          (list-list_in C.crypt_lister ns.meta.name E.new_selector).1 ∙ rw (listing_of, all) refl in
        elim (Option-cases r.1) [
          | inl clean ↦ rw (visit_namespaces, e, clean) (visit_namespaces-Returns name rest _)
          | inr (x, failed) ↦
              rw (visit_namespaces, e, failed) (visit_namespaces-Returns name rest w)
        ]

    visit_listed-Returns :
        (name : String) (r : List Namespace × Option Error) (w : World E)
        → Returns (visit_listed E C name r w)
    unfolding visit_listed
    visit_listed-Returns name (nss, some e) w = tt
    visit_listed-Returns name (nss, none) w = visit_namespaces-Returns name nss w

    handle_namespace_add-Returns :
        (obj : Any) (w : World E) → Returns (handle_namespace_add E C obj w)
    unfolding handle_namespace_add
    handle_namespace_add-Returns obj w = elim (Option-cases (as_namespace obj)) [
      | inl e ↦ rw (handle_namespace_add, e) tt
      | inr (ns, e) ↦ rw (handle_namespace_add, e) (visit_listed-Returns ns.meta.name _ w)
    ]

    -- The search finds a Crypt or none.
    abbrev Finds : Outcome (Option Crypt) → Type 0
    Finds panicked = ⊥
    Finds (returned o) = Unit

    search_crypt-Finds :
        (name : String) (cs : List Crypt) (checked : List String)
        → Finds (search_crypt E C name cs checked)
    unfolding search_crypt
    search_crypt-Finds name [] checked = tt
    search_crypt-Finds name (ci ∷ rest) checked =
        elim (Bool-cases (contains checked ci.meta.namespace)) [
          | inl before ↦ rw (search_crypt, before) (search_crypt-Finds name rest checked)
          | inr first ↦
              rw (search_crypt, first)
                (go (get_in E.errors C.crypt_lister ci.meta.namespace name)
                  (get_in-Readable ci.meta.namespace name)
                  (search_crypt-Finds name rest (ci.meta.namespace ∷ checked)))
        ]
      where
        go :
            (r : Outcome (Result Crypt))
            → Readable r
            → Finds (search_crypt E C name rest (ci.meta.namespace ∷ checked))
            → Finds (elim r [
              | panicked ↦ panicked
              | returned (ok c) ↦ returned (some c)
              | returned (err e) ↦ search_crypt E C name rest (ci.meta.namespace ∷ checked)
            ])
        go panicked p later = p
        go (returned (ok c)) p later = tt
        go (returned (err e)) p later = later

    enqueue_found-Returns :
        (s : Secret) (name : String) (w : World E) (r : Outcome (Option Crypt))
        → Finds r
        → Returns (enqueue_found E C s name w r)
    unfolding enqueue_found
    enqueue_found-Returns s name w panicked p = p
    enqueue_found-Returns s name w (returned none) p = tt
    enqueue_found-Returns s name w (returned (some c)) p = tt

    handle_deleted-Returns : (s : Secret) (w : World E) → Returns (handle_deleted E C s w)
    unfolding handle_deleted
    handle_deleted-Returns s w = elim (Option-cases (E.get_controller_of s)) [
      | inl e ↦ rw (handle_deleted, e) tt
      | inr (r, e) ↦
          rw (handle_deleted, e)
            (elim (Bool-cases (r.kind == "Crypt")) [
              | inl same ↦ rw same (
                  enqueue_found-Returns s r.name w _
                    (search_crypt-Finds r.name (all_crypts E C) []))
              | inr differs ↦ rw differs tt
            ])
    ]

    handle_tombstone-Returns :
        (obj : Any) (w : World E) (inner : Option Any) → Returns (handle_tombstone E C obj w inner)
    unfolding handle_tombstone
    handle_tombstone-Returns obj w none = tt
    handle_tombstone-Returns obj w (some inner) = elim (Option-cases (as_secret inner)) [
      | inl e ↦ rw (handle_tombstone, e) tt
      | inr (s, e) ↦ rw (handle_tombstone, e) (handle_deleted-Returns s w)
    ]

    handle_secret_delete-Returns :
        (obj : Any) (w : World E) → Returns (handle_secret_delete E C obj w)
    unfolding handle_secret_delete
    handle_secret_delete-Returns obj w = elim (Option-cases (as_secret obj)) [
      | inl e ↦ rw (handle_secret_delete, e) (handle_tombstone-Returns obj w (as_tombstone obj))
      | inr (s, e) ↦ rw (handle_secret_delete, e) (handle_deleted-Returns s w)
    ]

    pub notify-Returns : (n : Notice) (w : World E) → Returns (notify E C n w)
    unfolding notify
    notify-Returns (of_crypts (added obj)) w = tt
    notify-Returns (of_crypts (updated old new)) w = tt
    notify-Returns (of_crypts (deleted obj)) w = tt
    notify-Returns (of_secrets (added obj)) w = tt
    notify-Returns (of_secrets (updated old new)) w = tt
    notify-Returns (of_secrets (deleted obj)) w = handle_secret_delete-Returns obj w
    notify-Returns (of_namespaces (added obj)) w = handle_namespace_add-Returns obj w
    notify-Returns (of_namespaces (updated old new)) w = tt
    notify-Returns (of_namespaces (deleted obj)) w = tt

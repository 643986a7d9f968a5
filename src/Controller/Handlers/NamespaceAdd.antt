-- ===== src/Controller/Handlers/NamespaceAdd.antt =====
-- Which Crypts `handleNamespaceAdd` of controller/controller.go puts on the queue.
use mathlib.Core.List.{foldl}
use crypt_controller.Base.{
  String, true, ◌≡◌, refl, ◌∙◌, ap, sym, subst, Option, none, some, List, [], ◌∷◌, ◌++◌, arith,
  find,
}
use crypt_controller.Base.Outcome.{Error, returned}
use crypt_controller.Kube.{Namespace}
use crypt_controller.Api.{Crypt}
use crypt_controller.Any.{crypt, namespace}
use crypt_controller.Lister.{list_in}
use crypt_controller.Controller.{Env, Controller, World}
use crypt_controller.Controller.Sync.Targets.{is_matched}
use crypt_controller.Controller.Worker.{enqueue_crypt}
use crypt_controller.Controller.Handlers.{
  some_match, enqueue_matching, visit_namespaces, handle_namespace_add,
}

module _ (E : Env) where
  -- The first Crypt of a list of which a pattern matches the name, as a list of at most one.
  abbrev pub first_match : String → List Crypt → List Crypt
  first_match name crypts = elim (find (λ c. is_matched E c.spec.namespaces name) crypts) [
    | none ↦ []
    | some c ↦ c ∷ []
  ]

  abbrev pub enqueue_each : List Crypt → World E → World E
  enqueue_each cs w = foldl (λ w' c. enqueue_crypt E (crypt c) w') w cs

  some_match-is_matched :
      (name : String) (patterns : List String)
      → some_match E name patterns ≡ is_matched E patterns name
  unfolding some_match
  some_match-is_matched name [] = refl
  some_match-is_matched name (p ∷ rest) = ground (arith, some_match-is_matched name rest)

  enqueue_matching_lem :
      (name : String) (crypts : List Crypt) (w : World E)
      → enqueue_matching E name crypts w ≡ enqueue_each (first_match name crypts) w
  unfolding enqueue_matching
  enqueue_matching_lem name [] w = refl
  enqueue_matching_lem name (c ∷ rest) w =
      ground (arith, some_match-is_matched name c.spec.namespaces, enqueue_matching_lem name rest w)

  first_match-append :
      (name : String) (c : Crypt) (earlier later : List Crypt)
      → find (λ d. is_matched E d.spec.namespaces name) earlier ≡ none
      → is_matched E c.spec.namespaces name ≡ true
      → first_match name (earlier ++ c ∷ later) ≡ c ∷ []
  first_match-append name c [] later before hit = ground arith
  first_match-append name c (d ∷ earlier) later before hit =
      ground (arith, first_match-append name c earlier later)

  enqueue_each-append :
      (cs ds : List Crypt) (w : World E)
      → enqueue_each (cs ++ ds) w ≡ enqueue_each ds (enqueue_each cs w)
  enqueue_each-append [] ds w = refl
  enqueue_each-append (c ∷ cs) ds w = enqueue_each-append cs ds _

  -- What a listing of one namespace contributes: nothing if it has an error.
  abbrev pub usable : List Crypt × Option Error → List Crypt
  usable (crypts, none) = crypts
  usable (crypts, some e) = []

  -- The first match in each namespace, in the order of the namespaces.
  abbrev pub first_matches :
      String → (String → List Crypt × Option Error) → List Namespace → List Crypt
  first_matches name listing [] = []
  first_matches name listing (ns ∷ rest) =
      first_match name (usable (listing ns.meta.name)) ++ first_matches name listing rest

  module _ (C : Controller) (listing : String → List Crypt × Option Error)
      (listed : (ns : String)
        → list_in C.crypt_lister ns E.new_selector ≡ returned (listing ns)) where
    visit_one :
        (name : String) (ns : Namespace) (rest : List Namespace) (w : World E)
        → visit_namespaces E C name (ns ∷ rest) w
          ≡ visit_namespaces E C name rest
              (enqueue_each (first_match name (usable (listing ns.meta.name))) w)
    unfolding visit_namespaces
    visit_one name ns rest w =
        ground (arith, listed ns.meta.name, enqueue_matching_lem name (listing ns.meta.name).0 w)

    visit_namespaces_lem :
        (name : String) (nss : List Namespace) (w : World E)
        → visit_namespaces E C name nss w
          ≡ returned (enqueue_each (first_matches name listing nss) w)
    unfolding visit_namespaces
    visit_namespaces_lem name [] w = refl
    visit_namespaces_lem name (ns ∷ rest) w =
        visit_one name ns rest w
        ∙ visit_namespaces_lem name rest _
        ∙ ap returned (
            sym (
              enqueue_each-append (first_match name (usable (listing ns.meta.name)))
                (first_matches name listing rest) w))

    -- Where the listings of Crypts hold nothing but Crypts, `handleNamespaceAdd` of a namespace puts
    -- on the queue, for each cached namespace in turn, the first Crypt listed there of which a pattern
    -- matches the new namespace's name, and no other: the rest of that namespace's Crypts is passed
    -- over. A namespace whose listing has an error contributes none, and an error in listing the
    -- namespaces leaves the world as it is.
    pub handle_namespace_add-first_matches :
        (new : Namespace) (w : World E)
        → handle_namespace_add E C (namespace new) w
          ≡ returned (elim (C.namespace_lister E.new_selector).1 [
            | some e ↦ w
            | none ↦
                enqueue_each
                  (first_matches new.meta.name listing (C.namespace_lister E.new_selector).0)
                  w
          ])
    unfolding handle_namespace_add
    handle_namespace_add-first_matches new w =
        ground (arith, visit_namespaces_lem new.meta.name (C.namespace_lister E.new_selector).0 w)

    -- The Crypts of one namespace, `c` with a match before all of `later`: whichever Crypts come
    -- later, and whether or not they match, only `c` is put on the queue.
    pub handle_namespace_add_skips :
        (new ns : Namespace) (earlier later : List Crypt) (c : Crypt) (w : World E)
        → C.namespace_lister E.new_selector ≡ (ns ∷ [], none)
        → listing ns.meta.name ≡ (earlier ++ c ∷ later, none)
        → find (λ d. is_matched E d.spec.namespaces new.meta.name) earlier ≡ none
        → is_matched E c.spec.namespaces new.meta.name ≡ true
        → handle_namespace_add E C (namespace new) w ≡ returned (enqueue_crypt E (crypt c) w)
    handle_namespace_add_skips new ns earlier later c w one l before hit =
        handle_namespace_add-first_matches new w
        ∙ subst
            (λ (l' : List Namespace × Option Error).
              returned (elim l'.1 [
                | some e ↦ w
                | none ↦ enqueue_each (first_matches new.meta.name listing l'.0) w
              ])
              ≡ returned (enqueue_crypt E (crypt c) w))
            (sym one)
            (ap (λ m. returned (enqueue_each (m ++ []) w))
              (ap (λ r. first_match new.meta.name (usable r)) l
                ∙ first_match-append new.meta.name c earlier later before hit))

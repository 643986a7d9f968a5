-- ===== src/Controller/Handlers/SecretDelete.antt =====
-- Which Crypt `handleSecretDelete` of controller/controller.go puts on the queue.
use crypt_controller.Base.{
  String, true, false, ◌≡◌, ◌≢◌, refl, ◌∙◌, sym, subst, Option, none, some, List, [], ◌∷◌, arith,
  contains, map, ◌==◌, ==_iff, ==_refl, string_eq, inl, inr, Bool-cases,
}
use crypt_controller.Base.Dict.{GoMap}
use crypt_controller.Base.Outcome.{Error, Result, ok, err, Outcome, returned, panicked}
use crypt_controller.Kube.{Bytes, Secret, OwnerReference, GroupVersionKind}
use crypt_controller.Api.{Crypt, SecretDefinition}
use crypt_controller.Any.{Any, crypt, secret, deleted_final_state_unknown}
use crypt_controller.Lister.{get_in}
use crypt_controller.Controller.{Env, Controller, World}
use crypt_controller.Controller.Secrets.{new_secret, crypt_kind}
use crypt_controller.Controller.Worker.{enqueue_crypt}
use crypt_controller.Controller.Handlers.{
  search_crypt, all_crypts, handle_deleted, handle_secret_delete,
}

-- What `NewControllerRef` and `GetControllerOf` document: a reference to an object by its name and the
-- given kind, marked as the controller's; and the reference of a list that is so marked.
pub record IsOwnership (E : Env) : Type 0 where
  pub ref_kind : (c : Crypt) (k : GroupVersionKind) → (E.new_controller_ref c k).kind ≡ k.kind
  pub ref_name : (c : Crypt) (k : GroupVersionKind) → (E.new_controller_ref c k).name ≡ c.meta.name
  pub ref_controls :
      (c : Crypt) (k : GroupVersionKind) → (E.new_controller_ref c k).controller ≡ true
  pub controller_of_one :
      (s : Secret) (r : OwnerReference)
      → s.meta.owner_references ≡ r ∷ []
      → r.controller ≡ true
      → E.get_controller_of s ≡ some r

-- The forms in which an informer reports a deleted secret.
pub data Reports (s : Secret) : Any → Type 0 where
  directly : Reports s (secret s)
  by_tombstone : (key : String) → Reports s (deleted_final_state_unknown key (secret s))

module _ (E : Env) (C : Controller) where
  -- The first hit among the namespaces of the listed Crypts, each looked up as often as it stands
  -- there.
  abbrev pub first_hit : String → List Crypt → Outcome (Option Crypt)
  first_hit name [] = returned none
  first_hit name (ci ∷ rest) = elim (get_in E.errors C.crypt_lister ci.meta.namespace name) [
    | panicked ↦ panicked
    | returned (ok c) ↦ returned (some c)
    | returned (err e) ↦ first_hit name rest
  ]

  -- A namespace whose cached Crypts have none of the name.
  abbrev pub Misses : String → String → Type 0
  Misses name ns = (e : Error) × (get_in E.errors C.crypt_lister ns name ≡ returned (err e))

  abbrev pub namespaces_of : List Crypt → List String
  namespaces_of = map (λ c. c.meta.namespace)

  -- A namespace that missed joins those that are known to miss.
  Misses-cons :
      (name ns : String) (checked : List String)
      → Misses name ns
      → ((ns' : String) → contains checked ns' ≡ true → Misses name ns')
      → (ns' : String) → contains (ns ∷ checked) ns' ≡ true
      → Misses name ns'
  Misses-cons name ns checked m h ns' listed = elim (Bool-cases (ns' == ns)) [
    | inl same ↦ subst (λ (a : String). Misses name a) (sym ((==_iff ns' ns).0 same)) m
    | inr differ ↦ h ns' (ground arith)
  ]

  search_crypt_onto :
      (name : String) (items : List Crypt) (checked : List String)
      → ((ns : String) → contains checked ns ≡ true → Misses name ns)
      → search_crypt E C name items checked ≡ first_hit name items
  unfolding search_crypt
  search_crypt_onto name [] checked h = refl
  search_crypt_onto name (ci ∷ rest) checked h =
      elim (Bool-cases (contains checked ci.meta.namespace)) [
        | inl seen ↦
            let (e, miss) = h ci.meta.namespace seen in
            ground (arith, seen, miss, search_crypt_onto name rest checked h)
        | inr fresh ↦ look (get_in E.errors C.crypt_lister ci.meta.namespace name) refl fresh (λ m.
            search_crypt_onto name rest (ci.meta.namespace ∷ checked)
              (Misses-cons name ci.meta.namespace checked m h))
      ]
    where
      look :
          (r : Outcome (Result Crypt))
          → get_in E.errors C.crypt_lister ci.meta.namespace name ≡ r
          → contains checked ci.meta.namespace ≡ false
          → (Misses name ci.meta.namespace
              → search_crypt E C name rest (ci.meta.namespace ∷ checked) ≡ first_hit name rest)
          → search_crypt E C name (ci ∷ rest) checked ≡ first_hit name (ci ∷ rest)
      look panicked e fresh later = ground arith
      look (returned (ok c)) e fresh later = ground arith
      look (returned (err x)) e fresh later = ground (arith, later (x, e))

  -- Passing over the namespaces that were looked up before does not change what the search finds.
  search_crypt-first_hit :
      (name : String) (items : List Crypt) → search_crypt E C name items [] ≡ first_hit name items
  search_crypt-first_hit name items =
      search_crypt_onto name items [] (λ ns h. absurd (ground arith))

  handle_deleted_found :
      (s : Secret) (r : OwnerReference) (c : Crypt) (w : World E)
      → E.get_controller_of s ≡ some r
      → r.kind ≡ "Crypt"
      → first_hit r.name (all_crypts E C) ≡ returned (some c)
      → handle_deleted E C s w ≡ returned (enqueue_crypt E (crypt c) w)
  unfolding handle_deleted
  handle_deleted_found s r c w owned kind found =
      ground (arith, ==_iff r.kind "Crypt", search_crypt-first_hit r.name (all_crypts E C))

  -- Where a namespace is among those listed, and it alone has a Crypt of the name, that is the hit.
  first_hit_only :
      (name ns : String) (c : Crypt) (items : List Crypt)
      → contains (namespaces_of items) ns ≡ true
      → get_in E.errors C.crypt_lister ns name ≡ returned (ok c)
      → ((ns' : String) → contains (namespaces_of items) ns' ≡ true → ns' ≢ ns → Misses name ns')
      → first_hit name items ≡ returned (some c)
  first_hit_only name ns c [] listed hit others = cc
  first_hit_only name ns c (ci ∷ rest) listed hit others =
      elim (Bool-cases (ns == ci.meta.namespace)) [
        | inl same ↦
            let here =
              subst (λ (a : String). get_in E.errors C.crypt_lister a name ≡ returned (ok c))
                ((==_iff ns ci.meta.namespace).0 same) hit in
            ground (arith, here)
        | inr differ ↦
            let (e, miss) =
              others ci.meta.namespace (ground (arith, ==_refl ci.meta.namespace))
                (λ p. absurd (ground (arith, differ, ==_iff ns ci.meta.namespace, sym p))) in
            ground (
              arith,
              miss,
              first_hit_only name ns c rest (ground arith) hit
                  (λ ns' m. others ns' (ground (arith, m))),
            )
      ]

  handle_reported :
      (s : Secret) (obj : Any) (w : World E)
      → Reports s obj
      → handle_secret_delete E C obj w ≡ handle_deleted E C s w
  unfolding handle_secret_delete
  handle_reported s obj w directly = refl
  handle_reported s obj w (by_tombstone key) = refl

  module _ (O : IsOwnership E) where
    -- When a secret that `newSecret` made for the Crypt `c` is reported as deleted, directly or by a
    -- tombstone, `handleSecretDelete` puts on the queue the first Crypt that has the name of `c` in
    -- the cache, over the namespaces of the Crypts that the API server lists. Neither the UID of the
    -- owner nor the namespace of `c` plays a part in the choice.
    pub handle_secret_delete-first_hit :
        (payload : GoMap Bytes) (sec : SecretDefinition) (c d : Crypt) (target : String) (obj : Any)
        (w : World E)
        → Reports (new_secret E payload sec c target) obj
        → first_hit c.meta.name (all_crypts E C) ≡ returned (some d)
        → handle_secret_delete E C obj w ≡ returned (enqueue_crypt E (crypt d) w)
    unfolding new_secret
    handle_secret_delete-first_hit payload sec c d target obj w reported found =
        handle_reported _ obj w reported
        ∙ handle_deleted_found _ (E.new_controller_ref c crypt_kind) d w
            (O.controller_of_one _ _ refl (O.ref_controls c crypt_kind)) (O.ref_kind c crypt_kind)
            (rw (O.ref_name c crypt_kind) found)

    -- A secret that `newSecret` made for a cached Crypt brings that Crypt back on the queue when it is
    -- reported as deleted, if the API server lists a Crypt of the same namespace and no
    -- other namespace of a listed Crypt has a cached Crypt of the same name.
    pub handle_secret_delete_restores :
        (payload : GoMap Bytes) (sec : SecretDefinition) (c : Crypt) (target : String) (obj : Any)
        (w : World E)
        → Reports (new_secret E payload sec c target) obj
        → contains (namespaces_of (all_crypts E C)) c.meta.namespace ≡ true
        → get_in E.errors C.crypt_lister c.meta.namespace c.meta.name ≡ returned (ok c)
        → ((ns : String)
            → contains (namespaces_of (all_crypts E C)) ns ≡ true
            → ns ≢ c.meta.namespace
            → Misses c.meta.name ns)
        → handle_secret_delete E C obj w ≡ returned (enqueue_crypt E (crypt c) w)
    handle_secret_delete_restores payload sec c target obj w reported listed cached others =
        handle_secret_delete-first_hit payload sec c c target obj w reported
          (first_hit_only c.meta.name c.meta.namespace c (all_crypts E C) listed cached others)

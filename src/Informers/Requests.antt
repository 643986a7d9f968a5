-- ===== src/Informers/Requests.antt =====
-- Which informer `InformerFor` of pkg/client/informers/externalversions/factory.go gives, however the
-- calls on the factory are ordered.
use crypt_controller.Base.{
  ℕ, String, ◌≡◌, refl, ap, ◌∙◌, none, some, List, [], ◌∷◌, ◌++◌, arith, inl, inr, Option-cases,
  ◌==◌, ==_iff, ==_refl, string_eq, if◌then◌else◌, ◌&&◌,
}
use crypt_controller.Base.Dict.{Entries, lookup, insert, lookup-insert}
use crypt_controller.Base.Outcome.{external, Result, ok, err}
use crypt_controller.Client.{RestClient}
use crypt_controller.Api.{scheme_group_version}
use crypt_controller.Informers.Crypts.{
  Indexers, crypts_informer, for_resource, GroupVersionResource, GenericInformer, informer,
}
use crypt_controller.Informers.{
  Factory, NewInformerFunc, informer_for, start, ListWatch, crypt_type,
}

-- A call on a factory.
pub data Call (Informer : Type 0) : Type 1 where
  ask : String → NewInformerFunc Informer → Call Informer
  begin : Call Informer

-- A new key leaves what a map has.
lookup_keeps :
    {V : Type 0} (t u : String) (v : V) (d : Entries V) (i : V)
    → lookup u d ≡ none
    → lookup t d ≡ some i
    → lookup t (insert u v d) ≡ some i
lookup_keeps t u v d i e h = ground (arith, ==_iff t u, lookup-insert t u v d)

module _ {Informer : Type 0} where
  abbrev pub called : Call Informer → Factory Informer → List (String × Informer) × Factory Informer
  called (ask t new_func) f = ([], (informer_for Informer t new_func f).1)
  called begin f = start Informer f

  -- The informers that are run by the calls, and the factory after them.
  abbrev pub call_all :
      List (Call Informer) → Factory Informer → List (String × Informer) × Factory Informer
  call_all [] f = ([], f)
  call_all (c ∷ cs) f =
      let one = called c f in let later = call_all cs one.1 in (one.0 ++ later.0, later.1)

  -- An informer that the factory has stays.
  informer_for_keeps :
      (t u : String) (new_func : NewInformerFunc Informer) (f : Factory Informer) (i : Informer)
      → lookup t f.informers ≡ some i
      → lookup t (informer_for Informer u new_func f).1.informers ≡ some i
  unfolding informer_for
  informer_for_keeps t u new_func f i h = elim (Option-cases (lookup u f.informers)) [
    | inr (j, e) ↦ rw (informer_for, e) h
    | inl e ↦ rw (informer_for, e) (lookup_keeps t u _ f.informers i e h)
  ]

  called_keeps :
      (t : String) (c : Call Informer) (f : Factory Informer) (i : Informer)
      → lookup t f.informers ≡ some i
      → lookup t (called c f).1.informers ≡ some i
  unfolding start
  called_keeps t (ask u new_func) f i h = informer_for_keeps t u new_func f i h
  called_keeps t begin f i h = h

  call_all_keeps :
      (t : String) (cs : List (Call Informer)) (f : Factory Informer) (i : Informer)
      → lookup t f.informers ≡ some i
      → lookup t (call_all cs f).1.informers ≡ some i
  call_all_keeps t [] f i h = h
  call_all_keeps t (c ∷ cs) f i h = call_all_keeps t cs (called c f).1 i (called_keeps t c f i h)

  informer_for_has :
      (t : String) (new_func : NewInformerFunc Informer) (f : Factory Informer)
      → lookup t (informer_for Informer t new_func f).1.informers
        ≡ some (informer_for Informer t new_func f).0
  unfolding informer_for
  informer_for_has t new_func f = elim (Option-cases (lookup t f.informers)) [
    | inr (j, e) ↦ rw (informer_for, e) e
    | inl e ↦
        rw (informer_for, e)
          (lookup-insert t t (new_func f.client _) f.informers ∙ rw (==_refl t) refl)
  ]

  informer_for_there :
      (t : String) (new_func : NewInformerFunc Informer) (f : Factory Informer) (i : Informer)
      → lookup t f.informers ≡ some i
      → informer_for Informer t new_func f ≡ (i, f)
  unfolding informer_for
  informer_for_there t new_func f i h = rw (informer_for, h) refl

  module _ (t : String) (first later : NewInformerFunc Informer) (cs : List (Call Informer))
      (f : Factory Informer) where
    -- Whatever is called after a request for the informer of a type, and whatever function a second
    -- request brings, that gives the informer of the first, and leaves the factory as it is.
    pub informer_for_shares :
        informer_for Informer t later (call_all cs (informer_for Informer t first f).1).1
        ≡ ((informer_for Informer t first f).0, (call_all cs (informer_for Informer t first f).1).1)
    informer_for_shares =
        informer_for_there t later _ _ (call_all_keeps t cs _ _ (informer_for_has t first f))

  module _ (new_informer : (client : RestClient) → ListWatch client → ℕ → Indexers → Informer) where
    -- ForResource refuses every resource but the crypts of this group and version, and for those it
    -- gives, whatever has been called since, the informer that Crypts().Informer() gave before, with the
    -- group and the name of the resource, and leaves the factory as it is.
    pub for_resource_shares :
        (r : GroupVersionResource) (cs : List (Call Informer)) (f : Factory Informer)
        → for_resource new_informer r (call_all cs (crypts_informer new_informer f).1).1 ≡ (
            if r.group == scheme_group_version.group
              && (r.version == scheme_group_version.version && r.resource == "crypts")
            then ok (
              record {
                informer = (crypts_informer new_informer f).0;
                resource = record { group = r.group; resource = r.resource };
              },
              (call_all cs (crypts_informer new_informer f).1).1,
            )
            else err (external "no informer found"))
    unfolding for_resource informer
    for_resource_shares r cs f =
        ap {B = Result (GenericInformer new_informer × Factory Informer)}
          (λ (x : Informer × Factory Informer).
            if r.group == scheme_group_version.group
              && (r.version == scheme_group_version.version && r.resource == "crypts")
            then ok (
              record {
                informer = x.0;
                resource = record { group = r.group; resource = r.resource };
              },
              x.1,
            )
            else err (external "no informer found"))
          (informer_for_there crypt_type _ _ _
            (call_all_keeps crypt_type cs _ _ (informer_for_has crypt_type _ f)))

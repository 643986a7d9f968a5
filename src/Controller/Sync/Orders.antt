-- ===== src/Controller/Sync/Orders.antt =====
-- Syncs of controller/controller.go one after the other.
use crypt_controller.Base.{or_keep, String, ◌≡◌, ap, sym, ◌∙◌, Option, none, ◌⊎◌, arith}
use crypt_controller.Base.Outcome.{ok, returned}
use crypt_controller.Kube.{Secret}
use crypt_controller.Api.{Crypt}
use crypt_controller.Lister.{get_in}
use crypt_controller.Controller.{Env, Controller, World}
use crypt_controller.Controller.Secrets.Requests.{IsFaithful, Serves}
use crypt_controller.Controller.Sync.{sync_handler}
use crypt_controller.Controller.Sync.Effect.{wanted, held, sync_handler-wanted}

-- A key and the Crypt that it leads to in the cache.
pub record Keyed (E : Env) (C : Controller) : Type 0 where
  pub key : String
  pub namespace : String
  pub name : String
  pub crypt : Crypt
  pub parted : E.split_meta_namespace_key key ≡ ok (namespace, name)
  pub cached : get_in E.errors C.crypt_lister namespace name ≡ returned (ok crypt)

module _ (E : Env) (C : Controller) (F : IsFaithful E.secrets) (ns n : String)
    (v : Serves E ns n) where
  held-sync :
      (k : Keyed E C) (w : World E)
      → held E C (sync_handler E C k.key w).1 ns n
        ≡ or_keep (wanted E C k.crypt ns n) (held E C w ns n)
  held-sync k w =
      (sync_handler-wanted E C F k.key k.namespace k.name ns n k.crypt w k.parted k.cached v).1

  absorbs :
      (a b old : Option Secret)
      → (a ≡ none) ⊎ (b ≡ none)
      → or_keep a (or_keep b (or_keep a old)) ≡ or_keep b (or_keep a old)
  absorbs a b old h = ground arith

  commutes :
      (a b old : Option Secret)
      → (a ≡ none) ⊎ (b ≡ none)
      → or_keep a (or_keep b old) ≡ or_keep b (or_keep a old)
  commutes a b old h = ground arith

  -- Requests act on the secret that they name and no other, and those about the secret `n` of `ns` are
  -- served. Of two cached Crypts at most one asks for that secret. Then it is the same whichever of
  -- them is synced first, and syncing the first once more after both does not change it.
  pub sync_handler_commutes :
      (k l : Keyed E C) (w : World E)
      → (wanted E C k.crypt ns n ≡ none) ⊎ (wanted E C l.crypt ns n ≡ none)
      → (held E C (sync_handler E C l.key (sync_handler E C k.key w).1).1 ns n
          ≡ held E C (sync_handler E C k.key (sync_handler E C l.key w).1).1 ns n)
        × (held E C
              (sync_handler E C k.key (sync_handler E C l.key (sync_handler E C k.key w).1).1).1
              ns
              n
            ≡ held E C (sync_handler E C l.key (sync_handler E C k.key w).1).1 ns n)
  sync_handler_commutes k l w one =
      let first =
        held-sync l (sync_handler E C k.key w).1
        ∙ ap (or_keep (wanted E C l.crypt ns n)) (held-sync k w) in
      (
        first
            ∙ sym
                (commutes (wanted E C k.crypt ns n) (wanted E C l.crypt ns n) (held E C w ns n) one)
            ∙ sym (
                held-sync k (sync_handler E C l.key w).1
                ∙ ap (or_keep (wanted E C k.crypt ns n)) (held-sync l w)),
        held-sync k (sync_handler E C l.key (sync_handler E C k.key w).1).1
            ∙ ap (or_keep (wanted E C k.crypt ns n)) first
            ∙ absorbs (wanted E C k.crypt ns n) (wanted E C l.crypt ns n) (held E C w ns n) one
            ∙ sym first,
      )

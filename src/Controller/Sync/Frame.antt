-- ===== src/Controller/Sync/Frame.antt =====
-- The secrets that the Crypt of a sync does not ask for (`syncHandler` of controller/controller.go).
use crypt_controller.Base.{
  String, ◌≡◌, refl, ◌∙◌, none, List, [], ◌∷◌, arith, contains, ◌==◌, string_eq, inl, inr, false,
}
use crypt_controller.Base.Outcome.{Result, ok, err, Result-cases, Outcome, returned, panicked}
use crypt_controller.Api.{Crypt, SecretDefinition}
use crypt_controller.Store.{get_data}
use crypt_controller.Lister.{get_in}
use crypt_controller.Controller.{Env, Controller, World}
use crypt_controller.Controller.Secrets.{new_secret, create_secret}
use crypt_controller.Controller.Secrets.Requests.{IsFaithful, put_secret_other}
use crypt_controller.Controller.Sync.{create_in, create_all, sync_crypt, sync_found, sync_handler}
use crypt_controller.Controller.Sync.Targets.{contains-namespace_matches}
use crypt_controller.Controller.Sync.Effect.{asked, asked_by_all, wanted, held, held-log_failure}

module _ (E : Env) (C : Controller) where
  module _ (F : IsFaithful E.secrets) (ns n : String) where
    create_secret_keeps :
        (crypt : Crypt) (sec : SecretDefinition) (t : String) (w : World E)
        → asked E C crypt sec (ns == t) ns n ≡ none
        → held E C (create_secret E C sec crypt t w).1 ns n ≡ held E C w ns n
    unfolding create_secret new_secret
    create_secret_keeps crypt sec t w h = elim (Result-cases (C.store.get sec.key)) [
      | inr (e, failed) ↦ rw (failed, create_secret)
      | inl (obj, got) ↦
          rw (got, create_secret)
            (put_secret_other E F t (new_secret E (get_data obj) sec crypt t) w.cluster ns n
              (ground arith))
    ]

    create_in_keeps :
        (key at : String) (crypt : Crypt) (sec : SecretDefinition) (matches : List String)
        (w : World E)
        → asked E C crypt sec (contains matches ns) ns n ≡ none
        → held E C (create_in E C key at crypt sec matches w) ns n ≡ held E C w ns n
    unfolding create_in
    create_in_keeps key at crypt sec [] w h = refl
    create_in_keeps key at crypt sec (t ∷ rest) w h =
        create_in_keeps key at crypt sec rest _ (ground arith)
        ∙ held-log_failure E C key at _ ns n
        ∙ create_secret_keeps crypt sec t w (ground arith)

    create_all_keeps :
        (key at : String) (crypt : Crypt) (secs : List SecretDefinition) (matches : List String)
        (w : World E)
        → asked_by_all E C crypt secs (contains matches ns) ns n ≡ none
        → held E C (create_all E C key at crypt secs matches w) ns n ≡ held E C w ns n
    unfolding create_all
    create_all_keeps key at crypt [] matches w h = refl
    create_all_keeps key at crypt (sec ∷ rest) matches w h =
        create_all_keeps key at crypt rest matches _ (ground arith)
        ∙ create_in_keeps key at crypt sec matches w (ground arith)

    sync_crypt_keeps :
        (key at : String) (crypt : Crypt) (w : World E)
        → wanted E C crypt ns n ≡ none
        → held E C (sync_crypt E C key at crypt w) ns n ≡ held E C w ns n
    unfolding sync_crypt
    sync_crypt_keeps key at crypt w h =
        create_all_keeps key at crypt crypt.spec.secrets _ w
          (rw (contains-namespace_matches E C crypt.spec.namespaces ns) h)

    sync_found_keeps :
        (key at : String) (r : Outcome (Result Crypt)) (w : World E)
        → ((crypt : Crypt) → r ≡ returned (ok crypt) → wanted E C crypt ns n ≡ none)
        → held E C (sync_found E C key at r w).1 ns n ≡ held E C w ns n
    unfolding sync_found
    sync_found_keeps key at panicked w h = refl
    sync_found_keeps key at (returned (err e)) w h = ground arith
    sync_found_keeps key at (returned (ok crypt)) w h =
        sync_crypt_keeps key at crypt w (h crypt refl)

    -- If requests act on the secret that they name and no other, and no Crypt that the key names in
    -- the cache asks for the secret `n` of the namespace `ns`, then `syncHandler` leaves that secret
    -- as it is, whether it returns or panics and whatever the cluster answers to the requests that
    -- are made.
    pub sync_handler_untouched :
        (key : String) (w : World E)
        → ((namespace name : String) (crypt : Crypt)
            → E.split_meta_namespace_key key ≡ ok (namespace, name)
            → get_in E.errors C.crypt_lister namespace name ≡ returned (ok crypt)
            → wanted E C crypt ns n ≡ none)
        → held E C (sync_handler E C key w).1 ns n ≡ held E C w ns n
    unfolding sync_handler
    sync_handler_untouched key w h = elim (Result-cases (E.split_meta_namespace_key key)) [
      | inr (e, bad) ↦ rw (bad, sync_handler)
      | inl ((namespace, name), split) ↦
          rw (split, sync_handler)
            (sync_found_keeps key namespace (get_in E.errors C.crypt_lister namespace name) w
              (λ crypt cached. h namespace name crypt split cached))
    ]

  -- Nothing is asked for in a namespace that is no target.
  pub asked_by_all_untargeted :
      (crypt : Crypt) (secs : List SecretDefinition) (ns n : String)
      → asked_by_all E C crypt secs false ns n ≡ none
  asked_by_all_untargeted crypt [] ns n = refl
  asked_by_all_untargeted crypt (sec ∷ rest) ns n =
      ground (arith, asked_by_all_untargeted crypt rest ns n)

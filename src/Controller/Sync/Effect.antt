-- ===== src/Controller/Sync/Effect.antt =====
-- What `syncHandler` of controller/controller.go does to the secrets of the cluster.
use crypt_controller.Base.{
  or_keep, or_keep_assoc, String, Bool, ◌||◌, ◌≡◌, refl, ◌∙◌, ◌&&◌, Option, none, some, List, [],
  ◌∷◌, arith, contains, ◌==◌, ==_iff, string_eq, if◌then◌else◌, inl, inr,
}
use crypt_controller.Base.Outcome.{Result, ok, err, Result-cases, returned}
use crypt_controller.Kube.{Secret}
use crypt_controller.Api.{Crypt, SecretDefinition, get_key, get_name}
use crypt_controller.Store.{get_data}
use crypt_controller.Lister.{get_in}
use crypt_controller.Controller.{Env, Controller, World}
use crypt_controller.Controller.Secrets.{new_secret, create_secret}
use crypt_controller.Controller.Secrets.Requests.{IsFaithful, Serves, secret_at-put_secret}
use crypt_controller.Controller.Sync.{
  log_failure, create_in, create_all, sync_crypt, sync_found, sync_handler,
}
use crypt_controller.Controller.Sync.Targets.{is_target, contains-namespace_matches}

module _ (E : Env) (C : Controller) where
  -- The secret that one definition asks for under a namespace and a name: none if the namespace is
  -- no target, the name is another, or the store has no value.
  abbrev pub asked : Crypt → SecretDefinition → Bool → String → String → Option Secret
  asked crypt sec targeted ns n = elim (C.store.get (get_key sec)) [
    | err e ↦ none
    | ok obj ↦
        if targeted && n == get_name sec
        then some (new_secret E (get_data obj) sec crypt ns)
        else none
  ]

  -- The secret that a list of definitions asks for: the last one of the name counts.
  abbrev pub asked_by_all : Crypt → List SecretDefinition → Bool → String → String → Option Secret
  asked_by_all crypt [] targeted ns n = none
  asked_by_all crypt (sec ∷ rest) targeted ns n =
      or_keep (asked_by_all crypt rest targeted ns n) (asked crypt sec targeted ns n)

  -- The secret that a Crypt asks for.
  abbrev pub wanted : Crypt → String → String → Option Secret
  wanted crypt ns n =
      asked_by_all crypt crypt.spec.secrets (is_target E C crypt.spec.namespaces ns) ns n

  abbrev pub held : World E → String → String → Option Secret
  held w ns n = E.secrets.secret_at w.cluster ns n

  -- Logging a failure changes no secret.
  pub held-log_failure :
      (key at : String) (r : Result Secret × World E) (ns n : String)
      → held (log_failure E C key at r) ns n ≡ held r.1 ns n
  held-log_failure key at (ok s, w) ns n = refl
  held-log_failure key at (err e, w) ns n = refl

  -- A secret whose requests are served ends as asked, whatever becomes of the other requests.
  module _ (F : IsFaithful E.secrets) (ns n : String) (v : Serves E ns n) where
    held-create_secret :
        (crypt : Crypt) (sec : SecretDefinition) (t : String) (w : World E)
        → held (create_secret E C sec crypt t w).1 ns n
          ≡ or_keep (asked crypt sec (ns == t) ns n) (held w ns n)
    unfolding create_secret new_secret
    held-create_secret crypt sec t w = elim (Result-cases (C.store.get sec.key)) [
      | inr (e, failed) ↦ rw (failed, create_secret, asked)
      | inl (obj, got) ↦
          rw (got, create_secret, asked)
            (ground (
              arith,
              secret_at-put_secret E F t (new_secret E (get_data obj) sec crypt t) w.cluster ns n v,
              ==_iff ns t,
            ))
    ]

    asked-cons :
        (crypt : Crypt) (sec : SecretDefinition) (here later : Bool) (old : Option Secret)
        → or_keep (asked crypt sec later ns n) (or_keep (asked crypt sec here ns n) old)
          ≡ or_keep (asked crypt sec (here || later) ns n) old
    asked-cons crypt sec here later old = ground arith

    held-create_in :
        (key at : String) (crypt : Crypt) (sec : SecretDefinition) (matches : List String)
        (w : World E)
        → held (create_in E C key at crypt sec matches w) ns n
          ≡ or_keep (asked crypt sec (contains matches ns) ns n) (held w ns n)
    unfolding create_in
    held-create_in key at crypt sec [] w = ground arith
    held-create_in key at crypt sec (t ∷ rest) w =
        held-create_in key at crypt sec rest _
        ∙ rw (held-log_failure, held-create_secret crypt sec t w)
            (asked-cons crypt sec (ns == t) (contains rest ns) (held w ns n))

    pub held-create_all :
        (key at : String) (crypt : Crypt) (secs : List SecretDefinition) (matches : List String)
        (w : World E)
        → held (create_all E C key at crypt secs matches w) ns n
          ≡ or_keep (asked_by_all crypt secs (contains matches ns) ns n) (held w ns n)
    unfolding create_all
    held-create_all key at crypt [] matches w = refl
    held-create_all key at crypt (sec ∷ rest) matches w =
        held-create_all key at crypt rest matches _
        ∙ rw (held-create_in key at crypt sec matches w) (
            or_keep_assoc (asked_by_all crypt rest (contains matches ns) ns n)
              (asked crypt sec (contains matches ns) ns n) (held w ns n))

    held-sync_crypt :
        (key at : String) (crypt : Crypt) (w : World E)
        → held (sync_crypt E C key at crypt w) ns n ≡ or_keep (wanted crypt ns n) (held w ns n)
    unfolding sync_crypt
    held-sync_crypt key at crypt w =
        held-create_all key at crypt crypt.spec.secrets _ w
        ∙ rw (contains-namespace_matches E C crypt.spec.namespaces ns)

  module _ (F : IsFaithful E.secrets) where
    -- Where the key names a Crypt in the cache, requests act on the secret that they name and no other,
    -- and those about the secret `n` of `ns` are served, `syncHandler` returns no error and leaves the
    -- secret that the Crypt asks for under that address, or the secret that was there if it asks for
    -- none: it asks by the last definition of the name whose key the store has, in every cached
    -- namespace that one of its patterns matches. This holds whatever becomes of the requests about
    -- other secrets.
    pub sync_handler-wanted :
        (key namespace name ns n : String) (crypt : Crypt) (w : World E)
        → E.split_meta_namespace_key key ≡ ok (namespace, name)
        → get_in E.errors C.crypt_lister namespace name ≡ returned (ok crypt)
        → Serves E ns n
        → ((sync_handler E C key w).0 ≡ returned none)
          × (held (sync_handler E C key w).1 ns n ≡ or_keep (wanted crypt ns n) (held w ns n))
    unfolding sync_handler
    sync_handler-wanted key namespace name ns n crypt w split cached v =
        rw (split, sync_handler, cached, sync_found)
          (refl, held-sync_crypt F ns n v key namespace crypt w)

-- ===== src/Main/Wired.antt =====
-- How far `main` of main.go comes with given flags, and what it starts then.
use crypt_controller.Base.{
  ℕ, ◌+◌, Bool, true, false, ◌≡◌, ◌≢◌, refl, inl, inr, Bool-cases, List, [], ◌∷◌, none, ◌==◌,
  string_eq, ==_iff, arith,
}
use crypt_controller.Base.Outcome.{Error, Result, ok, err}
use crypt_controller.Clientset.{Conf, Clientset, new_for_config}
use crypt_controller.Informers.{crypt_list_watch, informer_for, start, start_each}
use crypt_controller.Base.Dict.{lookup, insert}
use crypt_controller.Informers.Crypts.{informer, default_informer, new_filtered_crypt_informer}
use crypt_controller.Informers.Runs.{one_if}
use crypt_controller.Store.{Store}
use crypt_controller.Store.Factory.{codes, new_store_factory, make}
use crypt_controller.Main.{
  Flags, store_type_not_defined, no_store, no_kube_config, no_kube_client, no_crypt_client, Attempt,
  ready, fatal, or_fatal, Kind, namespaces, secrets, crypts, Packages, Parts, set_up, Call,
  kube_factory_made, asked, handled, kube_factory_started, ran, construct, start_both, wire,
}

abbrev same_kind : Kind → Kind → Bool
same_kind namespaces namespaces = true
same_kind secrets secrets = true
same_kind crypts crypts = true
same_kind _ _ = false

module _ (P : Packages) where
  -- The calls before an informer is started.
  abbrev pub before_start : List (Call P) → List (Call P)
  before_start [] = []
  before_start (kube_factory_started ∷ calls) = []
  before_start (ran i ∷ calls) = []
  before_start (kube_factory_made c n ∷ calls) = kube_factory_made c n ∷ before_start calls
  before_start (asked k ∷ calls) = asked k ∷ before_start calls
  before_start (handled k ∷ calls) = handled k ∷ before_start calls

  -- How often handlers are registered for a kind.
  abbrev pub registrations : Kind → List (Call P) → ℕ
  registrations kind [] = 0
  registrations kind (handled k ∷ calls) = one_if (same_kind kind k) + registrations kind calls
  registrations kind (_ ∷ calls) = registrations kind calls

  -- The Crypt informers that are run.
  abbrev pub runs : List (Call P) → List P.Informer
  runs [] = []
  runs (ran i ∷ calls) = i ∷ runs calls
  runs (_ ∷ calls) = runs calls

  abbrev pub store_of : Flags → Result Store
  store_of flags =
      make P.consul P.unmarshal P.vault (new_store_factory flags.store_config)
        (codes flags.store_type)

  -- What `main` has when it calls `Run`.
  pub record IsWired (flags : Flags) (parts : Parts P) (config : Conf P.library) : Type 1 where
    pub store_made : store_of flags ≡ ok parts.store
    pub config_built : P.build_config_from_flags flags.master_url flags.kube_config ≡ ok config
    pub kube_made : P.kube_for_config config ≡ ok parts.kube_client
    pub client_made : (new_for_config P.library config P.limiters).0 ≡ ok parts.crypt_client
    pub runs_crypts :
        runs (wire P parts).calls
        ≡ P.new_informer parts.crypt_client.core_v1alpha1
            (crypt_list_watch parts.crypt_client.core_v1alpha1 "" none)
            10_000_000_000
            ("namespace" ∷ [])
          ∷ []
    pub registered : (kind : Kind) → registrations kind (wire P parts).calls ≡ 1
    pub registered_before :
        (kind : Kind) → registrations kind (before_start (wire P parts).calls) ≡ 1

  registrations-wire :
      (parts : Parts P) (kind : Kind)
      → (registrations kind (wire P parts).calls ≡ 1)
        × (registrations kind (before_start (wire P parts).calls) ≡ 1)
  unfolding wire construct start_both start start_each informer default_informer
      new_filtered_crypt_informer informer_for lookup insert
  registrations-wire parts namespaces = (refl, refl)
  registrations-wire parts secrets = (refl, refl)
  registrations-wire parts crypts = (refl, refl)

  runs-wire :
      (parts : Parts P)
      → runs (wire P parts).calls
        ≡ P.new_informer parts.crypt_client.core_v1alpha1
            (crypt_list_watch parts.crypt_client.core_v1alpha1 "" none)
            10_000_000_000
            ("namespace" ∷ [])
          ∷ []
  unfolding wire construct start_both start start_each informer default_informer
      new_filtered_crypt_informer informer_for lookup insert
  runs-wire parts = refl

  -- Why `main` gives up, at the first thing that fails, or what it has.
  pub data IsExplained (flags : Flags) : Attempt (Parts P) → Type 1 where
    no_type : flags.store_type ≡ "" → IsExplained flags (fatal store_type_not_defined)
    store_fails :
        (e : Error)
        → flags.store_type ≢ ""
        → store_of flags ≡ err e
        → IsExplained flags (fatal (no_store e))
    config_fails :
        (store : Store) (e : Error)
        → store_of flags ≡ ok store
        → P.build_config_from_flags flags.master_url flags.kube_config ≡ err e
        → IsExplained flags (fatal (no_kube_config e))
    kube_fails :
        (store : Store) (config : Conf P.library) (e : Error)
        → store_of flags ≡ ok store
        → P.build_config_from_flags flags.master_url flags.kube_config ≡ ok config
        → P.kube_for_config config ≡ err e
        → IsExplained flags (fatal (no_kube_client e))
    client_fails :
        (store : Store) (config : Conf P.library) (kube : P.KubeClient) (e : Error)
        → store_of flags ≡ ok store
        → P.build_config_from_flags flags.master_url flags.kube_config ≡ ok config
        → P.kube_for_config config ≡ ok kube
        → (new_for_config P.library config P.limiters).0 ≡ err e
        → IsExplained flags (fatal (no_crypt_client e))
    wired :
        (parts : Parts P) (config : Conf P.library)
        → flags.store_type ≢ ""
        → IsWired flags parts config
        → IsExplained flags (ready parts)

  module _ (flags : Flags) (typed : flags.store_type ≢ "") where
    -- The calls in turn, each with what it gave.
    clients_lem :
        (store : Store) (config : Conf P.library) (kube : Result P.KubeClient)
        (client : Result (Clientset P.library))
        → store_of flags ≡ ok store
        → P.build_config_from_flags flags.master_url flags.kube_config ≡ ok config
        → P.kube_for_config config ≡ kube
        → (new_for_config P.library config P.limiters).0 ≡ client
        → IsExplained flags (
            or_fatal kube no_kube_client (λ k.
              or_fatal client no_crypt_client
                (λ c. ready (record { store = store; kube_client = k; crypt_client = c }))))
    clients_lem store config (err e) client s b k c = kube_fails store config e s b k
    clients_lem store config (ok kube) (err e) s b k c = client_fails store config kube e s b k c
    clients_lem store config (ok kube) (ok client) s b k c = wired _ config typed (record {
      store_made = s;
      config_built = b;
      kube_made = k;
      client_made = c;
      runs_crypts = runs-wire _;
      registered = λ kind. (registrations-wire _ kind).0;
      registered_before = λ kind. (registrations-wire _ kind).1;
    })

    config_lem :
        (store : Store) (config : Result (Conf P.library))
        → store_of flags ≡ ok store
        → P.build_config_from_flags flags.master_url flags.kube_config ≡ config
        → IsExplained flags (
            or_fatal config no_kube_config (λ cfg.
              or_fatal (P.kube_for_config cfg) no_kube_client (λ k.
                or_fatal
                  ((new_for_config P.library cfg P.limiters).0)
                  no_crypt_client
                  (λ c. ready (record { store = store; kube_client = k; crypt_client = c })))))
    config_lem store (err e) s b = config_fails store e s b
    config_lem store (ok config) s b = clients_lem store config _ _ s b refl refl

    store_lem :
        (store : Result Store)
        → store_of flags ≡ store
        → IsExplained flags (
            or_fatal store no_store (λ s.
              or_fatal
                (P.build_config_from_flags flags.master_url flags.kube_config)
                no_kube_config
                (λ cfg. or_fatal (P.kube_for_config cfg) no_kube_client (λ k.
                  or_fatal
                    ((new_for_config P.library cfg P.limiters).0)
                    no_crypt_client
                    (λ c. ready (record { store = s; kube_client = k; crypt_client = c }))))))
    store_lem (err e) s = store_fails e typed s
    store_lem (ok store) s = config_lem store _ s refl

  -- With any flags, `main` gives up because of the first that fails of: the store type is given, the
  -- store is made, the configuration is built, the clientset for Kubernetes is made, the one for Crypts
  -- is made; or all of them succeed, over one configuration. It then has registered its handlers once
  -- for each of the three kinds, before anything is started, and the Crypt informers that it runs are
  -- one: over all namespaces, with the client of that clientset, and a resync period of ten seconds.
  pub set_up-IsExplained : (flags : Flags) → IsExplained flags (set_up P flags)
  unfolding set_up
  set_up-IsExplained flags = elim (Bool-cases (flags.store_type == "")) [
    | inl empty ↦ rw (set_up, empty) (no_type ((==_iff flags.store_type "").0 empty))
    | inr given ↦
        rw (set_up, given)
          (store_lem flags (λ e. ground (arith, given, (==_iff flags.store_type "").1 e)) _ refl)
  ]

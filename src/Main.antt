-- ===== src/Main.antt =====
-- main.go: the flags, what `main` makes of them, and how it wires and starts the informers. The
-- process with its signals is the module Process.
pub mod Wired
pub mod Process
pub mod Endings
pub mod Safety
pub mod Calm
pub mod Ranks
pub mod Stopping
use crypt_controller.Base.{ℕ, String, List, [], ◌∷◌, ◌++◌, map, if◌then◌else◌, ◌==◌, string_eq}
use crypt_controller.Base.Outcome.{Error, Result, ok, err}
use crypt_controller.Kube.{Bytes}
use crypt_controller.Client.{RestClient}
use crypt_controller.Clientset.{Library, Conf, Clientset, new_for_config}
use crypt_controller.Informers.{Factory, ListWatch, new_plain_factory, start}
use crypt_controller.Informers.Crypts.{Indexers, crypts_informer}
use crypt_controller.Store.{Object, Store}
use crypt_controller.Store.Consul as Consul
use crypt_controller.Store.Vault as Vault
use crypt_controller.Store.Factory.{codes, new_store_factory, make}

pub record Flags : Type 0 where
  pub kube_config : String
  pub master_url : String
  pub store_type : String
  pub store_config : String

-- `init`: the variables as they are before `flag.Parse`; `getenv` is `os.Getenv`.
unfoldable pub default_flags : (String → String) → Flags
default_flags getenv = record {
  kube_config = getenv "KUBECONFIGPATH";
  master_url = "";
  store_type = getenv "STORE_TYPE";
  store_config = getenv "STORE_CONFIG";
}

-- What `main` gives up with, by `log.Fatal`.
pub data Fatal : Type 0 where
  store_type_not_defined : Fatal
  no_store no_kube_config no_kube_client no_crypt_client : Error → Fatal

pub data Attempt {ℓ} (A : Type ℓ) : Type ℓ where
  ready : A → Attempt A
  fatal : Fatal → Attempt A

-- `if err != nil { log.Fatalf(…) }` after a call.
abbrev pub or_fatal {ℓ κ} :
    {A : Type ℓ} {B : Type κ} → Result A → (Error → Fatal) → (A → Attempt B) → Attempt B
or_fatal (ok a) why next = next a
or_fatal (err e) why next = fatal (why e)

-- The resource kinds that the controller watches.
pub data Kind : Type 0 where
  namespaces secrets crypts : Kind

-- The packages that `main` calls: `clientcmd`, `kubernetes`, client-go's informers, and what the
-- stores and the clientset call.
pub record Packages : Type 1 where
  pub library : Library
  -- Those that have been made when `NewForConfig` is called.
  pub limiters : library.Limiters
  pub consul : Consul.Api
  pub unmarshal : Bytes → Result Object
  pub vault : Vault.Api
  pub build_config_from_flags : String → String → Result (Conf library)
  pub KubeClient : Type 0
  pub kube_for_config : Conf library → Result KubeClient
  pub Informer : Type 0
  pub new_informer : (client : RestClient) → ListWatch client → ℕ → Indexers → Informer

module _ (P : Packages) where
  pub record Parts : Type 1 where
    pub store : Store
    pub kube_client : P.KubeClient
    pub crypt_client : Clientset P.library

  -- `main` up to the informer factories.
  unfoldable pub set_up : Flags → Attempt Parts
  set_up flags =
      if flags.store_type == ""
      then fatal store_type_not_defined
      else or_fatal
          (make P.consul P.unmarshal P.vault (new_store_factory flags.store_config)
            (codes flags.store_type))
          no_store
          (λ store.
            or_fatal (P.build_config_from_flags flags.master_url flags.kube_config) no_kube_config
              (λ cfg. or_fatal (P.kube_for_config cfg) no_kube_client (λ kube.
                or_fatal (new_for_config P.library cfg P.limiters).0 no_crypt_client (λ client.
                  ready (record { store = store; kube_client = kube; crypt_client = client })))))

  -- The calls on informers and on client-go's factory, in their order.
  pub data Call : Type 0 where
    kube_factory_made : P.KubeClient → (resync : ℕ) → Call
    asked : Kind → Call
    handled : Kind → Call
    kube_factory_started : Call
    ran : P.Informer → Call

  pub record Wiring : Type 1 where
    pub factory : Factory P.Informer
    pub calls : List Call

  -- `Informer()` of a kind: of client-go's factory, or of the one under pkg/client/informers.
  abbrev pub ask : Kind → Wiring → Wiring
  ask crypts w = record {
    factory = (crypts_informer P.new_informer w.factory).1;
    calls = w.calls ++ asked crypts ∷ [];
  }
  ask kind w = record w { calls = w.calls ++ asked kind ∷ [] }

  -- `HasSynced` and the lister, each of which asks for the informer.
  abbrev pub observe : Kind → Wiring → Wiring
  observe kind w = ask kind (ask kind w)

  -- `Informer().AddEventHandler(…)`
  abbrev pub handle : Kind → Wiring → Wiring
  handle kind w =
      let asked = ask kind w in record asked { calls = asked.calls ++ handled kind ∷ [] }

  -- What `New` of controller/controller.go calls on the informers.
  unfoldable pub construct : Wiring → Wiring
  construct w =
      let observed = observe crypts (observe secrets (observe namespaces w)) in
      handle namespaces (handle secrets (handle crypts observed))

  -- Both calls of `Start`.
  unfoldable pub start_both : Wiring → Wiring
  start_both w =
      let runs = start P.Informer w.factory in
      record {
        factory = runs.1;
        calls = w.calls ++ kube_factory_started ∷ map (λ run. ran run.1) runs.0;
      }

  -- `main` from the informer factories to `Run`. Durations are in nanoseconds.
  unfoldable pub wire : Parts → Wiring
  wire parts = start_both (
      construct (record {
        factory = new_plain_factory P.Informer parts.crypt_client.core_v1alpha1 10_000_000_000;
        calls = kube_factory_made parts.kube_client 30_000_000_000 ∷ [];
      }))

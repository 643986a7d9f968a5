-- ===== src/Informers.antt =====
-- The shared informer factory, pkg/client/informers/externalversions/factory.go. A `reflect.Type` is its
-- name. The lock makes each method one step; the goroutines that `Start` begins are told in a list.
pub mod Crypts
pub mod Requests
pub mod Runs
pub mod Once
pub mod Options
pub mod Reads
use mathlib.Core.List.{foldl}
use crypt_controller.Base.{
  ℕ, String, Bool, true, false, Option, none, some, List, [], ◌∷◌, if◌then◌else◌, ◌==◌, string_eq,
  ◌&&◌,
}
use crypt_controller.Base.Dict.{Entries, lookup, insert}
use crypt_controller.Base.Outcome.{Error, external, Result, ok, err}
use crypt_controller.Api.{CryptList, scheme_group_version}
use crypt_controller.Kube.{GroupResource}
use crypt_controller.Client as Client
use crypt_controller.Client.{RestClient, ListOptions}

-- `TweakListOptionsFunc`; `none` is nil.
abbrev pub Tweak : Type 0
Tweak = Option (ListOptions → ListOptions)

-- `cache.ListWatch`
pub record ListWatch (client : RestClient) : Type 0 where
  pub list_func : ListOptions → CryptList × Option Error
  pub watch_func : ListOptions → Result (client.Watch)

abbrev tweaked : Tweak → ListOptions → ListOptions
tweaked none options = options
tweaked (some tweak) options = tweak options

-- The `ListWatch` of `NewFilteredCryptInformer`.
unfoldable pub crypt_list_watch : (client : RestClient) → String → Tweak → ListWatch client
crypt_list_watch client namespace tweak = record {
  list_func =
      λ options. Client.list (record { client = client; ns = namespace }) (tweaked tweak options);
  watch_func =
      λ options. Client.watch (record { client = client; ns = namespace }) (tweaked tweak options);
}

abbrev pub crypt_type : String
crypt_type = "v1alpha1.Crypt"

-- `d[k]` where a missing key gives the zero value of its type.
abbrev pub is_started : String → Entries Bool → Bool
is_started t d = elim (lookup t d) [ none ↦ false | some b ↦ b ]

-- `Informer`: `cache.SharedIndexInformer`.
module _ (Informer : Type 0) where
  pub record Factory : Type 1 where
    pub client : RestClient
    pub namespace : String
    pub tweak_list_options : Tweak
    pub default_resync : ℕ
    pub custom_resync : Entries ℕ
    pub informers : Entries Informer
    pub started_informers : Entries Bool

  abbrev pub FactoryOption : Type 1
  FactoryOption = Factory → Factory

  -- `resync_config` has the types of its keys.
  abbrev pub with_custom_resync_config : Entries ℕ → FactoryOption
  with_custom_resync_config [] f = f
  with_custom_resync_config ((k, v) ∷ rest) f =
      with_custom_resync_config rest (record f { custom_resync = insert k v f.custom_resync })

  abbrev pub with_tweak_list_options : Tweak → FactoryOption
  with_tweak_list_options tweak f = record f { tweak_list_options = tweak }

  abbrev pub with_namespace : String → FactoryOption
  with_namespace namespace f = record f { namespace = namespace }

  -- `NewSharedInformerFactoryWithOptions`
  abbrev pub new_factory : RestClient → ℕ → List FactoryOption → Factory
  new_factory client default_resync options =
      foldl (λ f opt. opt f)
        (record {
          client = client;
          namespace = "";
          tweak_list_options = none;
          default_resync = default_resync;
          custom_resync = [];
          informers = [];
          started_informers = [];
        })
        options

  -- `NewSharedInformerFactory`
  abbrev pub new_plain_factory : RestClient → ℕ → Factory
  new_plain_factory client default_resync = new_factory client default_resync []

  -- `NewFilteredSharedInformerFactory`
  abbrev pub new_filtered_factory : RestClient → ℕ → String → Tweak → Factory
  new_filtered_factory client default_resync namespace tweak =
      new_factory client default_resync
        (with_namespace namespace ∷ with_tweak_list_options tweak ∷ [])

  abbrev pub NewInformerFunc : Type 1
  NewInformerFunc = RestClient → ℕ → Informer

  abbrev pub resync_period : String → Factory → ℕ
  resync_period t f = elim (lookup t f.custom_resync) [ none ↦ f.default_resync | some d ↦ d ]

  unfoldable pub informer_for : String → NewInformerFunc → Factory → Informer × Factory
  informer_for t new_func f = elim (lookup t f.informers) [
    | some informer ↦ (informer, f)
    | none ↦ (
      new_func f.client (resync_period t f),
      record f { informers = insert t (new_func f.client (resync_period t f)) f.informers },
    )
  ]

  -- The loop of `Start`: the informers that it runs, with their types.
  unfoldable pub start_each :
      Entries Informer → Entries Bool → List (String × Informer) × Entries Bool
  start_each [] started = ([], started)
  start_each ((t, informer) ∷ rest) started =
      let later = start_each rest (insert t true started) in
      if is_started t started then start_each rest started else ((t, informer) ∷ later.0, later.1)

  unfoldable pub start : Factory → List (String × Informer) × Factory
  start f =
      let runs = start_each f.informers f.started_informers in
      (runs.0, record f { started_informers = runs.1 })

  -- `syncs`: what `cache.WaitForCacheSync` says of an informer.
  abbrev pub wait_each : (Informer → Bool) → Entries Bool → Entries Informer → Entries Bool
  wait_each syncs started [] = []
  wait_each syncs started ((t, informer) ∷ rest) =
      let later = wait_each syncs started rest in
      if is_started t started then (t, syncs informer) ∷ later else later

  abbrev pub wait_for_cache_sync : (Informer → Bool) → Factory → Entries Bool
  wait_for_cache_sync syncs f = wait_each syncs f.started_informers f.informers

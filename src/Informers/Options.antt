-- ===== src/Informers/Options.antt =====
-- What the options of a factory come to in the informer of the Crypts that it makes.
use mathlib.Core.List.{foldl}
use crypt_controller.Base.{
  ℕ, String, ◌≡◌, refl, sym, ap, ap₂, ◌∙◌, Option, none, some, List, [], ◌∷◌, map, arith, ◌==◌,
  string_eq, if◌then◌else◌, or_default, or_default-or_keep, latest,
}
use crypt_controller.Base.Dict.{Entries, lookup, insert, lookup-insert}
use crypt_controller.Client.{RestClient}
use crypt_controller.Lister.{Indexer}
use crypt_controller.Informers.{
  Tweak, ListWatch, Factory, FactoryOption, new_factory, with_custom_resync_config,
  with_tweak_list_options, with_namespace, crypt_list_watch, crypt_type, informer_for,
  resync_period,
}
use crypt_controller.Informers.Requests.{Call, call_all, informer_for_shares}
use crypt_controller.Informers.Crypts.{
  Indexers, CryptInformer, namespace_index, core, v1alpha1, crypts, crypts_informer, informer,
  default_informer, new_filtered_crypt_informer, lister,
}

-- The options that the package has.
pub data Choice : Type 0 where
  resync_config : Entries ℕ → Choice
  tweak_options : Tweak → Choice
  in_namespace : String → Choice

abbrev pub namespace_by : Choice → Option String
namespace_by (in_namespace ns) = some ns
namespace_by _ = none

abbrev pub tweak_by : Choice → Option Tweak
tweak_by (tweak_options tweak) = some tweak
tweak_by _ = none

-- The period that an option sets for a type.
abbrev pub resync_by : String → Choice → Option ℕ
resync_by t (resync_config periods) = latest (λ e. if t == e.0 then some e.1 else none) periods
resync_by t _ = none

module _ {Informer : Type 0} where
  abbrev pub option_of : Choice → FactoryOption Informer
  option_of (resync_config periods) = with_custom_resync_config Informer periods
  option_of (tweak_options tweak) = with_tweak_list_options Informer tweak
  option_of (in_namespace ns) = with_namespace Informer ns

  abbrev after_options : List Choice → Factory Informer → Factory Informer
  after_options cs f = foldl (λ f opt. opt f) f (map option_of cs)

  -- A part of the factory that each option sets or keeps is as the last option sets it.
  after_options_set :
      {X : Type 0} (part : Factory Informer → X) (by : Choice → Option X)
      → ((c : Choice) (f : Factory Informer) → part (option_of c f) ≡ or_default (by c) (part f))
      → (cs : List Choice) (f : Factory Informer)
      → part (after_options cs f) ≡ or_default (latest by cs) (part f)
  after_options_set part by one [] f = refl
  after_options_set part by one (c ∷ cs) f =
      after_options_set part by one cs (option_of c f)
      ∙ ap (or_default (latest by cs)) (one c f)
      ∙ sym (or_default-or_keep (latest by cs) (by c) (part f))

  after_options_keep {κ} :
      {X : Type κ} (part : Factory Informer → X)
      → ((c : Choice) (f : Factory Informer) → part (option_of c f) ≡ part f)
      → (cs : List Choice) (f : Factory Informer) → part (after_options cs f) ≡ part f
  after_options_keep part one [] f = refl
  after_options_keep part one (c ∷ cs) f = after_options_keep part one cs (option_of c f) ∙ one c f

  -- Setting periods keeps every part that one period keeps.
  resync_keeps {κ} :
      {X : Type κ} (part : Factory Informer → X)
      → ((d : Entries ℕ) (f : Factory Informer) → part (record f { custom_resync = d }) ≡ part f)
      → (periods : Entries ℕ) (f : Factory Informer)
      → part (with_custom_resync_config Informer periods f) ≡ part f
  resync_keeps part one [] f = refl
  resync_keeps part one ((k, v) ∷ rest) f =
      resync_keeps part one rest (record f { custom_resync = insert k v f.custom_resync })
      ∙ one (insert k v f.custom_resync) f

  client_kept : (c : Choice) (f : Factory Informer) → (option_of c f).client ≡ f.client
  client_kept (resync_config periods) f = resync_keeps (λ g. g.client) (λ d g. refl) periods f
  client_kept (tweak_options tweak) f = refl
  client_kept (in_namespace ns) f = refl

  informers_kept : (c : Choice) (f : Factory Informer) → (option_of c f).informers ≡ f.informers
  informers_kept (resync_config periods) f = resync_keeps (λ g. g.informers) (λ d g. refl) periods f
  informers_kept (tweak_options tweak) f = refl
  informers_kept (in_namespace ns) f = refl

  namespace_set :
      (c : Choice) (f : Factory Informer)
      → (option_of c f).namespace ≡ or_default (namespace_by c) f.namespace
  namespace_set (resync_config periods) f = resync_keeps (λ g. g.namespace) (λ d g. refl) periods f
  namespace_set (tweak_options tweak) f = refl
  namespace_set (in_namespace ns) f = refl

  tweak_set :
      (c : Choice) (f : Factory Informer)
      → (option_of c f).tweak_list_options ≡ or_default (tweak_by c) f.tweak_list_options
  tweak_set (resync_config periods) f =
      resync_keeps (λ g. g.tweak_list_options) (λ d g. refl) periods f
  tweak_set (tweak_options tweak) f = refl
  tweak_set (in_namespace ns) f = refl

  period_inserted :
      (t k : String) (v : ℕ) (f : Factory Informer)
      → resync_period Informer t (record f { custom_resync = insert k v f.custom_resync })
        ≡ or_default (if t == k then some v else none) (resync_period Informer t f)
  period_inserted t k v f = ground (arith, lookup-insert t k v f.custom_resync)

  periods_set :
      (t : String) (periods : Entries ℕ) (f : Factory Informer)
      → resync_period Informer t (with_custom_resync_config Informer periods f)
        ≡ or_default (resync_by t (resync_config periods)) (resync_period Informer t f)
  periods_set t [] f = refl
  periods_set t ((k, v) ∷ rest) f =
      periods_set t rest (record f { custom_resync = insert k v f.custom_resync })
      ∙ ap (or_default (resync_by t (resync_config rest))) (period_inserted t k v f)
      ∙ sym (
          or_default-or_keep (resync_by t (resync_config rest)) (if t == k then some v else none)
            (resync_period Informer t f))

  period_set :
      (t : String) (c : Choice) (f : Factory Informer)
      → resync_period Informer t (option_of c f)
        ≡ or_default (resync_by t c) (resync_period Informer t f)
  period_set t (resync_config periods) f = periods_set t periods f
  period_set t (tweak_options tweak) f = refl
  period_set t (in_namespace ns) f = refl

  module _ (new_informer : (client : RestClient) → ListWatch client → ℕ → Indexers → Informer)
      (get_indexer : Informer → Indexer) where
    -- The informer of the Crypts that a factory without informers makes.
    made_first :
        (f : Factory Informer)
        → f.informers ≡ []
        → (crypts_informer new_informer f).0
          ≡ new_informer f.client
              (crypt_list_watch f.client f.namespace f.tweak_list_options)
              (resync_period Informer crypt_type f)
              namespace_index
    unfolding informer informer_for default_informer new_filtered_crypt_informer lookup
    made_first f none_made = rw (informer_for, none_made) refl

    abbrev made_by : RestClient → ℕ → List Choice → Informer × Factory Informer
    made_by client d cs =
        crypts_informer new_informer (new_factory Informer client d (map option_of cs))

    -- The informer of the Crypts that a new factory makes is for its client, and lists with the options
    -- that the last WithTweakListOptions makes, in the namespace of the last WithNamespace, or in all; it
    -- resyncs with the period that the last WithCustomResyncConfig that has the type sets for it, or else
    -- with the factory's own. This holds for the options in whatever order they come. A lister that is
    -- asked for later, whatever has been called since, reads the indexer of that same informer, and
    -- leaves the factory as it is.
    pub crypts_informer-options :
        (client : RestClient) (d : ℕ) (cs : List Choice) (c : CryptInformer)
        (calls : List (Call Informer))
        → ((made_by client d cs).0
            ≡ new_informer client
                (crypt_list_watch client
                  (or_default (latest namespace_by cs) "")
                  (or_default (latest tweak_by cs) none))
                (or_default (latest (resync_by crypt_type) cs) d)
                namespace_index)
          × (lister new_informer get_indexer c (call_all calls (made_by client d cs).1).1
              ≡ (get_indexer (made_by client d cs).0, (call_all calls (made_by client d cs).1).1))
    unfolding lister informer lookup
    crypts_informer-options client d cs c calls =
        let f = new_factory Informer client d (map option_of cs) in
        let empty = new_factory Informer client d [] in
        (
          made_first f (after_options_keep (λ g. g.informers) informers_kept cs empty)
              ∙ ap
                  (λ x.
                    new_informer x (crypt_list_watch x f.namespace f.tweak_list_options)
                      (resync_period Informer crypt_type f) namespace_index)
                  (after_options_keep (λ g. g.client) client_kept cs empty)
              ∙ ap₂
                  (λ ns tweak.
                    new_informer client (crypt_list_watch client ns tweak)
                      (resync_period Informer crypt_type f) namespace_index)
                  (after_options_set (λ g. g.namespace) namespace_by namespace_set cs empty)
                  (after_options_set (λ g. g.tweak_list_options) tweak_by tweak_set cs empty)
              ∙ ap
                  (λ r.
                    new_informer client
                      (crypt_list_watch client (or_default (latest namespace_by cs) "")
                        (or_default (latest tweak_by cs) none))
                      r namespace_index)
                  (after_options_set (λ g. resync_period Informer crypt_type g)
                    (resync_by crypt_type) (period_set crypt_type) cs empty),
          ap (λ r. (get_indexer r.0, r.1))
              (informer_for_shares crypt_type
                (default_informer new_informer (crypts (v1alpha1 (core f))))
                (default_informer new_informer c) calls f),
        )

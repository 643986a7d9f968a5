-- ===== src/Informers/Crypts.antt =====
-- The way to the informer of the Crypts: crypt/interface.go, crypt/v1alpha1/interface.go,
-- crypt/v1alpha1/crypt.go and generic.go of pkg/client/informers/externalversions. What holds the
-- factory in the source takes it as an argument here.
use crypt_controller.Base.{ℕ, String, List, [], ◌∷◌, none, if◌then◌else◌, ◌==◌, string_eq, ◌&&◌}
use crypt_controller.Base.Outcome.{external, Result, ok, err}
use crypt_controller.Api.{scheme_group_version}
use crypt_controller.Client.{RestClient}
use crypt_controller.Kube.{GroupResource}
use crypt_controller.Lister.{Indexer}
use crypt_controller.Informers.{
  Tweak, ListWatch, Factory, NewInformerFunc, crypt_list_watch, crypt_type, informer_for,
}

pub record GroupVersionResource : Type 0 where
  pub group : String
  pub version : String
  pub resource : String

-- `cache.Indexers`, by the names of the index functions.
abbrev pub Indexers : Type 0
Indexers = List String

-- `cache.NamespaceIndex`
abbrev pub namespace_index : Indexers
namespace_index = "namespace" ∷ []

-- `Interface` of the group, of the version, and `cryptInformer`: what they keep.
pub record Group : Type 0 where
  pub namespace : String
  pub tweak_list_options : Tweak

pub record Version : Type 0 where
  pub namespace : String
  pub tweak_list_options : Tweak

pub record CryptInformer : Type 0 where
  pub namespace : String
  pub tweak_list_options : Tweak

-- `Core()`, `V1alpha1()` and `Crypts()`
abbrev pub core : {Informer : Type 0} → Factory Informer → Group
core f = record { namespace = f.namespace; tweak_list_options = f.tweak_list_options }

abbrev pub v1alpha1 : Group → Version
v1alpha1 g = record { namespace = g.namespace; tweak_list_options = g.tweak_list_options }

abbrev pub crypts : Version → CryptInformer
crypts v = record { namespace = v.namespace; tweak_list_options = v.tweak_list_options }

-- `new_informer`: `cache.NewSharedIndexInformer` for Crypts.
module _ {Informer : Type 0}
    (new_informer : (client : RestClient) → ListWatch client → ℕ → Indexers → Informer) where
  unfoldable pub new_filtered_crypt_informer :
      RestClient → (namespace : String) → (resync_period : ℕ) → Indexers → Tweak → Informer
  new_filtered_crypt_informer client namespace resync_period indexers tweak =
      new_informer client (crypt_list_watch client namespace tweak) resync_period indexers

  unfoldable pub new_crypt_informer : RestClient → String → ℕ → Indexers → Informer
  new_crypt_informer client namespace resync_period indexers =
      new_filtered_crypt_informer client namespace resync_period indexers none

  -- `cryptInformer.defaultInformer`
  unfoldable pub default_informer : CryptInformer → NewInformerFunc Informer
  default_informer c client resync_period =
      new_filtered_crypt_informer client c.namespace resync_period namespace_index
        c.tweak_list_options

  -- `cryptInformer.Informer`
  unfoldable pub informer : CryptInformer → Factory Informer → Informer × Factory Informer
  informer c f = informer_for Informer crypt_type (default_informer c) f

  -- `Core().V1alpha1().Crypts().Informer()`
  abbrev pub crypts_informer : Factory Informer → Informer × Factory Informer
  crypts_informer f = informer (crypts (v1alpha1 (core f))) f

  -- `cryptInformer.Lister`, over the indexer of the informer.
  unfoldable pub lister :
      (get_indexer : Informer → Indexer)
      → CryptInformer
      → Factory Informer
      → Indexer × Factory Informer
  lister get_indexer c f = let asked = informer c f in (get_indexer asked.0, asked.1)

  pub record GenericInformer : Type 0 where
    pub informer : Informer
    pub resource : GroupResource

  abbrev generic : GroupVersionResource → Informer → GenericInformer
  generic r i = record {
    informer = i;
    resource = record { group = r.group; resource = r.resource };
  }

  unfoldable pub for_resource :
      GroupVersionResource → Factory Informer → Result (GenericInformer × Factory Informer)
  for_resource r f =
      let asked = crypts_informer f in
      if r.group == scheme_group_version.group
        && (r.version == scheme_group_version.version && r.resource == "crypts")
      then ok (generic r asked.0, asked.1)
      else err (external "no informer found")

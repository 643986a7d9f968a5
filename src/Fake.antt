-- ===== src/Fake.antt =====
-- The clients for tests: fake_crypt.go and fake_crypt_client.go of
-- pkg/client/clientset/versioned/typed/crypt/v1alpha1/fake, and
-- pkg/client/clientset/versioned/fake/clientset_generated.go. The package `testing` of client-go is a
-- parameter.
pub mod Clientset
pub mod Matter
pub mod StandIn
use crypt_controller.Base.{
  ℕ, String, Bool, true, false, Option, none, some, List, [], ◌∷◌, ◌++◌, if◌then◌else◌,
}
use crypt_controller.Base.Outcome.{Error, Result, ok, err, Outcome, returned, panicked}
use crypt_controller.Kube.{GroupVersionKind}
use crypt_controller.Api.{Crypt, CryptList}
use crypt_controller.Lister.{Selector}
use crypt_controller.Client.{ListOptions, GetOptions}
use crypt_controller.Informers.Crypts.{GroupVersionResource}

-- `runtime.Object`
pub data Object : Type 0 where
  crypt_object : Crypt → Object
  list_object : CryptList → Object
  -- of another type, by its name
  other_object : String → Object

-- What an action asks for; the constructors are those of the package `testing`.
pub data Deed : Type 0 where
  get_deed : (name : String) → Deed
  list_deed : GroupVersionKind → ListOptions → Deed
  watch_deed : ListOptions → Deed
  create_deed : Crypt → Deed
  update_deed : Crypt → Deed
  update_subresource_deed : (subresource : String) → Crypt → Deed
  delete_deed : (name : String) → Deed
  delete_collection_deed : ListOptions → Deed
  patch_subresource_deed :
      (name : String) (pt : String) (contents : List ℕ) (subresources : List String) → Deed

pub record Action : Type 0 where
  pub resource : GroupVersionResource
  pub namespace : String
  pub deed : Deed

-- `testing.Fake`: `Invokes` with the object that it returns where nothing reacts, and `InvokesWatch`.
pub record Reactors : Type 1 where
  pub State : Type 0
  pub Watch : Type 0
  pub invokes : Action → Object → State → (Option Object × Option Error) × State
  pub invokes_watch : Action → State → Result Watch × State
  -- `testing.ExtractFromListOptions`, of the label selector alone
  pub extract_label : ListOptions → Option Selector

abbrev pub crypts_resource : GroupVersionResource
crypts_resource = record { group = "core.bluehoodie.io"; version = "v1alpha1"; resource = "crypts" }

abbrev pub crypts_kind : GroupVersionKind
crypts_kind = record { group = "core.bluehoodie.io"; version = "v1alpha1"; kind = "Crypt" }

-- A zero value, as in `&v1alpha1.Crypt{}`.
abbrev pub empty_crypt : Crypt
empty_crypt = record {
  type_meta = record { kind = ""; api_version = "" };
  meta = record {
    name = "";
    namespace = "";
    uid = "";
    owner_references = [];
    labels = none;
    annotations = none;
  };
  spec = record { secrets = []; namespaces = [] };
  status = record {};
}

-- `labels.Everything()`
abbrev everything : Selector
everything labels = true

-- A nil label selector matches everything.
abbrev pub label_or_everything : Option Selector → Selector
label_or_everything none = everything
label_or_everything (some label) = label

-- The loop of `List`.
abbrev pub append_matching : Selector → List Crypt → List Crypt → List Crypt
append_matching label [] items = items
append_matching label (item ∷ rest) items =
    append_matching label rest (if label (item.meta.labels) then items ++ item ∷ [] else items)

module _ (F : Reactors) where
  -- What a method gives, with the state of the fake after it.
  abbrev pub Answer : Type 0 → Type 0
  Answer A = Outcome ((Option A × Option Error) × F.State)

  -- `if obj == nil { return nil, err }`, and the assertion that it is a Crypt.
  abbrev pub crypt_of : (Option Object × Option Error) × F.State → Answer Crypt
  crypt_of ((none, e), s) = returned ((none, e), s)
  crypt_of ((some (crypt_object c), e), s) = returned ((some c, e), s)
  crypt_of ((some _, e), s) = panicked

  -- The same of a list, with the label of the options.
  abbrev pub list_of : Option Selector → (Option Object × Option Error) × F.State → Answer CryptList
  list_of label ((none, e), s) = returned ((none, e), s)
  list_of label ((some (list_object l), e), s) =
      returned
        ((some (record { items = append_matching (label_or_everything label) l.items [] }), e), s)
  list_of label ((some _, e), s) = panicked

  pub record FakeCrypts : Type 0 where
    pub ns : String

  abbrev pub action : FakeCrypts → Deed → Action
  action c deed = record { resource = crypts_resource; namespace = c.ns; deed = deed }

  abbrev invoke_crypt : FakeCrypts → Deed → F.State → Answer Crypt
  invoke_crypt c deed s = crypt_of (F.invokes (action c deed) (crypt_object empty_crypt) s)

  unfoldable pub get : FakeCrypts → String → GetOptions → F.State → Answer Crypt
  get c name options s = invoke_crypt c (get_deed name) s

  unfoldable pub list : FakeCrypts → ListOptions → F.State → Answer CryptList
  list c opts s =
      list_of (F.extract_label opts)
        (F.invokes (action c (list_deed crypts_kind opts)) (list_object (record { items = [] })) s)

  unfoldable pub watch : FakeCrypts → ListOptions → F.State → Result F.Watch × F.State
  watch c opts s = F.invokes_watch (action c (watch_deed opts)) s

  unfoldable pub create : FakeCrypts → Crypt → F.State → Answer Crypt
  create c crypt s = invoke_crypt c (create_deed crypt) s

  unfoldable pub update : FakeCrypts → Crypt → F.State → Answer Crypt
  update c crypt s = invoke_crypt c (update_deed crypt) s

  unfoldable pub update_status : FakeCrypts → Crypt → F.State → Answer Crypt
  update_status c crypt s = invoke_crypt c (update_subresource_deed "status" crypt) s

  -- The error, and the state after.
  unfoldable pub delete : FakeCrypts → String → Option String → F.State → Option Error × F.State
  delete c name options s =
      let answer = F.invokes (action c (delete_deed name)) (crypt_object empty_crypt) s in
      (answer.0.1, answer.1)

  unfoldable pub delete_collection :
      FakeCrypts → Option String → ListOptions → F.State → Option Error × F.State
  delete_collection c options list_options s =
      let answer =
        F.invokes (action c (delete_collection_deed list_options))
          (list_object (record { items = [] })) s in
      (answer.0.1, answer.1)

  unfoldable pub patch :
      FakeCrypts → String → String → List ℕ → List String → F.State → Answer Crypt
  patch c name pt contents subresources s =
      invoke_crypt c (patch_subresource_deed name pt contents subresources) s

-- ===== src/Controller.antt =====
-- controller/controller.go: the controller's parts, and the state that its methods change. The
-- methods are the child modules.
pub mod Secrets
pub mod Sync
pub mod Worker
pub mod Handlers
pub mod Start
pub mod Threads
pub mod Recovery
use crypt_controller.Base.{String, Bool, Option, List}
use crypt_controller.Base.Outcome.{Error, Result}
use crypt_controller.Kube.{Secret, Namespace, GroupVersionKind, OwnerReference}
use crypt_controller.Api.{Crypt}
use crypt_controller.Any.{Any}
use crypt_controller.Store.{Store}
use crypt_controller.Lister.{Selector, Indexer, StatusErrors}
use crypt_controller.Client.{RestClient}

-- `workqueue.RateLimitingInterface`. `get` is `none` when the queue is shut down, and else gives an
-- item and the queue as it is when the call returns.
pub record WorkQueue : Type 1 where
  pub State : Type 0
  pub get : State → Option (Any × State)
  pub done : Any → State → State
  pub forget : Any → State → State
  pub add_rate_limited : Any → State → State
  pub shut_down : State → State

-- `Secrets(namespace)` of the Kubernetes clientset: two requests, and the secret that the cluster
-- holds under a namespace and a name, as far as its content was sent by clients.
pub record SecretApi : Type 1 where
  pub State : Type 0
  pub create : String → Secret → State → Result Secret × State
  pub update : String → Secret → State → Result Secret × State
  pub secret_at : State → String → String → Option Secret

-- The functions of client-go, apimachinery and `regexp` that the controller calls.
pub record Env : Type 1 where
  pub workqueue : WorkQueue
  pub secrets : SecretApi
  pub errors : StatusErrors
  -- `regexp.MatchString`
  pub match_string : String → String → Bool × Option Error
  -- `cache.MetaNamespaceKeyFunc` and `cache.SplitMetaNamespaceKey`
  pub meta_namespace_key : Any → Result String
  pub split_meta_namespace_key : String → Result (String × String)
  -- `metav1.NewControllerRef` and `metav1.GetControllerOf`
  pub new_controller_ref : Crypt → GroupVersionKind → OwnerReference
  pub get_controller_of : Secret → Option OwnerReference
  -- `labels.NewSelector()`
  pub new_selector : Selector

-- The fields that the methods read. The two listers stand for the informers' caches at the moment
-- of the call.
pub record Controller : Type 1 where
  pub crypt_clientset : RestClient
  pub namespace_lister : Selector → List Namespace × Option Error
  pub crypt_lister : Indexer
  pub store : Store

-- An event that the recorder was given.
pub record Event : Type 0 where
  pub object : Crypt
  pub type : String
  pub reason : String
  pub message : String

-- What was logged as a failure or handed to `utilruntime.HandleError`.
pub data Report : Type 0 where
  invalid_resource_key : String → Report
  no_longer_exists : String → Report
  store_failure : Error → Report
  could_not_create : String → String → Error → Report
  expected_string : Any → Report
  error_syncing : String → Error → Report
  no_key : Error → Report
  no_tombstone : Any → Report
  no_secret_in_tombstone : Any → Report
  ignoring_orphan : Secret → String → Report

pub record World (E : Env) : Type 0 where
  pub queue : E.workqueue.State
  pub cluster : E.secrets.State
  pub events : List Event
  pub reports : List Report

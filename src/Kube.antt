-- ===== src/Kube.antt =====
-- The Kubernetes object types that the controller reads and writes, with the fields that it uses.
-- They stand for structs of k8s.io/api and k8s.io/apimachinery; `payload` is `Data` of a Secret.
use crypt_controller.Base.{String, Bool, List, ℕ}
use crypt_controller.Base.Dict.{GoMap}

abbrev pub Bytes : Type 0
Bytes = List ℕ

pub record GroupVersion : Type 0 where
  pub group : String
  pub version : String

pub record GroupVersionKind : Type 0 where
  pub group : String
  pub version : String
  pub kind : String

pub record GroupKind : Type 0 where
  pub group : String
  pub kind : String

pub record GroupResource : Type 0 where
  pub group : String
  pub resource : String

pub record TypeMeta : Type 0 where
  pub kind : String
  pub api_version : String

pub record OwnerReference : Type 0 where
  pub api_version : String
  pub kind : String
  pub name : String
  pub uid : String
  pub controller : Bool

pub record ObjectMeta : Type 0 where
  pub name : String
  pub namespace : String
  pub uid : String
  pub owner_references : List OwnerReference
  pub labels : GoMap String
  pub annotations : GoMap String

pub record Secret : Type 0 where
  pub type_meta : TypeMeta
  pub meta : ObjectMeta
  pub type : String
  pub payload : GoMap Bytes

pub record Namespace : Type 0 where
  pub meta : ObjectMeta

-- The constant `SecretTypeOpaque` of k8s.io/api/core/v1.
abbrev pub secret_type_opaque : String
secret_type_opaque = "Opaque"

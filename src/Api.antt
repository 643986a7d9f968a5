-- ===== src/Api.antt =====
-- The Crypt resource: pkg/apis/crypt/v1alpha1/types.go and register.go, pkg/apis/crypt/register.go.
use crypt_controller.Base.{String, List, ◌==◌, string_eq, if◌then◌else◌}
use crypt_controller.Base.Dict.{GoMap}
use crypt_controller.Kube.{
  TypeMeta, ObjectMeta, GroupVersion, GroupKind, GroupResource, secret_type_opaque,
}

pub record SecretDefinition : Type 0 where
  pub name : String
  pub type : String
  pub key : String
  pub labels : GoMap String
  pub annotations : GoMap String

pub record CryptSpec : Type 0 where
  pub secrets : List SecretDefinition
  pub namespaces : List String

pub record CryptStatus : Type 0 where

pub record Crypt : Type 0 where
  pub type_meta : TypeMeta
  pub meta : ObjectMeta
  pub spec : CryptSpec
  pub status : CryptStatus

pub record CryptList : Type 0 where
  pub items : List Crypt

abbrev pub get_name : SecretDefinition → String
get_name sec = sec.name

unfoldable pub get_type : SecretDefinition → String
get_type sec = if sec.type == "" then secret_type_opaque else sec.type

abbrev pub get_key : SecretDefinition → String
get_key sec = sec.key

abbrev pub get_labels : SecretDefinition → GoMap String
get_labels sec = sec.labels

abbrev pub get_annotations : SecretDefinition → GoMap String
get_annotations sec = sec.annotations

abbrev pub group_name : String
group_name = "core.bluehoodie.io"

abbrev pub scheme_group_version : GroupVersion
scheme_group_version = record { group = group_name; version = "v1alpha1" }

-- `SchemeGroupVersion.WithKind(kind).GroupKind()`
abbrev pub kind : String → GroupKind
kind k = record { group = scheme_group_version.group; kind = k }

-- `SchemeGroupVersion.WithResource(resource).GroupResource()`
abbrev pub resource : String → GroupResource
resource r = record { group = scheme_group_version.group; resource = r }

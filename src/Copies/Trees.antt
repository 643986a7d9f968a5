-- ===== src/Copies/Trees.antt =====
-- What the values of pkg/apis/crypt/v1alpha1 hold, read through their addresses; nil and empty are
-- told apart.
use crypt_controller.Base.{String, Option, List}
use crypt_controller.Base.Dict.{GoMap}
use crypt_controller.Kube.{TypeMeta, OwnerReference}
use crypt_controller.Api.{SecretDefinition, CryptStatus}
use crypt_controller.Copies.{
  Pointer, SecretDefinitionValue, CryptSpecValue, ObjectMetaValue, CryptValue, ListMeta,
  CryptListValue, entries_field, strings_field, owners_field, definitions_field, crypts_field,
  crypt_field, list_field,
}
use crypt_controller.Copies.Contract.{View}
use crypt_controller.Copies.Combine.{plain_view, part_view, pair_view, each_view}
use crypt_controller.Copies.Pointers.{pointer_view}
use crypt_controller.Copies.Maps.{entries_view}

pub record CryptSpecTree : Type 0 where
  pub secrets : Option (List SecretDefinition)
  pub namespaces : Option (List String)

pub record ObjectMetaTree : Type 0 where
  pub name : String
  pub namespace : String
  pub uid : String
  pub owner_references : Option (List OwnerReference)
  pub labels : GoMap String
  pub annotations : GoMap String

pub record CryptTree : Type 0 where
  pub type_meta : TypeMeta
  pub meta : ObjectMetaTree
  pub spec : CryptSpecTree
  pub status : CryptStatus

pub record CryptListTree : Type 0 where
  pub type_meta : TypeMeta
  pub list_meta : ListMeta
  pub items : Option (List CryptTree)

-- A value with the trees of the parts that have addresses.
abbrev pub with_maps : SecretDefinitionValue → GoMap String × GoMap String → SecretDefinition
with_maps d (labels, annotations) = record {
  name = d.name;
  type = d.type;
  key = d.key;
  labels = labels;
  annotations = annotations;
}

abbrev pub with_slices :
    CryptSpecValue → Option (List SecretDefinition) × Option (List String) → CryptSpecTree
with_slices s (secrets, namespaces) = record { secrets = secrets; namespaces = namespaces }

abbrev pub with_meta :
    ObjectMetaValue → Option (List OwnerReference) × (GoMap String × GoMap String) → ObjectMetaTree
with_meta m (owners, (labels, annotations)) = record {
  name = m.name;
  namespace = m.namespace;
  uid = m.uid;
  owner_references = owners;
  labels = labels;
  annotations = annotations;
}

abbrev pub with_parts : CryptValue → ObjectMetaTree × CryptSpecTree → CryptTree
with_parts c (meta, spec) = record {
  type_meta = c.type_meta;
  meta = meta;
  spec = spec;
  status = c.status;
}

abbrev pub with_items : CryptListValue → Option (List CryptTree) → CryptListTree
with_items l items = record { type_meta = l.type_meta; list_meta = l.list_meta; items = items }

abbrev pub map_view : View Pointer (GoMap String)
map_view = pointer_view entries_field entries_view

abbrev pub strings_view : View Pointer (Option (List String))
strings_view = pointer_view strings_field plain_view

abbrev pub definition_view : View SecretDefinitionValue SecretDefinition
definition_view = part_view (pair_view map_view map_view) (λ d. (d.labels, d.annotations)) with_maps

abbrev pub definitions_view : View Pointer (Option (List SecretDefinition))
definitions_view = pointer_view definitions_field (each_view definition_view)

abbrev pub spec_view : View CryptSpecValue CryptSpecTree
spec_view =
    part_view (pair_view definitions_view strings_view) (λ s. (s.secrets, s.namespaces)) with_slices

abbrev pub meta_view : View ObjectMetaValue ObjectMetaTree
meta_view =
    part_view (pair_view (pointer_view owners_field plain_view) (pair_view map_view map_view))
      (λ m. (m.owner_references, (m.labels, m.annotations))) with_meta

abbrev pub crypt_view : View CryptValue CryptTree
crypt_view = part_view (pair_view meta_view spec_view) (λ c. (c.meta, c.spec)) with_parts

abbrev pub list_view : View CryptListValue CryptListTree
list_view = part_view (pointer_view crypts_field (each_view crypt_view)) (λ l. l.items) with_items

-- What a `*Crypt` and a `*CryptList` lead to.
abbrev pub crypt_pointer_view : View Pointer (Option CryptTree)
crypt_pointer_view = pointer_view crypt_field crypt_view

abbrev pub list_pointer_view : View Pointer (Option CryptListTree)
list_pointer_view = pointer_view list_field list_view

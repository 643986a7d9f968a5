-- ===== src/Tests/CopyTests.antt =====
-- A list of one Crypt, copied, and then written to.
use crypt_controller.Base.{◌≡◌, refl, arith, none, some, [], ◌∷◌, ◌==◌, nat_eq, if◌then◌else◌}
use crypt_controller.Base.Dict.{lookup}
use crypt_controller.Copies.{
  Pointer, Address, Heap, SecretDefinitionValue, CryptSpecValue, ObjectMetaValue, CryptValue,
  CryptListValue, owners_field, copy_pointer, copy_map, deep_copy_list,
}
use crypt_controller.Copies.Contract.{Copies, Below}
use crypt_controller.Copies.Combine.{
  plain_view, plain-Copies, pair_view, copy_both, copy_both-Copies,
}
use crypt_controller.Copies.Pointers.{pointer_view, copy_pointer-Copies}
use crypt_controller.Copies.Trees.{map_view, meta_view, with_meta, crypt_view, list_pointer_view}
use crypt_controller.Copies.Isolation.{copy_map-Copies, part-Copies}
use crypt_controller.Copies.Every.{of_list, call_isolated}

abbrev copy_owners : Pointer → Heap → Pointer × Heap
copy_owners = copy_pointer owners_field (λ xs h. (xs, h))

-- The three fields of ObjectMeta that have addresses, copied in turn.
abbrev copy_meta : ObjectMetaValue → Heap → ObjectMetaValue × Heap
copy_meta m h =
    let copied =
      copy_both (pointer_view owners_field plain_view) (pair_view map_view map_view) copy_owners
        (copy_both map_view map_view copy_map copy_map)
        (m.owner_references, (m.labels, m.annotations)) h in
    (
      record m { owner_references = copied.0.0; labels = copied.0.1.0; annotations = copied.0.1.1 },
      copied.1,
    )

copy_meta-Copies : (m : ObjectMetaValue) → Copies meta_view copy_meta m
copy_meta-Copies m =
    part-Copies (pair_view (pointer_view owners_field plain_view) (pair_view map_view map_view))
      (λ n. (n.owner_references, (n.labels, n.annotations))) with_meta
      (copy_both (pointer_view owners_field plain_view) (pair_view map_view map_view) copy_owners
        (copy_both map_view map_view copy_map copy_map))
      (λ n p. record n { owner_references = p.0; labels = p.1.0; annotations = p.1.1 })
      (λ n p. refl) (λ n p t. refl) m
      (copy_both-Copies (pointer_view owners_field plain_view) (pair_view map_view map_view)
        copy_owners (copy_both map_view map_view copy_map copy_map) m.owner_references
        (m.labels, m.annotations)
        (copy_pointer-Copies owners_field plain_view (λ xs h. (xs, h)) plain-Copies
          m.owner_references)
        (copy_both-Copies map_view map_view copy_map copy_map m.labels m.annotations
          (copy_map-Copies m.labels) (copy_map-Copies m.annotations)))

abbrev labelled : SecretDefinitionValue
labelled = record { name = "a"; type = ""; key = "k"; labels = some 0; annotations = none }

abbrev two_secrets : CryptSpecValue
two_secrets = record { secrets = some 1; namespaces = some 2 }

abbrev meta_value : ObjectMetaValue
meta_value = record {
  name = "c";
  namespace = "default";
  uid = "1";
  owner_references = none;
  labels = some 0;
  annotations = none;
}

abbrev crypt_value : CryptValue
crypt_value = record {
  type_meta = record { kind = "Crypt"; api_version = "v1alpha1" };
  meta = meta_value;
  spec = two_secrets;
  status = record {};
}

abbrev list_value : CryptListValue
list_value = record {
  type_meta = record { kind = "CryptList"; api_version = "v1alpha1" };
  list_meta = record { self_link = ""; resource_version = "7"; continue = "" };
  items = some 3;
}

-- The labels at 0 are those of the Crypt and of its definitions, the definitions stand at 1, the
-- namespaces at 2, the items at 3, the list at 4 and the Crypt at 5.
abbrev small_heap : Heap
small_heap = record {
  next = 6;
  cell = λ a. record {
    entries = ("app", "x") ∷ ("tier", "y") ∷ [];
    strings = "dev" ∷ [];
    owners = [];
    definitions = labelled ∷ labelled ∷ [];
    crypts = crypt_value ∷ [];
    definition = labelled;
    spec = two_secrets;
    status = record {};
    crypt = crypt_value;
    list = list_value;
  };
}

-- The labels are emptied.
abbrev emptied : Address → Heap → Heap
emptied b h = record h {
  cell = λ a. if a == b then record (h.cell a) { entries = [] } else h.cell a;
}

abbrev list_copied : Heap
list_copied = (deep_copy_list copy_meta (some 4) small_heap).1

labels-Within : map_view.Within (Below 6) small_heap (some 0)
unfolding lookup
labels-Within = (ground arith, (refl, (refl, tt)))

crypt-Within : crypt_view.Within (Below 6) small_heap crypt_value
crypt-Within = (
  (tt, (labels-Within, tt)),
  ((ground arith, ((labels-Within, tt), ((labels-Within, tt), tt))), (ground arith, tt)),
)

call_isolated_example :
    (list_pointer_view.tree (emptied 0 list_copied) (deep_copy_list copy_meta (some 4) small_heap).0
      ≡ list_pointer_view.tree small_heap (some 4))
    × (list_pointer_view.tree (emptied 6 list_copied) (some 4)
        ≡ list_pointer_view.tree small_heap (some 4))
call_isolated_example =
    call_isolated copy_meta copy_meta-Copies of_list (some 4) small_heap (emptied 0 list_copied)
      (emptied 6 list_copied) (ground arith, (ground arith, (crypt-Within, tt)))
      (λ a p. ground arith) (λ a p. ground arith)

-- ===== src/Copies.antt =====
-- pkg/apis/crypt/v1alpha1/zz_generated.deepcopy.go, over a heap: a struct is a value, and its maps,
-- slices and pointers are addresses, so that an assignment `*out = *in` shares them. What a function
-- makes with `make` or `new` is allocated here once it is filled, since nobody else has its address before.
pub mod Contract
pub mod Combine
pub mod Pointers
pub mod Maps
pub mod Trees
pub mod Isolation
pub mod Every
use mathlib.Core.Option.{map as map_option}
use crypt_controller.Base.{
  ℕ, suc, String, ◌≡◌, refl, Bool, true, false, Option, none, some, List, [], ◌∷◌, ◌==◌, nat_eq,
  if◌then◌else◌,
}
use crypt_controller.Base.Dict.{Entries, insert}
use crypt_controller.Kube.{TypeMeta, OwnerReference}
use crypt_controller.Api.{CryptStatus}

abbrev pub Address : Type 0
Address = ℕ

-- A map, a slice or a pointer; `none` is nil.
abbrev pub Pointer : Type 0
Pointer = Option Address

pub record SecretDefinitionValue : Type 0 where
  pub name : String
  pub type : String
  pub key : String
  pub labels : Pointer
  pub annotations : Pointer

pub record CryptSpecValue : Type 0 where
  pub secrets : Pointer
  pub namespaces : Pointer

pub record ObjectMetaValue : Type 0 where
  pub name : String
  pub namespace : String
  pub uid : String
  pub owner_references : Pointer
  pub labels : Pointer
  pub annotations : Pointer

pub record CryptValue : Type 0 where
  pub type_meta : TypeMeta
  pub meta : ObjectMetaValue
  pub spec : CryptSpecValue
  pub status : CryptStatus

pub record ListMeta : Type 0 where
  pub self_link : String
  pub resource_version : String
  pub continue : String

pub record CryptListValue : Type 0 where
  pub type_meta : TypeMeta
  pub list_meta : ListMeta
  pub items : Pointer

-- What may stand at an address: one of these fields, the one of the type that its pointers have.
pub record Cell : Type 0 where
  pub entries : Entries String
  pub strings : List String
  pub owners : List OwnerReference
  pub definitions : List SecretDefinitionValue
  pub crypts : List CryptValue
  pub definition : SecretDefinitionValue
  pub spec : CryptSpecValue
  pub status : CryptStatus
  pub crypt : CryptValue
  pub list : CryptListValue

-- The addresses from `next` on are free.
pub record Heap : Type 0 where
  pub next : Address
  pub cell : Address → Cell

-- A field of a cell.
pub record Field (A : Type 0) : Type 0 where
  pub read : Cell → A
  pub write : A → Cell → Cell
  pub read-write : (x : A) (c : Cell) → read (write x c) ≡ x

abbrev pub entries_field : Field (Entries String)
entries_field = record {
  read = λ c. c.entries;
  write = λ x c. record c { entries = x };
  read-write = λ x c. refl;
}

abbrev pub strings_field : Field (List String)
strings_field = record {
  read = λ c. c.strings;
  write = λ x c. record c { strings = x };
  read-write = λ x c. refl;
}

abbrev pub owners_field : Field (List OwnerReference)
owners_field = record {
  read = λ c. c.owners;
  write = λ x c. record c { owners = x };
  read-write = λ x c. refl;
}

abbrev pub definitions_field : Field (List SecretDefinitionValue)
definitions_field = record {
  read = λ c. c.definitions;
  write = λ x c. record c { definitions = x };
  read-write = λ x c. refl;
}

abbrev pub crypts_field : Field (List CryptValue)
crypts_field = record {
  read = λ c. c.crypts;
  write = λ x c. record c { crypts = x };
  read-write = λ x c. refl;
}

abbrev pub definition_field : Field SecretDefinitionValue
definition_field = record {
  read = λ c. c.definition;
  write = λ x c. record c { definition = x };
  read-write = λ x c. refl;
}

abbrev pub spec_field : Field CryptSpecValue
spec_field = record {
  read = λ c. c.spec;
  write = λ x c. record c { spec = x };
  read-write = λ x c. refl;
}

abbrev pub status_field : Field CryptStatus
status_field = record {
  read = λ c. c.status;
  write = λ x c. record c { status = x };
  read-write = λ x c. refl;
}

abbrev pub crypt_field : Field CryptValue
crypt_field = record {
  read = λ c. c.crypt;
  write = λ x c. record c { crypt = x };
  read-write = λ x c. refl;
}

abbrev pub list_field : Field CryptListValue
list_field = record {
  read = λ c. c.list;
  write = λ x c. record c { list = x };
  read-write = λ x c. refl;
}

-- `new` or `make`, filled with `x`.
abbrev pub alloc : {A : Type 0} → Field A → A → Heap → Address × Heap
alloc F x h = (
  h.next,
  record { next = suc h.next; cell = λ a. if a == h.next then F.write x (h.cell a) else h.cell a },
)

-- A copy of what a pointer that is not nil leads to, made by `f`.
unfoldable pub copy_pointer :
    {A : Type 0} → Field A → (A → Heap → A × Heap) → Pointer → Heap → Pointer × Heap
copy_pointer F f none h = (none, h)
copy_pointer F f (some a) h =
    let copied = f (F.read (h.cell a)) h in
    let placed = alloc F copied.0 copied.1 in (some placed.0, placed.1)

-- The loop over the elements of a slice.
unfoldable pub copy_each : {A : Type 0} → (A → Heap → A × Heap) → List A → Heap → List A × Heap
copy_each f [] h = ([], h)
copy_each f (x ∷ xs) h =
    let first = f x h in let later = copy_each f xs first.1 in (first.0 ∷ later.0, later.1)

-- `for key, val := range *in { (*out)[key] = val }`
unfoldable pub fill : Entries String → Entries String → Entries String
fill out [] = out
fill out ((key, val) ∷ rest) = fill (insert key val out) rest

abbrev pub copy_map : Pointer → Heap → Pointer × Heap
copy_map p h = copy_pointer entries_field (λ d k. (fill [] d, k)) p h

-- `copy(*out, *in)`, of a slice of strings.
abbrev pub copy_strings : Pointer → Heap → Pointer × Heap
copy_strings p h = copy_pointer strings_field (λ xs k. (xs, k)) p h

abbrev pub copy_definition : SecretDefinitionValue → Heap → SecretDefinitionValue × Heap
copy_definition d h =
    let one = copy_map d.labels h in
    let two = copy_map d.annotations one.1 in
    (record d { labels = one.0; annotations = two.0 }, two.1)

abbrev pub copy_spec : CryptSpecValue → Heap → CryptSpecValue × Heap
copy_spec s h =
    let one = copy_pointer definitions_field (copy_each copy_definition) s.secrets h in
    let two = copy_strings s.namespaces one.1 in
    (record { secrets = one.0; namespaces = two.0 }, two.1)

abbrev pub copy_status : CryptStatus → Heap → CryptStatus × Heap
copy_status s h = (s, h)

-- `copy_meta`: `ObjectMeta.DeepCopyInto` of apimachinery.
module _ (copy_meta : ObjectMetaValue → Heap → ObjectMetaValue × Heap) where
  abbrev pub copy_crypt : CryptValue → Heap → CryptValue × Heap
  copy_crypt c h =
      let one = copy_meta c.meta h in
      let two = copy_spec c.spec one.1 in (record c { meta = one.0; spec = two.0 }, two.1)

  abbrev pub copy_list : CryptListValue → Heap → CryptListValue × Heap
  copy_list l h =
      let one = copy_pointer crypts_field (copy_each copy_crypt) l.items h in
      (record l { items = one.0 }, one.1)

  -- The methods `DeepCopy`.
  abbrev pub deep_copy_crypt : Pointer → Heap → Pointer × Heap
  deep_copy_crypt = copy_pointer crypt_field copy_crypt

  abbrev pub deep_copy_list : Pointer → Heap → Pointer × Heap
  deep_copy_list = copy_pointer list_field copy_list

  -- The methods `DeepCopyObject`; the nil interface is `none`.
  abbrev object_of : Pointer × Heap → Pointer × Heap
  object_of (none, h) = (none, h)
  object_of (some c, h) = (some c, h)

  abbrev pub deep_copy_object_crypt : Pointer → Heap → Pointer × Heap
  deep_copy_object_crypt p h = object_of (deep_copy_crypt p h)

  abbrev pub deep_copy_object_list : Pointer → Heap → Pointer × Heap
  deep_copy_object_list p h = object_of (deep_copy_list p h)

abbrev pub deep_copy_spec : Pointer → Heap → Pointer × Heap
deep_copy_spec = copy_pointer spec_field copy_spec

abbrev pub deep_copy_definition : Pointer → Heap → Pointer × Heap
deep_copy_definition = copy_pointer definition_field copy_definition

abbrev pub deep_copy_status : Pointer → Heap → Pointer × Heap
deep_copy_status = copy_pointer status_field copy_status

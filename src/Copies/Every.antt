-- ===== src/Copies/Every.antt =====
-- Every method DeepCopy and DeepCopyObject of pkg/apis/crypt/v1alpha1/zz_generated.deepcopy.go.
use crypt_controller.Base.{◌≤◌, ◌≡◌, refl, sym, subst, Option, none, some}
use crypt_controller.Api.{CryptStatus, SecretDefinition}
use crypt_controller.Copies.{
  Pointer, Heap, ObjectMetaValue, spec_field, definition_field, status_field, crypt_field,
  list_field, copy_crypt, copy_list, copy_spec, copy_definition, copy_status, object_of,
  deep_copy_crypt, deep_copy_list, deep_copy_spec, deep_copy_definition, deep_copy_status,
  deep_copy_object_crypt, deep_copy_object_list,
}
use crypt_controller.Copies.Contract.{
  Agree, Below, From, Between, View, Copies, copy_isolated, original_isolated,
}
use crypt_controller.Copies.Combine.{plain_view, plain-Copies}
use crypt_controller.Copies.Pointers.{pointer_view, copy_pointer-Copies}
use crypt_controller.Copies.Trees.{
  CryptTree, CryptListTree, CryptSpecTree, definition_view, spec_view, meta_view, crypt_view,
  list_view, crypt_pointer_view, list_pointer_view,
}
use crypt_controller.Copies.Isolation.{
  copy_crypt-Copies, copy_list-Copies, copy_spec-Copies, copy_definition-Copies,
}

pub data Method : Type 0 where
  of_crypt of_list of_spec of_definition of_status object_of_crypt object_of_list : Method

-- What the receiver of the method points to, read as a tree.
abbrev pub Tree : Method → Type 0
Tree of_crypt = CryptTree
Tree of_list = CryptListTree
Tree of_spec = CryptSpecTree
Tree of_definition = SecretDefinition
Tree of_status = CryptStatus
Tree object_of_crypt = CryptTree
Tree object_of_list = CryptListTree

abbrev pub view_of : (m : Method) → View Pointer (Option (Tree m))
view_of of_crypt = crypt_pointer_view
view_of of_list = list_pointer_view
view_of of_spec = pointer_view spec_field spec_view
view_of of_definition = pointer_view definition_field definition_view
view_of of_status = pointer_view status_field plain_view
view_of object_of_crypt = crypt_pointer_view
view_of object_of_list = list_pointer_view

module _ {A T : Type 0} (V : View A T) (f g : A → Heap → A × Heap) (x : A)
    (same : (h : Heap) → g x h ≡ f x h) where
  -- A method that gives the same is as deep.
  Copies-same : Copies V f x → Copies V g x
  Copies-same c = record {
    grows = λ h. subst (λ r. h.next ≤ r.1.next) (sym (same h)) (c.grows h);
    keeps = λ h. subst (λ r. Agree (Below h.next) h r.1) (sym (same h)) (c.keeps h);
    fresh = λ h. subst (λ r. V.Within (Between h.next r.1.next) r.1 r.0) (sym (same h)) (c.fresh h);
    same = λ h w. subst (λ r. V.tree r.1 r.0 ≡ V.tree h x) (sym (same h)) (c.same h w);
  }

module _ (copy_meta : ObjectMetaValue → Heap → ObjectMetaValue × Heap)
    (deep : (m : ObjectMetaValue) → Copies meta_view copy_meta m) where
  abbrev pub call : Method → Pointer → Heap → Pointer × Heap
  call of_crypt = deep_copy_crypt copy_meta
  call of_list = deep_copy_list copy_meta
  call of_spec = deep_copy_spec
  call of_definition = deep_copy_definition
  call of_status = deep_copy_status
  call object_of_crypt = deep_copy_object_crypt copy_meta
  call object_of_list = deep_copy_object_list copy_meta

  object_of_lem : (r : Pointer × Heap) → object_of copy_meta r ≡ r
  object_of_lem (none, h) = refl
  object_of_lem (some a, h) = refl

  deep_copy_crypt-Copies : (p : Pointer) → Copies crypt_pointer_view (deep_copy_crypt copy_meta) p
  deep_copy_crypt-Copies =
      copy_pointer-Copies crypt_field crypt_view (copy_crypt copy_meta)
        (copy_crypt-Copies copy_meta deep)

  deep_copy_list-Copies : (p : Pointer) → Copies list_pointer_view (deep_copy_list copy_meta) p
  deep_copy_list-Copies =
      copy_pointer-Copies list_field list_view (copy_list copy_meta)
        (copy_list-Copies copy_meta deep)

  call-Copies : (m : Method) (p : Pointer) → Copies (view_of m) (call m) p
  call-Copies of_crypt p = deep_copy_crypt-Copies p
  call-Copies of_list p = deep_copy_list-Copies p
  call-Copies of_spec p = copy_pointer-Copies spec_field spec_view copy_spec copy_spec-Copies p
  call-Copies of_definition p =
      copy_pointer-Copies definition_field definition_view copy_definition copy_definition-Copies p
  call-Copies of_status p = copy_pointer-Copies status_field plain_view copy_status plain-Copies p
  call-Copies object_of_crypt p =
      Copies-same (view_of object_of_crypt) (deep_copy_crypt copy_meta) _ p
        (λ h. object_of_lem (deep_copy_crypt copy_meta p h)) (deep_copy_crypt-Copies p)
  call-Copies object_of_list p =
      Copies-same (view_of object_of_list) (deep_copy_list copy_meta) _ p
        (λ h. object_of_lem (deep_copy_list copy_meta p h)) (deep_copy_list-Copies p)

  -- Of a pointer to a Crypt, a CryptList, a spec, a definition or a status, all of which is allocated,
  -- with no key twice in a map, and where ObjectMeta is copied deeply: whatever is written afterwards to
  -- what was there before, the result of DeepCopy, or of DeepCopyObject, reads as the value did, nil
  -- for nil, and whatever is written to what was not, the value reads as it did.
  pub call_isolated :
      (m : Method) (p : Pointer) (h k l : Heap)
      → (view_of m).Within (Below h.next) h p
      → Agree (From h.next) (call m p h).1 k
      → Agree (Below h.next) (call m p h).1 l
      → ((view_of m).tree k (call m p h).0 ≡ (view_of m).tree h p)
        × ((view_of m).tree l p ≡ (view_of m).tree h p)
  call_isolated m p h k l w old new = (
    copy_isolated (view_of m) (call m) p (call-Copies m p) h k w old,
    original_isolated (view_of m) (call m) p (call-Copies m p) h l w new,
  )

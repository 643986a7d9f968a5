-- ===== src/Copies/Isolation.antt =====
-- That the copying functions of pkg/apis/crypt/v1alpha1/zz_generated.deepcopy.go make deep copies.
use crypt_controller.Base.{◌≡◌, refl, sym, subst, ap, ◌∙◌, []}
use crypt_controller.Copies.{
  Pointer, Heap, SecretDefinitionValue, CryptSpecValue, ObjectMetaValue, CryptValue, CryptListValue,
  entries_field, strings_field, definitions_field, crypts_field, copy_pointer, copy_each, copy_map,
  copy_strings, copy_definition, copy_spec, copy_crypt, copy_list, fill,
}
use crypt_controller.Copies.Contract.{Between, View, Copies}
use crypt_controller.Copies.Combine.{
  plain_view, pair_view, part_view, copy_both, each_view, plain-Copies, copy_both-Copies,
  copy_each-Copies,
}
use crypt_controller.Copies.Pointers.{pointer_view, copy_pointer-Copies}
use crypt_controller.Copies.Maps.{entries_view, fill-Copies}
use crypt_controller.Copies.Trees.{
  map_view, strings_view, definition_view, definitions_view, spec_view, meta_view, crypt_view,
  list_view, with_maps, with_slices, with_parts, with_items,
}

pub copy_map-Copies : (p : Pointer) → Copies map_view copy_map p
copy_map-Copies = copy_pointer-Copies entries_field entries_view (λ d k. (fill [] d, k)) fill-Copies

pub copy_strings-Copies : (p : Pointer) → Copies strings_view copy_strings p
copy_strings-Copies = copy_pointer-Copies strings_field plain_view (λ xs k. (xs, k)) plain-Copies

-- A struct is copied by copying the part that has addresses: `f` copies the part, and `put` sets it.
module _ {A B T U : Type 0} (V : View A T) (part : B → A) (make : B → T → U)
    (f : A → Heap → A × Heap) (put : B → A → B) (part-put : (x : B) (y : A) → part (put x y) ≡ y)
    (make-put : (x : B) (y : A) (t : T) → make (put x y) t ≡ make x t) where
  pub part-Copies :
      (x : B)
      → Copies V f (part x)
      → Copies (part_view V part make) (λ y h. (put y (f (part y) h).0, (f (part y) h).1)) x
  part-Copies x c = record {
    grows = c.grows;
    keeps = c.keeps;
    fresh = λ h.
        subst (λ y. V.Within (Between h.next (f (part x) h).1.next) (f (part x) h).1 y)
          (sym (part-put x (f (part x) h).0)) (c.fresh h);
    same = λ h w.
        make-put x (f (part x) h).0 _
        ∙ ap (λ y. make x (V.tree (f (part x) h).1 y)) (part-put x (f (part x) h).0)
        ∙ ap (make x) (c.same h w);
  }

pub copy_definition-Copies : (d : SecretDefinitionValue) → Copies definition_view copy_definition d
copy_definition-Copies d =
    part-Copies (pair_view map_view map_view) (λ e. (e.labels, e.annotations)) with_maps
      (copy_both map_view map_view copy_map copy_map)
      (λ e p. record e { labels = p.0; annotations = p.1 }) (λ e p. refl) (λ e p t. refl) d
      (copy_both-Copies map_view map_view copy_map copy_map d.labels d.annotations
        (copy_map-Copies d.labels) (copy_map-Copies d.annotations))

copy_definitions-Copies :
    (p : Pointer)
    → Copies definitions_view (copy_pointer definitions_field (copy_each copy_definition)) p
copy_definitions-Copies =
    copy_pointer-Copies definitions_field (each_view definition_view) (copy_each copy_definition)
      (copy_each-Copies definition_view copy_definition copy_definition-Copies)

pub copy_spec-Copies : (s : CryptSpecValue) → Copies spec_view copy_spec s
copy_spec-Copies s =
    part-Copies (pair_view definitions_view strings_view) (λ r. (r.secrets, r.namespaces))
      with_slices
      (copy_both definitions_view strings_view
        (copy_pointer definitions_field (copy_each copy_definition)) copy_strings)
      (λ r p. record { secrets = p.0; namespaces = p.1 }) (λ r p. refl) (λ r p t. refl) s
      (copy_both-Copies definitions_view strings_view _ copy_strings s.secrets s.namespaces
        (copy_definitions-Copies s.secrets) (copy_strings-Copies s.namespaces))

module _ (copy_meta : ObjectMetaValue → Heap → ObjectMetaValue × Heap)
    (deep : (m : ObjectMetaValue) → Copies meta_view copy_meta m) where
  pub copy_crypt-Copies : (c : CryptValue) → Copies crypt_view (copy_crypt copy_meta) c
  copy_crypt-Copies c =
      part-Copies (pair_view meta_view spec_view) (λ r. (r.meta, r.spec)) with_parts
        (copy_both meta_view spec_view copy_meta copy_spec)
        (λ r p. record r { meta = p.0; spec = p.1 }) (λ r p. refl) (λ r p t. refl) c
        (copy_both-Copies meta_view spec_view copy_meta copy_spec c.meta c.spec (deep c.meta)
          (copy_spec-Copies c.spec))

  pub copy_list-Copies : (l : CryptListValue) → Copies list_view (copy_list copy_meta) l
  copy_list-Copies l =
      part-Copies (pointer_view crypts_field (each_view crypt_view)) (λ r. r.items) with_items
        (copy_pointer crypts_field (copy_each (copy_crypt copy_meta)))
        (λ r p. record r { items = p }) (λ r p. refl) (λ r p t. refl) l
        (copy_pointer-Copies crypts_field (each_view crypt_view) (copy_each (copy_crypt copy_meta))
          (copy_each-Copies crypt_view (copy_crypt copy_meta) copy_crypt-Copies) l.items)

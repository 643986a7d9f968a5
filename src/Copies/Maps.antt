-- ===== src/Copies/Maps.antt =====
-- The loops of pkg/apis/crypt/v1alpha1/zz_generated.deepcopy.go that fill a new map.
use crypt_controller.Base.{
  String, ◌≡◌, refl, ap, ◌∙◌, sym, subst, none, [], ◌∷◌, ◌++◌, arith, ◌==◌, ==_iff, string_eq,
  false, Bool-cases, inl, inr,
}
use mathlib.Core.List.{append-nil, append_assoc}
use crypt_controller.Base.Dict.{Entries, lookup, insert, lookup-insert}
use crypt_controller.Copies.{fill}
use crypt_controller.Copies.Contract.{View, Copies}

-- No key stands twice.
abbrev pub Distinct : Entries String → Type 0
Distinct [] = Unit
Distinct ((k, v) ∷ d) = (lookup k d ≡ none) × Distinct d

insert-Distinct : (k v : String) (d : Entries String) → Distinct d → Distinct (insert k v d)
unfolding insert lookup
insert-Distinct k v [] h = (refl, tt)
insert-Distinct k v ((j, w) ∷ d) (alone, h) = elim (Bool-cases (k == j)) [
  | inl e ↦ rw (insert, e) (ground (arith, alone, ==_iff k j), h)
  | inr e ↦
      rw (insert, e)
        (
          ground (arith, alone, e, lookup-insert j k v d, ==_iff k j, ==_iff j k),
          insert-Distinct k v d h,
        )
]

pub fill-Distinct : (out d : Entries String) → Distinct out → Distinct (fill out d)
unfolding fill
fill-Distinct out [] h = h
fill-Distinct out ((k, v) ∷ d) h = fill-Distinct (insert k v out) d (insert-Distinct k v out h)

lookup_absent :
    (j k v : String) (d rest : Entries String)
    → lookup j (d ++ (k, v) ∷ rest) ≡ none
    → (k == j) ≡ false
unfolding lookup
lookup_absent j k v [] rest h = ground (arith, ==_iff k j, ==_iff j k)
lookup_absent j k v ((i, w) ∷ d) rest h = ground (arith, lookup_absent j k v d rest)

-- An entry with a new key goes to the end.
insert_new :
    (k v : String) (d rest : Entries String)
    → Distinct (d ++ (k, v) ∷ rest)
    → insert k v d ≡ d ++ (k, v) ∷ []
unfolding insert
insert_new k v [] rest h = refl
insert_new k v ((j, w) ∷ d) rest (alone, h) =
    rw (insert, lookup_absent j k v d rest alone) (ap (λ r. (j, w) ∷ r) (insert_new k v d rest h))

fill-append : (out d : Entries String) → Distinct (out ++ d) → fill out d ≡ out ++ d
unfolding fill
fill-append out [] h = sym (append-nil out)
fill-append out ((k, v) ∷ d) h =
    ap (λ o. fill o d) (insert_new k v out d h)
    ∙ fill-append (out ++ (k, v) ∷ []) d (subst Distinct (sym (append_assoc out ((k, v) ∷ []) d)) h)
    ∙ append_assoc out ((k, v) ∷ []) d

-- The entries of a map, none of whose keys stands twice.
abbrev pub entries_view : View (Entries String) (Entries String)
entries_view = record {
  Within = λ P h d. Distinct d;
  tree = λ h d. d;
  local = λ P h k d agree w. refl;
  stable = λ P h k d agree w. w;
  weaken = λ P Q h d i w. w;
}

pub fill-Copies : (d : Entries String) → Copies entries_view (λ e k. (fill [] e, k)) d
fill-Copies d = record {
  grows = λ h. ground arith;
  keeps = λ h a p. refl;
  fresh = λ h. fill-Distinct [] d tt;
  same = λ h w. fill-append [] d w;
}

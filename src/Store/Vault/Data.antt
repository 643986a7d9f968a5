-- ===== src/Store/Vault/Data.antt =====
-- What `dataToObject` and `Get` of pkg/store/vault/vault.go make of the data that Vault returns.
use crypt_controller.Base.{
  String, Bool, true, false, ◌≡◌, ◌≢◌, refl, sym, ap, ◌∙◌, Option, none, some, [], ◌∷◌, ◌==◌,
  ==_iff, string_eq, arith, ◌⊎◌, inl, inr, Option-cases, Bool-cases,
}
use crypt_controller.Base.Dict.{Entries, lookup, insert, lookup-insert}
use crypt_controller.Base.Outcome.{Result, ok, err, invalid_data}
use crypt_controller.Kube.{Bytes}
use crypt_controller.Any.{Any, as_bytes}
use crypt_controller.Store.{Object}
use crypt_controller.Store.Vault.{convert, data_to_object}

-- No key stands twice, as in every Go map.
abbrev pub NodupKeys : Entries Any → Type 0
NodupKeys [] = Unit
NodupKeys ((k, v) ∷ d) = (lookup k d ≡ none) × NodupKeys d

abbrev pub all_bytes : Entries Any → Bool
all_bytes [] = true
all_bytes ((k, v) ∷ d) = elim (as_bytes v) [ none ↦ false | some b ↦ all_bytes d ]

-- The value of a key in the data, as bytes; `old` if the key is not there.
abbrev found : Option Any → Option Bytes → Option Bytes
found none old = old
found (some v) old = as_bytes v

-- An object with the values that are given for each key.
abbrev pub Holds : Result Object → (String → Option Bytes) → Type 0
Holds r values = (o : Entries Bytes) × (r ≡ ok (some o)) × ((k : String) → lookup k o ≡ values k)

convert_fails :
    (d : Entries Any) (o : Entries Bytes) → all_bytes d ≡ false → convert d o ≡ err invalid_data
unfolding convert
convert_fails [] o h = cc
convert_fails ((k, v) ∷ d) o h = elim (Option-cases (as_bytes v)) [
  | inl e ↦ ground (arith, e)
  | inr (b, e) ↦ ground (arith, e, convert_fails d (insert k b o))
]

convert-Holds :
    (d : Entries Any) (o : Entries Bytes)
    → NodupKeys d
    → all_bytes d ≡ true
    → Holds (convert d o) (λ k. found (lookup k d) (lookup k o))
unfolding convert lookup
convert-Holds [] o u h = (o, refl, λ k. refl)
convert-Holds ((j, v) ∷ d) o u h = elim (Option-cases (as_bytes v)) [
  | inl e ↦ absurd (ground (arith, e))
  | inr (b, e) ↦
      let (o', made, holds) = convert-Holds d (insert j b o) u.1 (ground (arith, e)) in
      (
        o',
        ground (arith, e, made),
        λ k. ground (arith, e, holds k, lookup-insert k j b o, ==_iff k j, u.0),
      )
]

-- The bytes under a key.
abbrev pub bytes_at : Entries Any → String → Option Bytes
bytes_at d k = found (lookup k d) none

-- `dataToObject` succeeds just where every value is a byte slice, and then the object has those values
-- under those keys and no others; else it fails with `InvalidDataError`.
pub data_to_object_exact :
    (d : Entries Any)
    → NodupKeys d
    → ((all_bytes d ≡ true) × Holds (data_to_object (some d)) (bytes_at d))
      ⊎ ((all_bytes d ≡ false) × (data_to_object (some d) ≡ err invalid_data))
unfolding data_to_object lookup
data_to_object_exact d u = elim (Bool-cases (all_bytes d)) [
  | inl h ↦ inl (h, convert-Holds d [] u h)
  | inr h ↦ inr (h, convert_fails d [] h)
]

-- Two orders of visiting one map.
abbrev pub SameData : Entries Any → Entries Any → Type 0
SameData d d' = (k : String) → lookup k d ≡ lookup k d'

-- The same error, or objects with the same values.
abbrev pub SameResult : Result Object → Result Object → Type 0
SameResult (ok none) (ok none) = Unit
SameResult (ok (some o)) (ok (some o')) = (k : String) → lookup k o ≡ lookup k o'
SameResult (err e) (err e') = e ≡ e'
SameResult _ _ = ⊥

-- A value of the data that is no byte slice.
abbrev Odd : Entries Any → Type 0
Odd d = (k : String) × (v : Any) × (lookup k d ≡ some v) × (as_bytes v ≡ none)

all_bytes-lookup :
    (d : Entries Any) (k : String) (v : Any)
    → all_bytes d ≡ true
    → lookup k d ≡ some v
    → as_bytes v ≢ none
unfolding lookup
all_bytes-lookup [] k v h e odd = cc
all_bytes-lookup ((j, w) ∷ d) k v h e odd = elim (Option-cases (as_bytes w)) [
  | inl none_there ↦ ground (arith, none_there)
  | inr (b, some_there) ↦ elim (Bool-cases (k == j)) [
    | inl same ↦ ground (arith, same, some_there)
    | inr differ ↦ all_bytes-lookup d k v (ground (arith, some_there)) (ground (arith, differ)) odd
  ]
]

all_bytes-Odd : (d : Entries Any) → NodupKeys d → all_bytes d ≡ false → Odd d
unfolding lookup
all_bytes-Odd [] u h = cc
all_bytes-Odd ((j, v) ∷ d) u h = elim (Option-cases (as_bytes v)) [
  | inl e ↦ (j, v, ground (arith, ==_iff j j), e)
  | inr (b, e) ↦
      let (k, w, at, odd) = all_bytes-Odd d u.1 (ground (arith, e)) in
      (k, w, ground (arith, at, ==_iff k j, u.0), odd)
]

all_bytes_order :
    (d d' : Entries Any) → NodupKeys d → NodupKeys d' → SameData d d' → all_bytes d ≡ all_bytes d'
all_bytes_order d d' u u' same = elim (Bool-cases (all_bytes d)) [
  | inl h ↦ elim (Bool-cases (all_bytes d')) [
    | inl h' ↦ rw (h, h')
    | inr h' ↦
        let (k, v, at, odd) = all_bytes-Odd d' u' h' in
        absurd (all_bytes-lookup d k v h (same k ∙ at) odd)
  ]
  | inr h ↦ elim (Bool-cases (all_bytes d')) [
    | inr h' ↦ rw (h, h')
    | inl h' ↦
        let (k, v, at, odd) = all_bytes-Odd d u h in
        absurd (all_bytes-lookup d' k v h' (sym (same k) ∙ at) odd)
  ]
]

-- The result of `dataToObject` does not depend on the order in which `range` visits the map: it is the
-- same error, or an object with the same values.
pub data_to_object_order :
    (d d' : Entries Any)
    → NodupKeys d
    → NodupKeys d'
    → SameData d d'
    → SameResult (data_to_object (some d)) (data_to_object (some d'))
data_to_object_order d d' u u' same = elim (data_to_object_exact d u) [
  | inl (h, (o, made, holds)) ↦ elim (data_to_object_exact d' u') [
    | inl (h', (o', made', holds')) ↦
        rw (made, made')
          (λ k. holds k ∙ ap (λ (v : Option Any). found v none) (same k) ∙ sym (holds' k))
    | inr (h', failed') ↦ absurd (ground (arith, h, h', all_bytes_order d d' u u' same))
  ]
  | inr (h, failed) ↦ elim (data_to_object_exact d' u') [
    | inl (h', (o', made', holds')) ↦ absurd (ground (arith, h, h', all_bytes_order d d' u u' same))
    | inr (h', failed') ↦ rw (failed, failed') refl
  ]
]

-- ===== src/Tests/SchemeTests.antt =====
-- Schemes that are tables, and one that has a type already.
use crypt_controller.Base.{
  String, Bool, true, false, ◌≡◌, refl, sym, ◌∙◌, ◌⊎◌, Option, none, some, List, [], ◌∷◌, ◌==◌,
  string_eq, if◌then◌else◌, ==_iff, arith, inl, inr, Bool-cases,
}
use crypt_controller.Base.Outcome.{Error, Outcome, returned, panicked}
use crypt_controller.Kube.{GroupVersion}
use crypt_controller.Api.{scheme_group_version}
use crypt_controller.Schemes.{
  SchemeApi, ApiType, crypt_type, crypt_list_type, other_type, init, init_fake, must_add,
  version_one,
}
use crypt_controller.Schemes.Tables.{Table, Agrees, over, known, crypt_types, same_version}
use crypt_controller.Schemes.Registered.{IsSchemeApi, Registers, init-Registers}

-- The method `AddToScheme` of a builder.
abbrev in_turn :
    List (Table → Outcome (Option Error × Table)) → Table → Outcome (Option Error × Table)
in_turn [] s = returned (none, s)
in_turn (f ∷ fs) s = elim (f s) [
  | panicked ↦ panicked
  | returned (e, u) ↦ elim e [ none ↦ in_turn fs u | some e ↦ returned (some e, u) ]
]

-- Of what metav1 puts, the options of a list.
abbrev options_at : GroupVersion → Table
options_at gv g k =
    if same_version g gv
    then (if k == "ListOptions" then some (other_type "ListOptions") else none)
    else none

abbrev tables : SchemeApi
tables = record {
  Scheme = Table;
  new_scheme = λ g k. none;
  type_of = λ s. s;
  add_known_types = λ gv ts s. returned (over (known gv ts) s);
  add_to_group_version = λ gv s. returned (over (options_at gv) s);
  new_scheme_builder = λ fs. fs;
  add_to_scheme = in_turn;
  must = λ e. elim e [ none ↦ returned tt | some e ↦ panicked ];
}

-- A table with one kind.
one_kind :
    (here : Bool) (k name : String) (t b : ApiType)
    → (if here then (if k == name then some t else none) else none) ≡ some b
    → k ≡ name
one_kind false k name t b e = cc
one_kind true k name t b e = elim (Bool-cases (k == name)) [
  | inl same ↦ (==_iff k name).0 same
  | inr differ ↦ absurd (ground (arith, e, differ))
]

crypt_kinds :
    (here : Bool) (k : String) (a : ApiType)
    → (if here
        then (if k == "Crypt"
            then some crypt_type
            else (if k == "CryptList" then some crypt_list_type else none))
        else none)
      ≡ some a
    → (k ≡ "Crypt") ⊎ (k ≡ "CryptList")
crypt_kinds false k a e = cc
crypt_kinds true k a e = elim (Bool-cases (k == "Crypt")) [
  | inl same ↦ inl ((==_iff k "Crypt").0 same)
  | inr differ ↦ elim (Bool-cases (k == "CryptList")) [
    | inl same ↦ inr ((==_iff k "CryptList").0 same)
    | inr differ' ↦ absurd (ground (arith, e, differ, differ'))
  ]
]

-- A kind that is neither Crypt nor CryptList is none of this API's.
not_ours :
    (g : GroupVersion) (k name : String) (a : ApiType)
    → (name == "Crypt") ≡ false
    → (name == "CryptList") ≡ false
    → k ≡ name
    → crypt_types g k ≡ some a
    → ⊥
not_ours g k name a h h' e at_crypts =
    elim (crypt_kinds (same_version g scheme_group_version) k a at_crypts) [
      | inl e' ↦ ground (arith, h, sym e ∙ e', ==_iff name "Crypt")
      | inr e' ↦ ground (arith, h', sym e ∙ e', ==_iff name "CryptList")
    ]

options_agree : (gv gv' : GroupVersion) → Agrees (options_at gv) (options_at gv')
options_agree gv gv' g k a b e e' = ground (arith, e, e')

crypts_differ : (gv : GroupVersion) → Agrees crypt_types (options_at gv)
crypts_differ gv g k a b e e' = absurd (
    not_ours g k "ListOptions" a refl refl
      (one_kind (same_version g gv) k "ListOptions" (other_type "ListOptions") b e') e)

tables-IsSchemeApi : IsSchemeApi tables options_at
tables-IsSchemeApi = record {
  new_is_empty = λ g k. refl;
  known_put =
      λ gv ts s fits. record { after = over (known gv ts) s; returns = refl; types = λ g k. refl };
  meta_put =
      λ gv s fits. record { after = over (options_at gv) s; returns = refl; types = λ g k. refl };
  builds = λ fs. refl;
  applies_none = λ s. refl;
  applies = λ f fs s u e. rw (in_turn, e) refl;
  must_none = refl;
  meta_agrees = options_agree scheme_group_version;
  crypts_free = crypts_differ;
}

-- The scheme of the event recorder, of which the kind Secret is kept.
abbrev recorder_scheme : Table
recorder_scheme g k =
    if same_version g version_one
    then (if k == "Secret" then some (other_type "Secret") else none)
    else none

crypts_fit : Agrees crypt_types recorder_scheme
crypts_fit g k a b e e' = absurd (
    not_ours g k "Secret" a refl refl
      (one_kind (same_version g version_one) k "Secret" (other_type "Secret") b e') e)

options_fit : Agrees (options_at scheme_group_version) recorder_scheme
options_fit g k a b e e' = ground (arith, e, e', ==_iff k "ListOptions", ==_iff k "Secret")

init-Registers_example :
    (init_fake tables ≡ init tables)
    × Registers tables options_at (options_at version_one) (init tables)
    × Registers tables options_at recorder_scheme (must_add tables recorder_scheme)
init-Registers_example =
    init-Registers tables options_at tables-IsSchemeApi recorder_scheme crypts_fit options_fit

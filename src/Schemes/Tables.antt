-- ===== src/Schemes/Tables.antt =====
-- The types that schemes have for kinds, as tables, and those that pkg/apis/crypt/v1alpha1/register.go
-- registers.
use crypt_controller.Base.{
  or_keep, String, Bool, ◌≡◌, sym, ◌∙◌, Option, none, some, List, [], ◌∷◌, ◌==◌, string_eq, ◌&&◌,
  if◌then◌else◌,
}
use crypt_controller.Kube.{GroupVersion}
use crypt_controller.Api.{scheme_group_version}
use crypt_controller.Schemes.{ApiType, crypt_type, crypt_list_type, other_type}

-- A type for each kind of a group's version, or none.
abbrev pub Table : Type 0
Table = GroupVersion → String → Option ApiType

abbrev pub same_version : GroupVersion → GroupVersion → Bool
same_version g h = g.group == h.group && g.version == h.version

-- The kinds of this API.
abbrev pub crypt_types : Table
crypt_types g k =
    if same_version g scheme_group_version
    then (if k == "Crypt"
        then some crypt_type
        else (if k == "CryptList" then some crypt_list_type else none))
    else none

-- What the first has, and else what the second has.
abbrev pub over : Table → Table → Table
over s t g k = or_keep (s g k) (t g k)

-- No kind has two types.
abbrev pub Agrees : Table → Table → Type 0
Agrees s t =
    (g : GroupVersion) (k : String) (a b : ApiType) → s g k ≡ some a → t g k ≡ some b → a ≡ b

pub over-Agrees : (m s t : Table) → Agrees m s → Agrees m t → Agrees m (over s t)
over-Agrees m s t h h' g k a b at_m = go (s g k) (t g k) (h g k a b at_m) (h' g k a b at_m)
  where
    go :
        (x y : Option ApiType)
        → (x ≡ some b → a ≡ b)
        → (y ≡ some b → a ≡ b)
        → or_keep x y ≡ some b
        → a ≡ b
    go none y h h' = h'
    go (some c) y h h' = h

pub Agrees-self : (t : Table) → Agrees t t
Agrees-self t g k a b e e' = cc

pub Agrees-sym : (s t : Table) → Agrees s t → Agrees t s
Agrees-sym s t h g k a b e e' = sym (h g k b a e' e)

pub Agrees-along :
    (m s t : Table) → ((g : GroupVersion) (k : String) → s g k ≡ t g k) → Agrees m t → Agrees m s
Agrees-along m s t same h g k a b at_m at_s = h g k a b at_m (sym (same g k) ∙ at_s)

abbrev kind_of : ApiType → String
kind_of crypt_type = "Crypt"
kind_of crypt_list_type = "CryptList"
kind_of (other_type name) = name

abbrev find_kind : String → List ApiType → Option ApiType
find_kind k [] = none
find_kind k (t ∷ ts) = if k == kind_of t then some t else find_kind k ts

-- What `AddKnownTypes` is to put: each type under its own name.
abbrev pub known : GroupVersion → List ApiType → Table
known gv ts g k = if same_version g gv then find_kind k ts else none

-- ===== src/Base/Dict.antt =====
-- Go maps with text keys. A nil map is `none`; the entries of a map stand in the order in which one
-- `range` over it visits them.
use Prim.Native.String.{String}
use mathlib.Core.Path.{◌≡◌, refl}
use mathlib.Core.Option.{Option, none, some}
use mathlib.Core.List.{List, [], ◌∷◌}
use native.Mathlib.Omega.{arith}
use crypt_controller.Base.Equality.{◌==◌, ==_iff, string_eq, if◌then◌else◌}

abbrev pub Entries {ℓ} : Type ℓ → Type ℓ
Entries V = List (String × V)

abbrev pub GoMap {ℓ} : Type ℓ → Type ℓ
GoMap V = Option (Entries V)

module _ {ℓ} {V : Type ℓ} where
  unfoldable pub lookup : String → Entries V → Option V
  lookup k [] = none
  lookup k ((j, v) ∷ d) = if k == j then some v else lookup k d

  -- `d[k] = v`
  unfoldable pub insert : String → V → Entries V → Entries V
  insert k v [] = (k, v) ∷ []
  insert k v ((j, w) ∷ d) = if k == j then (k, v) ∷ d else (j, w) ∷ insert k v d

  -- `m[k]` on a map that may be nil.
  unfoldable pub index : GoMap V → String → Option V
  unfolding lookup
  index none k = none
  index (some d) k = lookup k d

  pub lookup-insert :
      (j k : String) (v : V) (d : Entries V)
      → lookup j (insert k v d) ≡ (if j == k then some v else lookup j d)
  unfolding insert lookup
  lookup-insert j k v [] = refl
  lookup-insert j k v ((i, w) ∷ d) =
      ground (arith, ==_iff j k, ==_iff k i, ==_iff j i, lookup-insert j k v d)

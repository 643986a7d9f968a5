-- ===== src/Base/Choice.antt =====
-- The first of several choices, and the last that the members of a list make.
use mathlib.Core.Path.{◌≡◌, refl}
use mathlib.Core.Option.{Option, none, some}
use mathlib.Core.List.{List, [], ◌∷◌}

module _ {ℓ} {A : Type ℓ} where
  -- The first, if it is there, and else the second.
  abbrev pub or_keep : Option A → Option A → Option A
  or_keep none old = old
  or_keep (some new) old = some new

  pub or_keep_assoc : (a b c : Option A) → or_keep a (or_keep b c) ≡ or_keep (or_keep a b) c
  or_keep_assoc none b c = refl
  or_keep_assoc (some s) b c = refl

  pub or_keep_twice : (a b : Option A) → or_keep a (or_keep a b) ≡ or_keep a b
  or_keep_twice none b = refl
  or_keep_twice (some s) b = refl

  pub or_keep-none : (a : Option A) → or_keep a none ≡ a
  or_keep-none none = refl
  or_keep-none (some s) = refl

  abbrev pub or_default : Option A → A → A
  or_default none a = a
  or_default (some b) a = b

  pub or_default-or_keep :
      (a b : Option A) (c : A) → or_default (or_keep a b) c ≡ or_default a (or_default b c)
  or_default-or_keep none b c = refl
  or_default-or_keep (some s) b c = refl

-- The last choice that a member makes.
abbrev pub latest {ℓ κ} : {A : Type ℓ} {B : Type κ} → (A → Option B) → List A → Option B
latest choice [] = none
latest choice (x ∷ xs) = or_keep (latest choice xs) (choice x)

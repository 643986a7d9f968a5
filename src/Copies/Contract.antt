-- ===== src/Copies/Contract.antt =====
-- What a deep copy of pkg/apis/crypt/v1alpha1/zz_generated.deepcopy.go has to do.
use crypt_controller.Base.{◌≤◌, ◌<◌, ◌≡◌, ◌∙◌}
use crypt_controller.Copies.{Address, Heap}

-- The second heap has at the addresses with `P` what the first has.
abbrev pub Agree : (Address → Type 0) → Heap → Heap → Type 0
Agree P h k = (a : Address) → P a → k.cell a ≡ h.cell a

abbrev pub Below : Address → Address → Type 0
Below n a = a < n

abbrev pub From : Address → Address → Type 0
From n a = n ≤ a

abbrev pub Between : Address → Address → Address → Type 0
Between m n a = (m ≤ a) × (a < n)

-- How the values of `A` are read, as trees without addresses. `Within P h x`: the addresses that are
-- reached from `x` have `P`, and the maps there have no key twice.
pub record View (A T : Type 0) : Type 1 where
  pub Within : (Address → Type 0) → Heap → A → Type 0
  pub tree : Heap → A → T
  pub local :
      (P : Address → Type 0) (h k : Heap) (x : A) → Agree P h k → Within P h x → tree k x ≡ tree h x
  pub stable :
      (P : Address → Type 0) (h k : Heap) (x : A) → Agree P h k → Within P h x → Within P k x
  pub weaken :
      (P Q : Address → Type 0) (h : Heap) (x : A)
      → ((a : Address) → P a → Q a)
      → Within P h x
      → Within Q h x

-- `f` makes a copy of `x` that reads as the original did, out of new addresses, and changes none that
-- were in use.
pub record Copies {A T : Type 0} (V : View A T) (f : A → Heap → A × Heap) (x : A) : Type 0 where
  pub grows : (h : Heap) → h.next ≤ (f x h).1.next
  pub keeps : (h : Heap) → Agree (Below h.next) h (f x h).1
  pub fresh : (h : Heap) → V.Within (Between h.next (f x h).1.next) (f x h).1 (f x h).0
  pub same : (h : Heap) → V.Within (Below h.next) h x → V.tree (f x h).1 (f x h).0 ≡ V.tree h x

module _ {A T : Type 0} (V : View A T) (f : A → Heap → A × Heap) (x : A) (c : Copies V f x)
    (h k : Heap) (w : V.Within (Below h.next) h x) where
  -- Whatever is written to the original, the copy reads as the original did.
  pub copy_isolated : Agree (From h.next) (f x h).1 k → V.tree k (f x h).0 ≡ V.tree h x
  copy_isolated agree =
      V.local (Between h.next (f x h).1.next) (f x h).1 k (f x h).0 (λ a p. agree a p.0) (c.fresh h)
      ∙ c.same h w

  -- Whatever is written to the copy, the original reads as it did.
  pub original_isolated : Agree (Below h.next) (f x h).1 k → V.tree k x ≡ V.tree h x
  original_isolated agree = V.local (Below h.next) h k x (λ a p. agree a p ∙ c.keeps h a p) w

-- ===== src/Copies/Combine.antt =====
-- Deep copies of slices and structs from those of their parts.
use crypt_controller.Base.{◌≡◌, refl, ap, ap₂, ◌∙◌, List, [], ◌∷◌, map, All, arith, nat_eq}
use crypt_controller.Copies.{Address, Heap, copy_each}
use crypt_controller.Copies.Contract.{Agree, Between, View, Copies}

-- A value without addresses.
abbrev pub plain_view : {A : Type 0} → View A A
plain_view = record {
  Within = λ P h x. Unit;
  tree = λ h x. x;
  local = λ P h k x agree w. refl;
  stable = λ P h k x agree w. w;
  weaken = λ P Q h x i w. w;
}

pub plain-Copies : {A : Type 0} (x : A) → Copies (plain_view {A = A}) (λ y h. (y, h)) x
plain-Copies x = record {
  grows = λ h. ground arith;
  keeps = λ h a p. refl;
  fresh = λ h. tt;
  same = λ h w. refl;
}

-- A struct whose addresses are in one part of it.
module _ {A B T U : Type 0} (V : View A T) (part : B → A) (make : B → T → U) where
  abbrev pub part_view : View B U
  part_view = record {
    Within = λ P h x. V.Within P h (part x);
    tree = λ h x. make x (V.tree h (part x));
    local = λ P h k x agree w. ap (make x) (V.local P h k (part x) agree w);
    stable = λ P h k x agree w. V.stable P h k (part x) agree w;
    weaken = λ P Q h x i w. V.weaken P Q h (part x) i w;
  }

module _ {A B T U : Type 0} (V : View A T) (W : View B U) where
  abbrev pub pair_view : View (A × B) (T × U)
  pair_view = record {
    Within = λ P h x. V.Within P h x.0 × W.Within P h x.1;
    tree = λ h x. (V.tree h x.0, W.tree h x.1);
    local = λ P h k x agree w.
        ap₂ (λ t u. (t, u)) (V.local P h k x.0 agree w.0) (W.local P h k x.1 agree w.1);
    stable = λ P h k x agree w. (V.stable P h k x.0 agree w.0, W.stable P h k x.1 agree w.1);
    weaken = λ P Q h x i w. (V.weaken P Q h x.0 i w.0, W.weaken P Q h x.1 i w.1);
  }

  -- Two copies, one after the other.
  abbrev pub copy_both :
      (A → Heap → A × Heap) → (B → Heap → B × Heap) → A × B → Heap → (A × B) × Heap
  copy_both f g (x, y) h = let one = f x h in let two = g y one.1 in ((one.0, two.0), two.1)

  pub copy_both-Copies :
      (f : A → Heap → A × Heap) (g : B → Heap → B × Heap) (x : A) (y : B)
      → Copies V f x
      → Copies W g y
      → Copies pair_view (copy_both f g) (x, y)
  copy_both-Copies f g x y c d = record {
    grows = λ h. ground (arith, c.grows h, d.grows (f x h).1);
    keeps = λ h a q. d.keeps (f x h).1 a (ground (arith, q, c.grows h)) ∙ c.keeps h a q;
    fresh = λ h. (
      V.weaken _ (Between h.next (g y (f x h).1).1.next) _ _
          (λ a q. ground (arith, q, d.grows (f x h).1)) (new h),
      W.weaken _ _ _ _ (λ a q. ground (arith, q, c.grows h)) (d.fresh (f x h).1),
    );
    same = λ h w.
        ap₂ (λ t u. (t, u))
          (V.local _ (f x h).1 _ _ (λ a q. d.keeps (f x h).1 a (ground (arith, q))) (c.fresh h)
            ∙ c.same h w.0)
          (d.same (f x h).1 (
              W.weaken _ _ _ _ (λ a q. ground (arith, q, c.grows h))
                (W.stable _ h (f x h).1 y (c.keeps h) w.1))
            ∙ W.local _ h (f x h).1 y (c.keeps h) w.1);
  }
    where
      new : (h : Heap) → V.Within (Between h.next (f x h).1.next) (g y (f x h).1).1 (f x h).0
      new h = V.stable _ (f x h).1 _ _ (λ a q. d.keeps (f x h).1 a (ground (arith, q))) (c.fresh h)

module _ {A T : Type 0} (V : View A T) where
  pub All-weaken :
      (P Q : Address → Type 0) (h : Heap) (xs : List A)
      → ((a : Address) → P a → Q a)
      → All (V.Within P h) xs
      → All (V.Within Q h) xs
  All-weaken P Q h [] i w = tt
  All-weaken P Q h (x ∷ xs) i (v, w) = (V.weaken P Q h x i v, All-weaken P Q h xs i w)

  pub All-stable :
      (P : Address → Type 0) (h k : Heap) (xs : List A)
      → Agree P h k
      → All (V.Within P h) xs
      → All (V.Within P k) xs
  All-stable P h k [] agree w = tt
  All-stable P h k (x ∷ xs) agree (v, w) = (V.stable P h k x agree v, All-stable P h k xs agree w)

  pub map-tree :
      (P : Address → Type 0) (h k : Heap) (xs : List A)
      → Agree P h k
      → All (V.Within P h) xs
      → map (V.tree k) xs ≡ map (V.tree h) xs
  map-tree P h k [] agree w = refl
  map-tree P h k (x ∷ xs) agree (v, w) =
      ap₂ (λ t ts. t ∷ ts) (V.local P h k x agree v) (map-tree P h k xs agree w)

  -- The elements of a slice.
  abbrev pub each_view : View (List A) (List T)
  each_view = record {
    Within = λ P h xs. All (V.Within P h) xs;
    tree = λ h xs. map (V.tree h) xs;
    local = map-tree;
    stable = All-stable;
    weaken = All-weaken;
  }

  pub copy_each-Copies :
      (f : A → Heap → A × Heap)
      → ((x : A) → Copies V f x)
      → (xs : List A) → Copies each_view (copy_each f) xs
  unfolding copy_each
  copy_each-Copies f c [] = record {
    grows = λ h. ground arith;
    keeps = λ h a p. refl;
    fresh = λ h. tt;
    same = λ h w. refl;
  }
  copy_each-Copies f c (x ∷ xs) =
      let both =
        copy_both-Copies V each_view f (copy_each f) x xs (c x) (copy_each-Copies f c xs) in
      record {
        grows = both.grows;
        keeps = both.keeps;
        fresh = both.fresh;
        same = λ h w. ap (λ p. p.0 ∷ p.1) (both.same h w);
      }

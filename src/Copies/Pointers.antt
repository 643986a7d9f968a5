-- ===== src/Copies/Pointers.antt =====
-- Deep copies behind a pointer: what `new` and `make` return is a new address.
use crypt_controller.Base.{
  suc, ◌≡◌, refl, sym, ap, ◌∙◌, subst, Option, none, some, arith, ==_refl, nat_eq,
}
use crypt_controller.Copies.{Address, Pointer, Heap, Field, alloc, copy_pointer}
use crypt_controller.Copies.Contract.{Agree, Below, Between, View, Copies}

-- What stands at an address after an allocation.
module _ {A : Type 0} (F : Field A) (x : A) (h : Heap) where
  pub alloc_keeps : Agree (Below h.next) h (alloc F x h).1
  alloc_keeps a p = ground arith

  pub alloc_reads : F.read ((alloc F x h).1.cell h.next) ≡ x
  alloc_reads = rw (==_refl h.next) (F.read-write x (h.cell h.next))

module _ {A T : Type 0} (F : Field A) (V : View A T) where
  abbrev pub WithinPointer : (Address → Type 0) → Heap → Pointer → Type 0
  WithinPointer P h none = Unit
  WithinPointer P h (some a) = P a × V.Within P h (F.read (h.cell a))

  abbrev pub tree_at : Heap → Pointer → Option T
  tree_at h none = none
  tree_at h (some a) = some (V.tree h (F.read (h.cell a)))

  pub tree_at_local :
      (P : Address → Type 0) (h k : Heap) (p : Pointer)
      → Agree P h k
      → WithinPointer P h p
      → tree_at k p ≡ tree_at h p
  tree_at_local P h k none agree w = refl
  tree_at_local P h k (some a) agree w =
      ap some
        (ap (λ c. V.tree k (F.read c)) (agree a w.0) ∙ V.local P h k (F.read (h.cell a)) agree w.1)

  pub WithinPointer-stable :
      (P : Address → Type 0) (h k : Heap) (p : Pointer)
      → Agree P h k
      → WithinPointer P h p
      → WithinPointer P k p
  WithinPointer-stable P h k none agree w = tt
  WithinPointer-stable P h k (some a) agree w = (
    w.0,
    subst (λ c. V.Within P k (F.read c)) (sym (agree a w.0))
        (V.stable P h k (F.read (h.cell a)) agree w.1),
  )

  pub WithinPointer-weaken :
      (P Q : Address → Type 0) (h : Heap) (p : Pointer)
      → ((a : Address) → P a → Q a)
      → WithinPointer P h p
      → WithinPointer Q h p
  WithinPointer-weaken P Q h none i w = tt
  WithinPointer-weaken P Q h (some a) i w = (i a w.0, V.weaken P Q h (F.read (h.cell a)) i w.1)

  -- What a pointer leads to.
  abbrev pub pointer_view : View Pointer (Option T)
  pointer_view = record {
    Within = WithinPointer;
    tree = tree_at;
    local = tree_at_local;
    stable = WithinPointer-stable;
    weaken = WithinPointer-weaken;
  }

  module _ (f : A → Heap → A × Heap) (c : (x : A) → Copies V f x) where
    fresh_at :
        (x : A) (h : Heap)
        → V.Within (Between h.next (suc (f x h).1.next)) (alloc F (f x h).0 (f x h).1).1 (f x h).0
    fresh_at x h =
        V.weaken _ _ _ _ (λ a q. ground (arith, q))
          (V.stable _ (f x h).1 _ _ (λ a q. alloc_keeps F (f x h).0 (f x h).1 a (ground (arith, q)))
            ((c x).fresh h))

    pub copy_pointer-Copies : (p : Pointer) → Copies pointer_view (copy_pointer F f) p
    unfolding copy_pointer
    copy_pointer-Copies none = record {
      grows = λ h. ground arith;
      keeps = λ h a p. refl;
      fresh = λ h. tt;
      same = λ h w. refl;
    }
    copy_pointer-Copies (some a) = record {
      grows = λ h. ground (arith, (c (F.read (h.cell a))).grows h);
      keeps = λ h b q.
          let x = F.read (h.cell a) in
          alloc_keeps F (f x h).0 (f x h).1 b (ground (arith, q, (c x).grows h))
          ∙ (c x).keeps h b q;
      fresh = λ h.
          let x = F.read (h.cell a) in
          (
            ground (arith, (c x).grows h),
            subst
                (λ y.
                  V.Within (Between h.next (suc (f x h).1.next)) (alloc F (f x h).0 (f x h).1).1 y)
                (sym (alloc_reads F (f x h).0 (f x h).1)) (fresh_at x h),
          );
      same = λ h w.
          let x = F.read (h.cell a) in
          ap some (
            ap (λ y. V.tree (alloc F (f x h).0 (f x h).1).1 y) (alloc_reads F (f x h).0 (f x h).1)
            ∙ V.local _ (f x h).1 _ _
                (λ b q. alloc_keeps F (f x h).0 (f x h).1 b (ground (arith, q))) ((c x).fresh h)
            ∙ (c x).same h w.1);
    }

-- ===== src/Controller/Threads/Exclusive.antt =====
-- Which keys the workers of controller/controller.go hold at the same time.
use crypt_controller.Base.{
  ℕ, String, Bool, true, false, ◌≡◌, refl, ◌∙◌, some, List, arith, ==_iff, string_eq, get_elem?,
  set, nat_eq, subst,
}
use crypt_controller.Any.{text}
use crypt_controller.Controller.{Env, Controller, World}
use crypt_controller.Controller.Start.Notices.{notify_after}
use crypt_controller.Controller.Threads.{
  Thread, advance, System, running, running_inj, launch, Step, work, tell, meddle, pass, Reach,
  here, next,
}
use crypt_controller.Controller.Threads.Keys.{
  held_key, key_at, key_at_self, key_at-set, replicate-idle, IsExclusive, Effect, keeps, takes,
  frees, advance-Effect,
}

module _ (E : Env) (Passes : E.workqueue.State → E.workqueue.State → Type 0)
    (processing : E.workqueue.State → String → Bool) (X : IsExclusive E Passes processing) where
  -- The keys that the workers hold are being processed, and no two workers hold one key.
  pub record IsDisjoint (ts : List Thread) (q : E.workqueue.State) : Type 0 where
    pub owned : (i : ℕ) (k : String) → key_at ts i ≡ some k → processing q k ≡ true
    pub one_holder : (i j : ℕ) (k : String) → key_at ts i ≡ some k → key_at ts j ≡ some k → i ≡ j

  -- A change of the queue alone, under which the same keys are processed.
  IsDisjoint-queue :
      (ts : List Thread) (q q' : E.workqueue.State)
      → ((j : String) → processing q' j ≡ processing q j)
      → IsDisjoint ts q
      → IsDisjoint ts q'
  IsDisjoint-queue ts q q' same v = record {
    owned = λ i k h. same k ∙ v.owned i k h;
    one_holder = v.one_holder;
  }

  module _ (ts : List Thread) (i : ℕ) (t u : Thread) (q q' : E.workqueue.State)
      (there : get_elem? ts i ≡ some t) (v : IsDisjoint ts q) where
    IsDisjoint-Effect :
        Effect (held_key t) (held_key u) (processing q) (processing q') → IsDisjoint (set ts i u) q'
    IsDisjoint-Effect (keeps same p) = record {
      owned = λ j k h.
          p k
          ∙ v.owned j k
              (ground (arith, h, same, key_at-set ts i j t u there, key_at_self ts i t there));
      one_holder = λ j j' k h h'.
          v.one_holder j j' k
            (ground (arith, h, same, key_at-set ts i j t u there, key_at_self ts i t there))
            (ground (arith, h', same, key_at-set ts i j' t u there, key_at_self ts i t there));
    }
    IsDisjoint-Effect (takes key free now fresh p) = record {
      owned = λ j k h.
          ground (arith, h, now, p k, key_at-set ts i j t u there, ==_iff k key, v.owned j k);
      one_holder = λ j j' k h h'. ground (
        arith,
        h,
        h',
        now,
        fresh,
        key_at-set ts i j t u there,
        key_at-set ts i j' t u there,
        v.owned j k,
        v.owned j' k,
        v.one_holder j j' k,
      );
    }
    IsDisjoint-Effect (frees key had now p) = record {
      owned = λ j k h. ground (
        arith,
        h,
        had,
        now,
        p k,
        key_at-set ts i j t u there,
        key_at_self ts i t there,
        ==_iff k key,
        v.owned j k,
        v.one_holder i j k,
      );
      one_holder = λ j j' k h h'. ground (
        arith,
        h,
        h',
        now,
        key_at-set ts i j t u there,
        key_at-set ts i j' t u there,
        v.one_holder j j' k,
      );
    }

  module _ (Sees : Controller → Type 0) (Others : E.secrets.State → E.secrets.State → Type 0) where
    abbrev Disjoint : System E → Type 0
    Disjoint s = IsDisjoint s.threads s.world.queue

    Step-IsDisjoint : {s s' : System E} → Step E Sees Others Passes s s' → Disjoint s → Disjoint s'
    Step-IsDisjoint {s} (work i t C seen there) v =
        IsDisjoint-Effect s.threads i t (advance E C t s.world).0 s.world.queue
          (advance E C t s.world).1.queue there v (advance-Effect E Passes processing X C t s.world)
    Step-IsDisjoint {s} (tell C n w seen e) v =
        IsDisjoint-queue s.threads s.world.queue w.queue
          (notify_after E (λ w'. (j : String) → processing w'.queue j ≡ processing s.world.queue j)
            (λ r w' h. h) (λ key w' h j. X.add_keeps w'.queue (text key) j ∙ h j) C n s.world w
            (λ j. refl) e)
          v
    Step-IsDisjoint (meddle k o) v = v
    Step-IsDisjoint {s} (pass q o) v =
        IsDisjoint-queue s.threads s.world.queue q (λ j. X.pass_keeps s.world.queue q j o) v

    Reach-Disjoint : {s s' : System E} → Disjoint s → Reach E Sees Others Passes s s' → Disjoint s'
    Reach-Disjoint v here = v
    Reach-Disjoint v (next r step) = Step-IsDisjoint step (Reach-Disjoint v r)

    launch-Disjoint :
        (workers : ℕ) (synced : Bool) (w : World E) (s : System E)
        → launch E workers synced w ≡ running s
        → Disjoint s
    unfolding launch
    launch-Disjoint workers false w s e = cc
    launch-Disjoint workers true w s e = subst Disjoint (running_inj E e) (record {
      owned = λ i k h. absurd (ground (arith, h, replicate-idle workers i));
      one_holder = λ i j k h h'. absurd (ground (arith, h, replicate-idle workers i));
    })

    -- From where `Run` has started any number of workers, however the workers, the handlers, the passing
    -- of time and other clients of the cluster are interleaved, no two workers ever hold the same key,
    -- if the queue gives out a key only while it is not being processed.
    pub Reach-exclusive :
        (workers : ℕ) (synced : Bool) (w : World E) (s s' : System E) (i j : ℕ) (k : String)
        → launch E workers synced w ≡ running s
        → Reach E Sees Others Passes s s'
        → key_at s'.threads i ≡ some k
        → key_at s'.threads j ≡ some k
        → i ≡ j
    Reach-exclusive workers synced w s s' i j k start r =
        (Reach-Disjoint (launch-Disjoint workers synced w s start) r).one_holder i j k

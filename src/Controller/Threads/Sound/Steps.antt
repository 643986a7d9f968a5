-- ===== src/Controller/Threads/Sound/Steps.antt =====
-- The secrets of the cluster through the steps of the system of controller/controller.go.
use crypt_controller.Base.{
  ℕ, zero, suc, replicate, true, false, String, Bool, ◌≡◌, sym, subst, ◌∙◌, ap, some, [], ◌∷◌, inl,
  inr, ◌⊎◌, All, All-set, All-get_elem?,
}
use crypt_controller.Base.Outcome.{ok, Result-cases, returned}
use crypt_controller.Kube.{Secret}
use crypt_controller.Api.{Crypt}
use crypt_controller.Store.{Object, get_data}
use crypt_controller.Lister.{get_in}
use crypt_controller.Controller.{Env, Controller, World}
use crypt_controller.Controller.Secrets.{create_secret, new_secret}
use crypt_controller.Controller.Secrets.Requests.{IsFaithful}
use crypt_controller.Controller.Sync.Targets.{is_target}
use crypt_controller.Controller.Sync.Effect.{held-log_failure}
use crypt_controller.Controller.Start.Notices.{notify_after}
use crypt_controller.Controller.Threads.{
  Task, Thread, idle, syncing, ended, crashed, advance, System, launch, running, running_inj, Step,
  work, tell, meddle, pass, Reach, here, next,
}
use crypt_controller.Controller.Threads.Sound.{
  IsHonest, IsAsked, IsTask, IsBusyWith, IsAccounted, Fine, take-Fine, put_secret_cases,
}

module _ (E : Env) (F : IsFaithful E.secrets) (H : IsHonest E.secrets) (Sees : Controller → Type 0)
    (Given : String → String → Secret → Type 0) where
  abbrev pub Accounted : World E → Type 1
  Accounted w = IsAccounted E Sees Given w.cluster

  -- `source`: the controller at the time of the request; `C`: when the Crypt was read.
  module _ (C source : Controller) (seen : Sees C) (source_seen : Sees source) (at name : String)
      (crypt : Crypt) (cached : get_in E.errors C.crypt_lister at name ≡ returned (ok crypt))
      (task : Task) (t : IsTask E Sees C crypt task) where
    asked :
        (obj : Object) (ns n : String) (s : Secret)
        → source.store.get task.sec.key ≡ ok obj
        → ns ≡ task.target
        → task.sec.name ≡ n
        → s ≡ new_secret E (get_data obj) task.sec crypt task.target
        → IsAsked E Sees ns n s
    asked obj ns n s found e named made = record {
      cache = C;
      cache_seen = seen;
      at = at;
      name = name;
      crypt = crypt;
      cached = cached;
      sec = task.sec;
      defined = t.0;
      named = named;
      targeted = ap (λ a. is_target E C crypt.spec.namespaces a) e ∙ t.1;
      source = source;
      source_seen = source_seen;
      obj = obj;
      found = found;
      made = made ∙ ap (λ a. new_secret E (get_data obj) task.sec crypt a) (sym e);
    }

    create_secret-Accounted :
        (w : World E)
        → Accounted w
        → Accounted (create_secret E source task.sec crypt task.target w).1
    unfolding create_secret new_secret
    create_secret-Accounted w a = elim (Result-cases (source.store.get task.sec.key)) [
      | inr (e, failed) ↦ rw (failed, create_secret) a
      | inl (obj, got) ↦
          rw (got, create_secret)
            (λ ns n s h.
              elim (put_secret_cases E F H task.target
                (new_secret E (get_data obj) task.sec crypt task.target) w.cluster ns n s h) [
                  | inl old ↦ a ns n s old
                  | inr (e, named, made) ↦ inl (asked obj ns n s got e named made)
                ])
    ]

  advance-Fine :
      (C : Controller) (t : Thread) (w : World E)
      → Sees C
      → IsBusyWith E Sees t
      → Accounted w
      → Fine E Sees Given (advance E C t w)
  unfolding advance
  advance-Fine C idle w seen b a = take-Fine E Sees Given C seen (E.workqueue.get w.queue) w a
  advance-Fine C (syncing key namespace crypt []) w seen b a = (tt, a)
  advance-Fine C (syncing key namespace crypt (task ∷ rest)) w seen
        (D, D_seen, (name, cached), (t, later)) a =
      (
        (D, D_seen, (name, cached), later),
        λ ns n s h.
            create_secret-Accounted D C D_seen seen namespace name crypt cached task t w a ns n s
              (sym (held-log_failure E C key namespace _ ns n) ∙ h),
      )
  advance-Fine C ended w seen b a = (tt, a)
  advance-Fine C crashed w seen b a = (tt, a)

  module _ (Others : E.secrets.State → E.secrets.State → Type 0)
      (given : (k k' : E.secrets.State) (ns n : String) (s : Secret)
        → Others k k'
        → E.secrets.secret_at k' ns n ≡ some s
        → (E.secrets.secret_at k ns n ≡ some s) ⊎ Given ns n s)
      (Passes : E.workqueue.State → E.workqueue.State → Type 0) where
    -- The workers and the cluster as they should be.
    abbrev pub IsSound : System E → Type 1
    IsSound s = All (IsBusyWith E Sees) s.threads × Accounted s.world

    Step-IsSound : {s s' : System E} → Step E Sees Others Passes s s' → IsSound s → IsSound s'
    Step-IsSound {s} (work i t C seen there) (b, a) =
        let r =
          advance-Fine C t s.world seen (All-get_elem? (IsBusyWith E Sees) s.threads i t b there)
            a in
        (All-set (IsBusyWith E Sees) s.threads i _ b r.0, r.1)
    Step-IsSound {s} (tell C notice w seen told) (b, a) =
        (b, notify_after E Accounted (λ r w' p. p) (λ key w' p. p) C notice s.world w a told)
    Step-IsSound {s} (meddle k o) (b, a) = (
      b,
      λ ns n f h. elim (given s.world.cluster k ns n f o h) [
        | inl old ↦ a ns n f old
        | inr g ↦ inr g
      ],
    )
    Step-IsSound (pass q o) (b, a) = (b, a)

    pub Reach-IsSound : {s s' : System E} → IsSound s → Reach E Sees Others Passes s s' → IsSound s'
    Reach-IsSound v here = v
    Reach-IsSound v (next r step) = Step-IsSound step (Reach-IsSound v r)

    replicate-IsBusyWith : (workers : ℕ) → All (IsBusyWith E Sees) (replicate workers idle)
    replicate-IsBusyWith zero = tt
    replicate-IsBusyWith (suc workers) = (tt, replicate-IsBusyWith workers)

    pub launch-IsSound :
        (workers : ℕ) (synced : Bool) (w : World E) (s : System E)
        → launch E workers synced w ≡ running s
        → Accounted w
        → IsSound s
    unfolding launch
    launch-IsSound workers false w s e a = cc
    launch-IsSound workers true w s e a =
        subst IsSound (running_inj E e) (replicate-IsBusyWith workers, a)

    -- Requests act on the secret that they name and no other, and leave it as it was or as it was sent.
    -- Then from where `Run` has started any number of workers, over a cluster all of whose secrets are
    -- given, however the workers, the handlers, the passing of time and other clients, who put only given
    -- secrets in the cluster, are interleaved, every secret in the cluster is given, or a Crypt asked for
    -- it: one that was in a cache that the controller saw, with a definition of the secret's name and a
    -- pattern that matched the secret's namespace, which was in that cache, and the secret is what
    -- newSecret makes of that definition and a value that a store had for its key.
    pub Reach-IsAsked :
        (workers : ℕ) (synced : Bool) (w : World E) (s s' : System E) (ns n : String) (f : Secret)
        → launch E workers synced w ≡ running s
        → ((ns' n' : String) (g : Secret)
            → E.secrets.secret_at w.cluster ns' n' ≡ some g
            → Given ns' n' g)
        → Reach E Sees Others Passes s s'
        → E.secrets.secret_at s'.world.cluster ns n ≡ some f
        → IsAsked E Sees ns n f ⊎ Given ns n f
    Reach-IsAsked workers synced w s s' ns n f start first r =
        (Reach-IsSound
            (launch-IsSound workers synced w s start (λ ns' n' g h. inr (first ns' n' g h))) r).1
          ns n f

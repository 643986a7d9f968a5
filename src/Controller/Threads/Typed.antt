-- ===== src/Controller/Threads/Typed.antt =====
-- Whether the workers of controller/controller.go crash, where the informers' caches hold Crypts.
use crypt_controller.Base.{
  ℕ, zero, suc, String, Bool, true, false, ◌≡◌, subst, Option, none, some, [], ◌∷◌, inl, inr, All,
  All-set, All-get_elem?, string_eq, replicate,
}
use crypt_controller.Base.Outcome.{Result, ok, err, Result-cases, Outcome, returned, panicked}
use crypt_controller.Api.{Crypt}
use crypt_controller.Any.{Any, text}
use crypt_controller.Controller.{Env, Controller, World}
use crypt_controller.Controller.Start.Typed.{HoldsCrypts, KnowsNotFound, Readable, get_in-Readable}
use crypt_controller.Controller.Threads.{
  Thread, idle, syncing, ended, crashed, begin, begin_key, take, advance, System, running,
  running_inj, launch, Step, work, tell, meddle, pass, Reach, here, next,
}

-- A worker that has not panicked.
abbrev pub IsUp : Thread → Type 0
IsUp crashed = ⊥
IsUp _ = Unit

module _ (E : Env) (K : KnowsNotFound E.errors) where
  module _ (C : Controller) (H : HoldsCrypts E.errors C.crypt_lister) where
    begin-IsUp :
        (key namespace : String) (r : Outcome (Result Crypt)) (w : World E)
        → Readable E K r
        → IsUp (begin E C key namespace r w).0
    unfolding begin
    begin-IsUp key namespace panicked w p = p
    begin-IsUp key namespace (returned (ok c)) w p = tt
    begin-IsUp key namespace (returned (err e)) w p = rw p tt

    begin_key-IsUp : (key : String) (w : World E) → IsUp (begin_key E C key w).0
    unfolding begin_key
    begin_key-IsUp key w = elim (Result-cases (E.split_meta_namespace_key key)) [
      | inr (e, bad) ↦ rw (begin_key, bad) tt
      | inl ((ns, name), split) ↦
          rw (begin_key, split) (begin-IsUp key ns _ w (get_in-Readable E K C H ns name))
    ]

    take-IsUp : (r : Option (Any × E.workqueue.State)) (w : World E) → IsUp (take E C r w).0
    unfolding take
    take-IsUp none w = tt
    take-IsUp (some (text key, q)) w = begin_key-IsUp key (record w { queue = q })
    take-IsUp (some (obj, q)) w = tt

    advance-IsUp : (t : Thread) (w : World E) → IsUp t → IsUp (advance E C t w).0
    unfolding advance
    advance-IsUp idle w up = take-IsUp (E.workqueue.get w.queue) w
    advance-IsUp (syncing key ns c []) w up = tt
    advance-IsUp (syncing key ns c (task ∷ rest)) w up = tt
    advance-IsUp ended w up = tt
    advance-IsUp crashed w up = up

  module _ (Sees : Controller → Type 0)
      (typed : (C : Controller) → Sees C → HoldsCrypts E.errors C.crypt_lister)
      (Others : E.secrets.State → E.secrets.State → Type 0)
      (Passes : E.workqueue.State → E.workqueue.State → Type 0) where
    Step-IsUp :
        {s s' : System E}
        → Step E Sees Others Passes s s'
        → All IsUp s.threads
        → All IsUp s'.threads
    Step-IsUp {s} (work i t C seen there) up =
        All-set IsUp s.threads i _ up
          (advance-IsUp C (typed C seen) t s.world (All-get_elem? IsUp s.threads i t up there))
    Step-IsUp (tell C n w seen told) up = up
    Step-IsUp (meddle k o) up = up
    Step-IsUp (pass q o) up = up

    pub Reach-IsUp :
        {s s' : System E}
        → All IsUp s.threads
        → Reach E Sees Others Passes s s'
        → All IsUp s'.threads
    Reach-IsUp up here = up
    Reach-IsUp up (next r step) = Step-IsUp step (Reach-IsUp up r)

    replicate-IsUp : (workers : ℕ) → All IsUp (replicate workers idle)
    replicate-IsUp zero = tt
    replicate-IsUp (suc workers) = (tt, replicate-IsUp workers)

    pub launch-IsUp :
        (workers : ℕ) (synced : Bool) (w : World E) (s : System E)
        → launch E workers synced w ≡ running s
        → All IsUp s.threads
    unfolding launch
    launch-IsUp workers false w s e = cc
    launch-IsUp workers true w s e =
        subst (λ (u : System E). All IsUp u.threads) (running_inj E e) (replicate-IsUp workers)

-- ===== src/Controller/Threads/Settled.antt =====
-- That a sync of controller/controller.go which others interrupt still leaves the secrets there.
use crypt_controller.Base.{
  ℕ, zero, suc, ◌≤◌, String, Bool, true, false, ◌≡◌, refl, sym, ap, subst, some, List, [], ◌∷◌,
  arith, length, get_elem?, ◌==◌, ◌||◌, string_eq, nat_eq, ◌⊎◌, inl, inr, Bool-cases, All,
}
use crypt_controller.Base.Outcome.{ok}
use crypt_controller.Api.{Crypt}
use crypt_controller.Store.{Object}
use crypt_controller.Controller.{Env, Controller, World}
use crypt_controller.Controller.Secrets.Requests.{IsFaithful, Serves}
use crypt_controller.Controller.Start.Notices.{notify_keeps}
use crypt_controller.Controller.Threads.{
  Task, Thread, idle, syncing, advance, System, Step, work, tell, meddle, pass, Reach, here, next,
}
use crypt_controller.Controller.Threads.Turns.{
  worker_after, is_own, counted, own_thread, counted_bound, Reach-IsAfter, turns_of, turns_of-idle,
}
use crypt_controller.Controller.Threads.Lasting.{
  is_about, IsThere, logged, create_secret-IsThere, advance_keeps,
}

module _ (ns n : String) where
  -- Whether one of some tasks is about the secret `n` of `ns`.
  abbrev pub some_about : List Task → Bool
  some_about [] = false
  some_about (task ∷ rest) = is_about ns n task || some_about rest

  -- The tasks after so many.
  abbrev left_of : ℕ → List Task → List Task
  left_of zero tasks = tasks
  left_of (suc m) [] = []
  left_of (suc m) (task ∷ rest) = left_of m rest

  module _ (E : Env) where
    -- Every store that is seen has a value for the tasks about this secret.
    abbrev pub Stocked : (Controller → Type 0) → List Task → Type 1
    Stocked Sees tasks =
        All
          (λ task.
            is_about ns n task ≡ true
            → (C : Controller) → Sees C
            → (obj : Object) × (C.store.get task.sec.key ≡ ok obj))
          tasks

    module _ (F : IsFaithful E.secrets) (v : Serves E ns n) where
      -- A task about the secret is left, or the secret is there.
      abbrev Progress : List Task → E.secrets.State → Type 0
      Progress tasks k = (some_about tasks ≡ true) ⊎ IsThere ns n E k

      advance_gains :
          (Sees : Controller → Type 0) (C : Controller) (key namespace : String) (crypt : Crypt)
          (m : ℕ) (tasks : List Task) (w : World E)
          → Sees C
          → Stocked Sees tasks
          → some_about (left_of m tasks) ≡ true
          → Progress
              (left_of (suc m) tasks)
              (advance E C (worker_after key namespace crypt m tasks) w).1.cluster
      unfolding advance
      advance_gains Sees C key namespace crypt zero [] w seen stocked h = absurd (ground (arith, h))
      advance_gains Sees C key namespace crypt (suc m) [] w seen stocked h =
          absurd (ground (arith, h))
      advance_gains Sees C key namespace crypt zero (task ∷ rest) w seen stocked h =
          elim (Bool-cases (is_about ns n task)) [
            | inr other ↦ inl (ground (arith, h, other))
            | inl about ↦
                let (obj, got) = stocked.0 about C seen in
                inr (
                  logged ns n E F v C key namespace _
                    (create_secret-IsThere ns n E F v C crypt task obj w about got))
          ]
      advance_gains Sees C key namespace crypt (suc m) (task ∷ rest) w seen stocked h =
          advance_gains Sees C key namespace crypt m rest w seen stocked.1 h

      module _ (Sees : Controller → Type 0) (Others : E.secrets.State → E.secrets.State → Type 0)
          (lasts : (k k' : E.secrets.State) → Others k k' → IsThere ns n E k → IsThere ns n E k')
          (Passes : E.workqueue.State → E.workqueue.State → Type 0) (i : ℕ) (key namespace : String)
          (crypt : Crypt) (tasks : List Task) (stocked : Stocked Sees tasks) where
        work-Progress :
            (s : System E) (j : ℕ) (t : Thread) (C : Controller) (m : ℕ)
            → Sees C
            → get_elem? s.threads j ≡ some t
            → get_elem? s.threads i ≡ some (worker_after key namespace crypt m tasks)
            → Progress (left_of m tasks) s.world.cluster
            → Progress (left_of (counted (i == j) m) tasks) (advance E C t s.world).1.cluster
        work-Progress s j t C m seen at_j at_i (inr there) =
            inr (advance_keeps ns n E F v C t s.world there)
        work-Progress s j t C m seen at_j at_i (inl h) = elim (Bool-cases (i == j)) [
          | inr other ↦ rw other (inl h)
          | inl same ↦ rw same (
              subst (λ u. Progress (left_of (suc m) tasks) (advance E C u s.world).1.cluster)
                (own_thread i j key namespace crypt m tasks s.threads t same at_j at_i)
                (advance_gains Sees C key namespace crypt m tasks s.world seen stocked h))
        ]

        Step-Progress :
            {s s' : System E} (m : ℕ) (step : Step E Sees Others Passes s s')
            → get_elem? s.threads i ≡ some (worker_after key namespace crypt m tasks)
            → Progress (left_of m tasks) s.world.cluster
            → Progress
                (left_of (counted (is_own E Sees Others Passes i step) m) tasks)
                s'.world.cluster
        Step-Progress {s} m (work j t C seen there) a p = work-Progress s j t C m seen there a p
        Step-Progress m (tell C notice w seen told) a (inl h) = inl h
        Step-Progress {s} m (tell C notice w seen told) a (inr there) =
            inr (subst (IsThere ns n E) (sym (notify_keeps E C notice s.world w told).0) there)
        Step-Progress m (meddle k o) a (inl h) = inl h
        Step-Progress {s} m (meddle k o) a (inr there) = inr (lasts s.world.cluster k o there)
        Step-Progress m (pass q o) a p = p

        Reach-Progress :
            {s s' : System E} (r : Reach E Sees Others Passes s s')
            → turns_of E Sees Others Passes i r ≤ suc (length tasks)
            → get_elem? s.threads i ≡ some (syncing key namespace crypt tasks)
            → some_about tasks ≡ true
            → Progress (left_of (turns_of E Sees Others Passes i r) tasks) s'.world.cluster
        Reach-Progress here h a about = inl about
        Reach-Progress (next r step) h a about =
            let before =
              counted_bound (is_own E Sees Others Passes i step) (turns_of E Sees Others Passes i r)
                _ h in
            Step-Progress (turns_of E Sees Others Passes i r) step
              (Reach-IsAfter E Sees Others Passes i key namespace crypt tasks r before a)
              (Reach-Progress r before a about)

        -- Requests act on the secret that they name and no other, and those about the secret `n` of
        -- `ns` are served; every store that is seen has a value for the worker's tasks about that
        -- secret; and other clients do not delete it. A worker that has a task about it is idle, and the
        -- secret is there, once the worker has made one step of its own more than it has tasks, whatever
        -- other workers, the handlers, time and other clients do in between.
        pub turns_of-IsThere :
            (s s' : System E) (r : Reach E Sees Others Passes s s')
            → get_elem? s.threads i ≡ some (syncing key namespace crypt tasks)
            → some_about tasks ≡ true
            → turns_of E Sees Others Passes i r ≡ suc (length tasks)
            → (get_elem? s'.threads i ≡ some idle) × IsThere ns n E s'.world.cluster
        turns_of-IsThere s s' r at_first about turns = (
          turns_of-idle E Sees Others Passes i key namespace crypt tasks s s' r at_first turns,
          done_lem (
              subst (λ m. Progress (left_of m tasks) s'.world.cluster) turns
                (Reach-Progress r (omega (arith, turns)) at_first about)),
        )
          where
            none_left : (ts : List Task) → left_of (suc (length ts)) ts ≡ []
            none_left [] = refl
            none_left (task ∷ rest) = none_left rest

            done_lem :
                Progress (left_of (suc (length tasks)) tasks) s'.world.cluster
                → IsThere ns n E s'.world.cluster
            done_lem (inr there) = there
            done_lem (inl h) = absurd (ground (arith, ap some_about (none_left tasks), h))

-- ===== src/Controller/Worker/Rounds.antt =====
-- What one round of a worker does to the work queue, and when a worker ends (`processNextWorkItem`
-- and `runWorker` of controller/controller.go).
use crypt_controller.Base.{
  ℕ, ◌≤◌, ◌<◌, String, Bool, true, false, ◌≡◌, refl, ap, Option, none, some, List, [], ◌∷◌, arith,
  length, if◌then◌else◌, inl, inr, ◌⊎◌, Option-cases,
}
use crypt_controller.Base.Outcome.{Outcome, returned, panicked}
use crypt_controller.Any.{Any, text, as_text}
use crypt_controller.Controller.{Env, Controller, World}
use crypt_controller.Controller.Sync.{sync_handler}
use crypt_controller.Controller.Sync.Returns.{read, breaks, sync_handler-returns}
use crypt_controller.Controller.Worker.{
  finish, process, process_next_work_item, next_round, run_worker,
}

module _ (E : Env) where
  module _ (C : Controller) where
    -- Whether the sync of an item panics.
    abbrev pub item_breaks : Any → Bool
    item_breaks obj = elim (as_text obj) [ none ↦ false | some key ↦ breaks E C (read E C key) ]

    -- What becomes of the queue `q` from which an item was taken.
    abbrev pub settled : Any → E.workqueue.State → E.workqueue.State
    settled obj q = E.workqueue.done obj (if item_breaks obj then q else E.workqueue.forget obj q)

    finish_settles :
        (key : String) (w : World E)
        → ((finish E key (sync_handler E C key w)).0
            ≡ (if breaks E C (read E C key) then panicked else returned true))
          × ((finish E key (sync_handler E C key w)).1.queue ≡ settled (text key) w.queue)
    unfolding finish
    finish_settles key w = ground (arith, sync_handler-returns E C key w)

    process_settles :
        (obj : Any) (w : World E)
        → ((process E C obj w).0 ≡ (if item_breaks obj then panicked else returned true))
          × ((process E C obj w).1.queue ≡ settled obj w.queue)
    unfolding process
    process_settles (text key) w = finish_settles key w
    process_settles _ w = (refl, refl)

    -- A round that takes an item from the queue marks it done, also when it panics, and never adds it
    -- again. If reading the Crypt from the cache breaks, the round panics; else it forgets the item,
    -- whether or not its secrets could be created, and the worker goes on.
    pub process_next_work_item-settled :
        (w : World E) (obj : Any) (q : E.workqueue.State)
        → E.workqueue.get w.queue ≡ some (obj, q)
        → ((process_next_work_item E C w).0 ≡ (if item_breaks obj then panicked else returned true))
          × ((process_next_work_item E C w).1.queue ≡ settled obj q)
    unfolding process_next_work_item
    process_next_work_item-settled w obj q taken =
        rw (taken, process_next_work_item) (process_settles obj (record w { queue = q }))

  -- A queue that is shutting down: what can still be taken from it falls with each item taken, and
  -- marking an item done or forgetting it adds nothing.
  pub record Drains (size : E.workqueue.State → ℕ) : Type 0 where
    pub size-get :
        (q q' : E.workqueue.State) (x : Any) → E.workqueue.get q ≡ some (x, q') → size q' < size q
    pub size-done : (x : Any) (q : E.workqueue.State) → size (E.workqueue.done x q) ≤ size q
    pub size-forget : (x : Any) (q : E.workqueue.State) → size (E.workqueue.forget x q) ≤ size q

  module _ (size : E.workqueue.State → ℕ) (D : Drains size) where
    size-settled :
        (C : Controller) (obj : Any) (q : E.workqueue.State) → size (settled C obj q) ≤ size q
    size-settled C obj q =
        ground (
          arith,
          D.size-done obj q,
          D.size-done obj (E.workqueue.forget obj q),
          D.size-forget obj q,
        )

    -- The worker has returned or panicked, and in the first case nothing can be taken from the queue.
    abbrev pub Ended : Option (Outcome (Unit {0})) × World E → Type 0
    Ended r =
        (o : Outcome (Unit {0})) × (r.0 ≡ some o)
        × ((o ≡ panicked) ⊎ (E.workqueue.get r.1.queue ≡ none))

    next_round-Ended :
        (later : World E → Option (Outcome (Unit {0})) × World E) (r : Outcome Bool × World E)
        → (r.0 ≡ returned true → Ended (later r.1))
        → (r.0 ≡ returned false → E.workqueue.get r.1.queue ≡ none)
        → Ended (next_round E later r)
    unfolding next_round
    next_round-Ended later (panicked, w) goes stops = (panicked, refl, inl refl)
    next_round-Ended later (returned false, w) goes stops = (returned tt, refl, inr (stops refl))
    next_round-Ended later (returned true, w) goes stops = goes refl

    shut_down_round :
        (C : Controller) (w : World E)
        → E.workqueue.get w.queue ≡ none
        → process_next_work_item E C w ≡ (returned false, w)
    unfolding process_next_work_item
    shut_down_round C w e = rw (e, process_next_work_item)

    -- On a queue that is shutting down a worker ends, within one round more than the queue has items,
    -- whatever the caches and the store hold at each round; and if it ends without a panic, the queue
    -- has nothing left to take.
    pub run_worker_ends :
        (rounds : List Controller) (w : World E)
        → size w.queue < length rounds
        → (o : Outcome (Unit {0})) × ((run_worker E rounds w).0 ≡ some o)
          × ((o ≡ panicked) ⊎ (E.workqueue.get (run_worker E rounds w).1.queue ≡ none))
    unfolding run_worker
    run_worker_ends [] w h = absurd (omega arith)
    run_worker_ends (C ∷ rounds) w h = elim (Option-cases (E.workqueue.get w.queue)) [
      | inl e ↦
          rw (shut_down_round C w e)
            (next_round-Ended (run_worker E rounds) (returned false, w) (λ x. cc) (λ _. e))
      | inr ((obj, q), e) ↦
          let r = process_next_work_item-settled C w obj q e in
          next_round-Ended (run_worker E rounds) (process_next_work_item E C w)
            (λ _.
              run_worker_ends rounds _
                (omega (arith, D.size-get w.queue q obj e, size-settled C obj q, ap size r.1)))
            (λ x. absurd (ground (arith, r.0, x)))
    ]

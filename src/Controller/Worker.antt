-- ===== src/Controller/Worker.antt =====
-- controller/controller.go: `enqueueCrypt`, `processNextWorkItem` and `runWorker`.
pub mod Rounds
use crypt_controller.Base.{String, Bool, true, false, Option, none, some, List, [], ◌∷◌}
use crypt_controller.Base.Outcome.{Error, ok, err, Outcome, returned, panicked}
use crypt_controller.Any.{Any, text, as_text}
use crypt_controller.Controller.{Env, Controller, World, no_key, expected_string, error_syncing}
use crypt_controller.Controller.Secrets.{report}
use crypt_controller.Controller.Sync.{sync_handler}

module _ (E : Env) where
  unfoldable pub enqueue_crypt : Any → World E → World E
  enqueue_crypt obj w = elim (E.meta_namespace_key obj) [
    | err e ↦ report (no_key e) w
    | ok key ↦ record w { queue = E.workqueue.add_rate_limited (text key) w.queue }
  ]

  abbrev pub forget : Any → World E → World E
  forget obj w = record w { queue = E.workqueue.forget obj w.queue }

  abbrev pub done : Any → World E → World E
  done obj w = record w { queue = E.workqueue.done obj w.queue }

  -- After `syncHandler`: the deferred `Done` runs last, also when the call panics; the error is
  -- handed to `HandleError` after it.
  unfoldable pub finish : String → Outcome (Option Error) × World E → Outcome Bool × World E
  finish key (panicked, w) = (panicked, done (text key) w)
  finish key (returned none, w) = (returned true, done (text key) (forget (text key) w))
  finish key (returned (some e), w) = (
    returned true,
    report (error_syncing key e)
        (done (text key) (record w { queue = E.workqueue.add_rate_limited (text key) w.queue })),
  )

  module _ (C : Controller) where
    -- The function literal of `processNextWorkItem`, with the handling of its error.
    unfoldable pub process : Any → World E → Outcome Bool × World E
    unfolding finish
    process obj w = elim (as_text obj) [
      | none ↦ (returned true, done obj (report (expected_string obj) (forget obj w)))
      | some key ↦ finish key (sync_handler E C key w)
    ]

    unfoldable pub process_next_work_item : World E → Outcome Bool × World E
    unfolding process
    process_next_work_item w = elim (E.workqueue.get w.queue) [
      | none ↦ (returned false, w)
      | some (obj, q) ↦ process obj (record w { queue = q })
    ]

  -- What one round of `for c.processNextWorkItem() { }` leaves to do, given the later rounds.
  next_round :
      (World E → Option (Outcome (Unit {0})) × World E)
      → Outcome Bool × World E
      → Option (Outcome (Unit {0})) × World E
  next_round later (panicked, w) = (some panicked, w)
  next_round later (returned false, w) = (some (returned tt), w)
  next_round later (returned true, w) = later w

  -- `runWorker`, over the caches and the store as they are at its rounds. Where the list ends before
  -- the loop does, the result is `none` and the world that was reached.
  unfoldable pub run_worker : List Controller → World E → Option (Outcome (Unit {0})) × World E
  unfolding next_round
  run_worker [] w = (none, w)
  run_worker (C ∷ rounds) w = next_round (run_worker rounds) (process_next_work_item C w)

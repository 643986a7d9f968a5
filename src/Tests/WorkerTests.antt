-- ===== src/Tests/WorkerTests.antt =====
-- Rounds of a worker on a queue that is shutting down.
use crypt_controller.Base.{◌≡◌, ◌⊎◌, Option, none, some, refl, List, [], ◌∷◌, true, arith, length}
use crypt_controller.Base.Outcome.{Outcome, returned, panicked}
use crypt_controller.Any.{Any, text, other}
use crypt_controller.Lister.{get_in}
use crypt_controller.Controller.{World}
use crypt_controller.Controller.Worker.{process_next_work_item, run_worker}
use crypt_controller.Controller.Worker.Rounds.{process_next_work_item-settled, run_worker_ends}
use crypt_controller.Tests.Cluster.{env, env-Drains, Items}
use crypt_controller.Tests.Fixture.{test_controller, test_key, world_of}

-- A key, and an item that is no text.
abbrev two_items : List Any
two_items = text test_key ∷ other "int" ∷ []

-- The queue after the first round.
abbrev after_first : Items
after_first = record {
  items = other "int" ∷ [];
  done = text test_key ∷ [];
  forgotten = text test_key ∷ [];
  delayed = [];
}

process_next_work_item-settled_example :
    ((process_next_work_item env test_controller (world_of two_items)).0 ≡ returned true)
    × ((process_next_work_item env test_controller (world_of two_items)).1.queue ≡ after_first)
unfolding get_in
process_next_work_item-settled_example =
    process_next_work_item-settled env test_controller (world_of two_items) (text test_key)
      (world_of (other "int" ∷ [])).queue refl

abbrev three_rounds : Option (Outcome (Unit {0})) × World env
three_rounds =
    run_worker env (test_controller ∷ test_controller ∷ test_controller ∷ []) (world_of two_items)

run_worker_ends_example :
    (o : Outcome (Unit {0})) × (three_rounds.0 ≡ some o)
    × ((o ≡ panicked) ⊎ (env.workqueue.get three_rounds.1.queue ≡ none))
run_worker_ends_example =
    run_worker_ends env (λ q. length q.items) env-Drains
      (test_controller ∷ test_controller ∷ test_controller ∷ []) (world_of two_items) (omega arith)

-- ===== src/Tests/CalmTests.antt =====
-- A process over caches that hold Crypts, which is told to stop.
use crypt_controller.Base.{
  ◌≡◌, refl, Option, none, some, List, [], ◌∷◌, arith, find, select, ◌==◌, ◌&&◌, string_eq, set,
  false,
}
use crypt_controller.Api.{Crypt}
use crypt_controller.Any.{Any, crypt}
use crypt_controller.Lister.Listings.{all_as_crypts}
use crypt_controller.Controller.{Controller}
use crypt_controller.Controller.Start.Typed.{HoldsCrypts}
use crypt_controller.Controller.Threads.{System, idle, work, advance, launch}
use crypt_controller.Main.Process.{
  sigterm, exited, ended, listen, signal, enter_run, caches_waited, hear, interrupt, set as set_up,
  synced, serve, leave, Moves, begun, then_move,
}
use crypt_controller.Main.Calm.{is_panic, Moves-calm}
use crypt_controller.Tests.Cluster.{status_errors, indexer_of, as_objects, found_or_none, join}
use crypt_controller.Tests.Queue.{keys_env}
use crypt_controller.Tests.Fixture.{test_controller, test_crypt}
use crypt_controller.Tests.ThreadTests.{Nobody}
use crypt_controller.Tests.MainTests.{setup, first}

all_as_crypts-as_objects : (cs : List Crypt) → all_as_crypts (as_objects cs) ≡ some cs
all_as_crypts-as_objects [] = refl
all_as_crypts-as_objects (c ∷ cs) = rw (all_as_crypts-as_objects cs) refl

found_is_crypt :
    (o : Option Crypt) (obj : Any) → found_or_none o ≡ some obj → (c : Crypt) × (obj ≡ crypt c)
found_is_crypt none obj e = absurd (ground (arith, e))
found_is_crypt (some c) obj e = (c, ground (arith, e))

indexer_of-HoldsCrypts : (cs : List Crypt) → HoldsCrypts status_errors (indexer_of cs)
indexer_of-HoldsCrypts cs = record {
  read_crypt = λ key obj e. found_is_crypt (find (λ c. join c == key) cs) obj (ground (arith, e));
  read_fails = λ key x e. absurd (ground (arith, e));
  listed_crypts = λ ns sel. (
    select (λ c. c.meta.namespace == ns && sel c.meta.labels) cs,
    all_as_crypts-as_objects (select (λ c. c.meta.namespace == ns && sel c.meta.labels) cs),
  );
}

-- A cache that holds Crypts.
abbrev TypedCache : Controller → Type 0
TypedCache C = HoldsCrypts status_errors C.crypt_lister

test_cache : TypedCache test_controller
test_cache = indexer_of-HoldsCrypts (test_crypt ∷ [])

abbrev three_workers : System keys_env
three_workers = record { threads = idle ∷ idle ∷ idle ∷ []; world = first }

abbrev at_work : System keys_env
at_work = record {
  threads = set three_workers.threads 0 (advance keys_env test_controller idle first).0;
  world = (advance keys_env test_controller idle first).1;
}

-- A worker is stopped in the middle of its work.
stopped : Moves keys_env setup first TypedCache Nobody (λ q q'. q' ≡ q) 1 0 (ended (exited 0))
unfolding listen signal enter_run caches_waited launch
stopped =
    let up =
      then_move (then_move (then_move (then_move begun hear) hear) (set_up refl))
        (synced first refl) in
    let working =
      then_move up
        (serve three_workers at_work refl (work 0 idle test_controller test_cache refl)) in
    then_move (then_move (then_move working (interrupt sigterm)) hear) (leave at_work refl refl)

Moves-calm_example : is_panic (exited 0) ≡ false
Moves-calm_example =
    Moves-calm keys_env (λ r name. refl) TypedCache (λ C h. h) Nobody (λ q q'. q' ≡ q) setup first 1
      0 (exited 0) stopped

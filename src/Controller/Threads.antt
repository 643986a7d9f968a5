-- ===== src/Controller/Threads.antt =====
-- The controller at work: the workers that `Run` of controller/controller.go starts, the handlers that
-- `New` registers, and everyone else, in any order. A worker gives way to the others between any two
-- calls of `createSecret`, the requests of one call being a step; `tasks` are the rounds of the two
-- loops of `syncHandler` that it has still to make.
pub mod Alone
pub mod Keys
pub mod Exclusive
pub mod Frame
pub mod Sound
pub mod Typed
pub mod Turns
pub mod Lasting
pub mod Settled
pub mod Taken
use crypt_controller.Base.{
  ℕ, String, ◌≡◌, Option, none, some, List, [], ◌∷◌, ◌++◌, map, if◌then◌else◌, get_elem?, set, Bool,
  true, false, replicate,
}
use crypt_controller.Base.Outcome.{Error, external, Result, ok, err, Outcome, returned, panicked}
use crypt_controller.Kube.{Secret}
use crypt_controller.Api.{Crypt, SecretDefinition}
use crypt_controller.Any.{Any, text, as_text}
use crypt_controller.Lister.{get_in}
use crypt_controller.Controller.{
  Env, Controller, World, invalid_resource_key, no_longer_exists, expected_string,
}
use crypt_controller.Controller.Secrets.{report, create_secret}
use crypt_controller.Controller.Sync.{log_failure, namespace_matches, record_event}
use crypt_controller.Controller.Worker.{forget, done}
use crypt_controller.Controller.Start.{Notice, notify, stop}

-- One call of `createSecret`: a definition, and the namespace to create it in.
pub record Task : Type 0 where
  pub sec : SecretDefinition
  pub target : String

-- What a worker holds between two steps: nothing, a key with the rest of its sync, or it has ended.
pub data Thread : Type 0 where
  idle : Thread
  syncing : (key namespace : String) → Crypt → List Task → Thread
  ended : Thread
  crashed : Thread

abbrev pub tasks_of : List SecretDefinition → List String → List Task
tasks_of [] matches = []
tasks_of (sec ∷ rest) matches =
    map (λ ns. record { sec = sec; target = ns }) matches ++ tasks_of rest matches

module _ (E : Env) where
  -- The end of a round without an error.
  abbrev pub settle_item : Any → World E → World E
  settle_item obj w = done E obj (forget E obj w)

  module _ (C : Controller) where
    -- A key is taken and the cache is read.
    unfoldable pub begin : String → String → Outcome (Result Crypt) → World E → Thread × World E
    begin key namespace panicked w = (crashed, done E (text key) w)
    begin key namespace (returned (err e)) w =
        if E.errors.is_not_found e
        then (idle, settle_item (text key) (report (no_longer_exists key) w))
        else (crashed, done E (text key) w)
    begin key namespace (returned (ok crypt)) w = (
      syncing key namespace crypt
          (tasks_of crypt.spec.secrets (namespace_matches E C crypt.spec.namespaces)),
      w,
    )

    unfoldable pub begin_key : String → World E → Thread × World E
    begin_key key w = elim (E.split_meta_namespace_key key) [
      | err e ↦ (idle, settle_item (text key) (report (invalid_resource_key key) w))
      | ok (namespace, name) ↦ begin key namespace (get_in E.errors C.crypt_lister namespace name) w
    ]

    unfoldable pub take : Option (Any × E.workqueue.State) → World E → Thread × World E
    take none w = (ended, w)
    take (some (obj, q)) w = elim (as_text obj) [
      | none ↦
          (idle, done E obj (report (expected_string obj) (forget E obj (record w { queue = q }))))
      | some key ↦ begin_key key (record w { queue = q })
    ]

    -- One step of a worker, with the caches and the store as they are now.
    unfoldable pub advance : Thread → World E → Thread × World E
    advance idle w = take (E.workqueue.get w.queue) w
    advance (syncing key namespace crypt []) w =
        (idle, settle_item (text key) (record_event E C crypt w))
    advance (syncing key namespace crypt (task ∷ rest)) w = (
      syncing key namespace crypt rest,
      log_failure E C key namespace (create_secret E C task.sec crypt task.target w),
    )
    advance ended w = (ended, w)
    advance crashed w = (crashed, w)

  pub record System : Type 0 where
    pub threads : List Thread
    pub world : World E

  -- How `Run` starts: it fails, having shut the queue down, or the workers run and it waits for the
  -- stop signal.
  pub data Launch : Type 0 where
    failed : Error → World E → Launch
    running : System → Launch

  pub running_inj : {s t : System} → ◌≡◌ {A = Launch} (running s) (running t) → s ≡ t
  running_inj e = cc

  -- `synced`: whether the caches came to be in sync before the five minutes or the stop signal ended the
  -- wait.
  unfoldable pub launch : (workers : ℕ) (synced : Bool) → World E → Launch
  launch workers false w = failed (external "failed to wait for caches to sync") (stop E w)
  launch workers true w = running (record { threads = replicate workers idle; world = w })

  -- `Sees C`: what the caches, the store and the API server may hold at some moment. `Others k k'`:
  -- another client of the cluster may turn its state `k` into `k'`. `Passes q q'`: with
  -- time, or by a call of `ShutDown`, the queue `q` may become `q'`.
  module _ (Sees : Controller → Type 0) (Others : E.secrets.State → E.secrets.State → Type 0)
      (Passes : E.workqueue.State → E.workqueue.State → Type 0) where
    pub data Step (s : System) : System → Type 1 where
      work :
          (i : ℕ) (t : Thread) (C : Controller)
          → Sees C
          → get_elem? s.threads i ≡ some t
          → Step s (record {
            threads = set s.threads i (advance C t s.world).0;
            world = (advance C t s.world).1;
          })
      tell :
          (C : Controller) (n : Notice) (w : World E)
          → Sees C
          → notify E C n s.world ≡ returned w
          → Step s (record s { world = w })
      meddle :
          (k : E.secrets.State)
          → Others s.world.cluster k
          → Step s (record s { world = record (s.world) { cluster = k } })
      pass :
          (q : E.workqueue.State)
          → Passes s.world.queue q
          → Step s (record s { world = record (s.world) { queue = q } })

    pub data Reach (s : System) : System → Type 1 where
      here : Reach s s
      next : {t u : System} → Reach s t → Step t u → Reach s u

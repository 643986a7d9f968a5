-- ===== src/Tests/MainTests.antt =====
-- The command with small packages, and a process that is told to stop.
use crypt_controller.Base.{
  ℕ, ◌≤◌, ◌+◌, ◌≡◌, refl, none, true, false, [], ◌∷◌, some, inl, ◌⊎◌, arith, Distinct, string_eq,
  subst, length, set as set_at,
}
use crypt_controller.Base.Outcome.{ok}
use crypt_controller.Controller.{World}
use crypt_controller.Controller.Threads.{
  Thread, System, advance, take, begin_key, begin, work, launch, idle,
}
use crypt_controller.Main.{Flags, Packages, Parts, ready, set_up, Attempt}
use crypt_controller.Main.Wired.{IsExplained, set_up-IsExplained}
use crypt_controller.Main.Process.{
  sigterm, sigint, before_second, setting_up, exited, serving, Process, State, alive, ended, listen,
  signal, enter_run, caches_waited, hear, interrupt, set, stop_wait, wait_ended, synced, serve,
  registered, Moves, begun, then_move,
}
use crypt_controller.Main.Endings.{IsDue, Moves-IsSound}
use crypt_controller.Lister.{get_in}
use crypt_controller.Controller.Sync.{namespace_matches, find_namespace_matches}
use crypt_controller.Controller.Threads.Sound.{IsAsked}
use crypt_controller.Main.Safety.{keys_of, Moves-IsAsked}
use crypt_controller.Kube.{Secret}
use crypt_controller.Main.Stopping.{Insists, at_start, step_on, strike, Insists-stops}
use crypt_controller.Tests.ClientTests.{small_library, unlimited, both_clients}
use crypt_controller.Tests.StoreTests.{consul_api, vault_api, no_json}
use crypt_controller.Tests.Queue.{keys_env, is_busy, keys_queue-IsExclusive}
use crypt_controller.Tests.Cluster.{
  secrets_in_memory-IsFaithful as faithful, secrets_in_memory-IsHonest as honest,
}
use crypt_controller.Tests.Fixture.{test_controller}
use crypt_controller.Tests.ThreadTests.{Nobody, AnyCache, two_workers, NothingGiven}

-- An informer is its resync period.
abbrev pub packages : Packages
packages = record {
  library = small_library;
  limiters = 0;
  consul = consul_api;
  unmarshal = no_json;
  vault = vault_api;
  build_config_from_flags = λ master path. ok unlimited;
  KubeClient = ℕ;
  kube_for_config = λ c. ok c.burst;
  Informer = ℕ;
  new_informer = λ client watch period indexers. period;
}

abbrev given : Flags
given = record {
  kube_config = "/root/.kube/config";
  master_url = "";
  store_type = "Consul";
  store_config = "";
}

set_up-IsExplained_example : IsExplained packages given (set_up packages given)
set_up-IsExplained_example = set_up-IsExplained packages given

abbrev small_parts : Parts packages
small_parts = record {
  store = record { get = λ k. ok none };
  kube_client = 10;
  crypt_client = both_clients;
}

abbrev pub setup : Attempt (Parts packages)
setup = ready small_parts

abbrev pub first : World keys_env
first = two_workers.world

abbrev Told : ℕ → ℕ → State keys_env → Type 1
Told = Moves keys_env setup first AnyCache Nobody (λ q q'. q' ≡ q)

-- A signal comes while `Run` waits for the caches.
Told-stop : Told 1 0 (ended (exited 255))
unfolding listen signal enter_run caches_waited launch
Told-stop =
    let waits = then_move (then_move (then_move begun hear) hear) (set refl) in
    let closed = then_move (then_move waits (interrupt sigterm)) hear in
    then_move (then_move closed (stop_wait first refl refl)) (wait_ended first refl refl)

Moves-IsSound_example : IsDue keys_env setup first AnyCache Nobody (λ q q'. q' ≡ q) 1 0 (exited 255)
Moves-IsSound_example =
    Moves-IsSound keys_env setup first AnyCache Nobody (λ q q'. q' ≡ q) 1 0 (ended (exited 255))
      Told-stop

-- One of the three workers has made the secret that it was asked for.
abbrev three_workers : System keys_env
three_workers = record { threads = idle ∷ idle ∷ idle ∷ []; world = first }

abbrev stepped : Thread → System keys_env → System keys_env
stepped t s = record {
  threads = set_at s.threads 0 (advance keys_env test_controller t s.world).0;
  world = (advance keys_env test_controller t s.world).1;
}

abbrev key_taken : System keys_env
key_taken = stepped idle three_workers

abbrev busy : Thread
busy = (advance keys_env test_controller idle first).0

abbrev secret_made : System keys_env
secret_made = stepped busy key_taken

abbrev serving_process : Process keys_env
serving_process = record {
  listener = registered;
  stop_closed = false;
  wait_over = false;
  phase = serving secret_made;
}

Told-serving : Told 0 0 (alive serving_process)
unfolding listen enter_run caches_waited launch advance take begin_key begin get_in
    namespace_matches find_namespace_matches
Told-serving =
    let up = then_move (then_move (then_move begun hear) (set refl)) (synced first refl) in
    then_move
      (then_move up (serve three_workers key_taken refl (work 0 idle test_controller tt refl)))
      (serve key_taken secret_made refl (work 0 busy test_controller tt refl))

Moves-IsAsked_example :
    (length secret_made.threads ≡ 3)
    × Distinct (keys_of secret_made.threads)
    × ((secret_made.world.cluster "test-ns1" "test-foo-secret" ≡ none)
        ⊎ ((f : Secret) × (secret_made.world.cluster "test-ns1" "test-foo-secret" ≡ some f)
            × (IsAsked keys_env AnyCache "test-ns1" "test-foo-secret" f ⊎ ⊥)))
Moves-IsAsked_example =
    Moves-IsAsked keys_env AnyCache Nobody (λ q q'. q' ≡ q) faithful honest is_busy
      keys_queue-IsExclusive NothingGiven
      (λ k k' ns n s o h. inl (subst (λ a. a ns n ≡ some s) o h)) setup first
      (λ ns n s h. absurd (ground (arith, h))) 0 0 serving_process secret_made "test-ns1"
      "test-foo-secret" Told-serving refl

-- The set-up hangs, and signals come: the first before the goroutine is at the receive, the last before
-- it is there again.
abbrev hanging : Process keys_env
hanging = record {
  listener = before_second;
  stop_closed = true;
  wait_over = false;
  phase = setting_up;
}

three_signals :
    Insists keys_env setup first AnyCache Nobody (λ q q'. q' ≡ q) 3 false (alive hanging)
unfolding listen signal
three_signals =
    strike sigint (step_on (strike sigterm (step_on (strike sigterm (step_on at_start)))))

Insists-stops_example : 3 ≤ 2 + 1
Insists-stops_example =
    Insists-stops keys_env setup first AnyCache Nobody (λ q q'. q' ≡ q) 3 false hanging
      three_signals

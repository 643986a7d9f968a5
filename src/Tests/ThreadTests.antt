-- ===== src/Tests/ThreadTests.antt =====
-- Two workers on one queue.
use crypt_controller.Base.{
  ℕ, suc, String, true, ◌≡◌, refl, ap, subst, set, Option, none, some, [], ◌∷◌, ◌⊎◌, inl, arith,
}
use crypt_controller.Kube.{Secret}
use crypt_controller.Any.{text}
use crypt_controller.Lister.{get_in}
use crypt_controller.Controller.{Controller, World}
use crypt_controller.Controller.Worker.{process_next_work_item}
use crypt_controller.Controller.Threads.{
  Thread, idle, System, Step, work, here, next, advance, begin, begin_key, take, launch,
}
use crypt_controller.Controller.Threads.Alone.{steps, thread_after, advance-process_next_work_item}
use crypt_controller.Controller.Threads.Exclusive.{Reach-exclusive}
use crypt_controller.Controller.Threads.Frame.{AsksElsewhere, Reach-untouched}
use crypt_controller.Controller.Threads.Sound.{IsAsked}
use crypt_controller.Controller.Threads.Sound.Steps.{Reach-IsAsked}
use crypt_controller.Controller.Sync.{namespace_matches, find_namespace_matches}
use crypt_controller.Controller.Secrets.{create_secret, put_secret, new_secret}
use crypt_controller.Store.{get_data}
use crypt_controller.Store.Memory as Memory
use crypt_controller.Base.Dict.{lookup}
use crypt_controller.Tests.Cluster.{
  env, secrets_in_memory-IsFaithful as faithful, secrets_in_memory-IsHonest as honest,
}
use crypt_controller.Tests.Queue.{keys_env, is_busy, keys_queue-IsExclusive}
use crypt_controller.Tests.Fixture.{test_controller, test_key, test_crypt, foo_definition, world_of}

abbrev one_item : World env
one_item = world_of (text test_key ∷ [])

advance-process_next_work_item_example :
    (n : ℕ) × (steps env test_controller (suc n) (idle, one_item) ≡ (
      thread_after env test_controller (process_next_work_item env test_controller one_item).0,
      (process_next_work_item env test_controller one_item).1,
    ))
advance-process_next_work_item_example = advance-process_next_work_item env test_controller one_item

-- Two idle workers, and one key.
abbrev pub two_workers : System keys_env
two_workers = record {
  threads = idle ∷ idle ∷ [];
  world = record {
    queue = record { waiting = test_key ∷ []; busy = [] };
    cluster = λ ns n. none;
    events = [];
    reports = [];
  };
}

abbrev pub Nobody : (String → String → Option Secret) → (String → String → Option Secret) → Type 0
Nobody k k' = k' ≡ k

-- The system after the first worker's first step.
abbrev one_took : System keys_env
one_took = record {
  threads = (advance keys_env test_controller idle two_workers.world).0 ∷ idle ∷ [];
  world = (advance keys_env test_controller idle two_workers.world).1;
}

abbrev taken : Thread
taken = (advance keys_env test_controller idle two_workers.world).0

abbrev pub AnyCache : Controller → Type 0
AnyCache C = Unit

first-Step : Step keys_env AnyCache Nobody (λ q q'. q' ≡ q) two_workers one_took
first-Step = work 0 idle test_controller tt refl

Reach-exclusive_example : ◌≡◌ {A = ℕ} 0 0
unfolding advance take begin_key begin get_in launch
Reach-exclusive_example =
    Reach-exclusive keys_env (λ q q'. q' ≡ q) is_busy keys_queue-IsExclusive AnyCache Nobody 2 true
      two_workers.world two_workers one_took 0 0 test_key refl (next here first-Step) refl refl

abbrev OtherCaches : Controller → Type 0
OtherCaches = AsksElsewhere "other" "test-foo-secret" keys_env

elsewhere-Step : Step keys_env OtherCaches Nobody (λ q q'. q' ≡ q) two_workers one_took
elsewhere-Step = work 0 idle test_controller (λ namespace name crypt e. refl) refl

Reach-untouched_example :
    one_took.world.cluster "other" "test-foo-secret"
    ≡ two_workers.world.cluster "other" "test-foo-secret"
Reach-untouched_example =
    Reach-untouched "other" "test-foo-secret" keys_env faithful OtherCaches (λ C asks. asks) Nobody
      (λ k k' e. ap (λ (a : String → String → Option Secret). a "other" "test-foo-secret") e)
      (λ q q'. q' ≡ q) two_workers one_took (tt, (tt, tt)) (next here elsewhere-Step)

-- No secret is given.
abbrev pub NothingGiven : String → String → Secret → Type 0
NothingGiven ns n s = ⊥

-- The system after the first worker's second step, in which it has created a secret.
abbrev one_created : System keys_env
one_created = record {
  threads = set one_took.threads 0 (advance keys_env test_controller taken one_took.world).0;
  world = (advance keys_env test_controller taken one_took.world).1;
}

taken-Step : Step keys_env AnyCache Nobody (λ q q'. q' ≡ q) one_took one_created
taken-Step = work 0 taken test_controller tt refl

Reach-IsAsked_example :
    IsAsked keys_env AnyCache "test-ns1" "test-foo-secret"
      (new_secret keys_env (some (("foo", b'f' ∷ []) ∷ [])) foo_definition test_crypt "test-ns1")
    ⊎ ⊥
unfolding advance take begin_key begin get_in launch create_secret put_secret new_secret get_data
    Memory.get lookup namespace_matches find_namespace_matches
Reach-IsAsked_example =
    Reach-IsAsked keys_env faithful honest AnyCache NothingGiven Nobody
      (λ k k' ns n s o h. inl (subst (λ a. a ns n ≡ some s) o h)) (λ q q'. q' ≡ q) 2 true
      two_workers.world two_workers one_created "test-ns1" "test-foo-secret" _ refl
      (λ ns' n' g h. absurd (ground (arith, h))) (next (next here first-Step) taken-Step) refl

-- ===== src/Tests/Queue.antt =====
-- A work queue that gives out a key only while it is not being processed.
use crypt_controller.Base.{
  String, Bool, false, not, ◌≡◌, refl, ap, ◌&&◌, Option, none, some, List, [], ◌∷◌, ◌++◌, arith,
  contains, ◌==◌, ==_iff, string_eq, if◌then◌else◌,
}
use crypt_controller.Any.{Any, text, as_text}
use crypt_controller.Controller.{WorkQueue, Env}
use crypt_controller.Controller.Threads.Keys.{IsExclusive}
use crypt_controller.Tests.Cluster.{env}

pub record Keys : Type 0 where
  pub waiting : List String
  pub busy : List String

abbrev remove : String → List String → List String
remove k [] = []
remove k (j ∷ js) = let rest = remove k js in if j == k then rest else j ∷ rest

contains-remove :
    (k : String) (js : List String) (j : String)
    → contains (remove k js) j ≡ (not (j == k) && contains js j)
contains-remove k [] j = ground arith
contains-remove k (i ∷ js) j =
    ground (arith, contains-remove k js j, ==_iff i k, ==_iff j i, ==_iff j k)

abbrev give : List String → List String → Option (Any × Keys)
give [] busy = none
give (k ∷ rest) busy =
    if contains busy k then none else some (text k, record { waiting = rest; busy = k ∷ busy })

abbrev free : Option String → Keys → Keys
free none q = q
free (some k) q = record q { busy = remove k q.busy }

abbrev wait : Option String → Keys → Keys
wait none q = q
wait (some k) q = record q { waiting = q.waiting ++ k ∷ [] }

abbrev pub keys_queue : WorkQueue
keys_queue = record {
  State = Keys;
  get = λ q. give q.waiting q.busy;
  done = λ x q. free (as_text x) q;
  forget = λ x q. q;
  add_rate_limited = λ x q. wait (as_text x) q;
  shut_down = λ q. q;
}

abbrev pub keys_env : Env
keys_env = record env { workqueue = keys_queue }

abbrev pub is_busy : Keys → String → Bool
is_busy q k = contains q.busy k

give_cases :
    (waiting busy : List String) (x : Any) (q' : Keys)
    → give waiting busy ≡ some (x, q')
    → (k : String) × (x ≡ text k) × (contains busy k ≡ false) × (q'.busy ≡ k ∷ busy)
give_cases [] busy x q' e = cc
give_cases (k ∷ rest) busy x q' e = (k, ground arith, ground arith, ground arith)

wait_keeps : (o : Option String) (q : Keys) (j : String) → is_busy (wait o q) j ≡ is_busy q j
wait_keeps none q j = refl
wait_keeps (some k) q j = refl

pub keys_queue-IsExclusive : IsExclusive keys_env (λ q q'. q' ≡ q) is_busy
keys_queue-IsExclusive = record {
  get_fresh = λ q q' k e. ground (arith, give_cases q.waiting q.busy (text k) q' e);
  get_marks = λ q q' k j e. ground (arith, give_cases q.waiting q.busy (text k) q' e);
  get_other = λ q q' x j odd e. absurd (ground (arith, odd, give_cases q.waiting q.busy x q' e));
  done_frees = λ q k j. contains-remove k q.busy j;
  done_other = λ q x j odd. rw odd;
  forget_keeps = λ q x j. refl;
  add_keeps = λ q x j. wait_keeps (as_text x) q j;
  pass_keeps = λ q q' j e. ap (λ (p : Keys). is_busy p j) e;
}

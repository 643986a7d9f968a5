-- ===== src/Controller/Threads/Turns.antt =====
-- How many steps of its own a worker of controller/controller.go needs for a sync.
use crypt_controller.Base.{
  ℕ, zero, suc, ◌≤◌, String, Bool, true, false, ◌≡◌, refl, sym, ap, ◌∙◌, some, List, [], ◌∷◌, arith,
  length, get_elem?, set, ◌==◌, ==_iff, nat_eq, inl, inr, Bool-cases, if◌then◌else◌,
}
use mathlib.Core.Option.{some-injective}
use crypt_controller.Api.{Crypt}
use crypt_controller.Controller.{Env, Controller, World}
use crypt_controller.Controller.Threads.{
  Task, Thread, idle, syncing, advance, System, Step, work, tell, meddle, pass, Reach, here, next,
}

pub get_elem?-set :
    (ts : List Thread) (i j : ℕ) (t u : Thread)
    → get_elem? ts i ≡ some t
    → get_elem? (set ts i u) j ≡ (if j == i then some u else get_elem? ts j)
get_elem?-set [] i j t u e = cc
get_elem?-set (x ∷ ts) zero zero t u e = refl
get_elem?-set (x ∷ ts) zero (suc j) t u e = ground arith
get_elem?-set (x ∷ ts) (suc i) zero t u e = ground arith
get_elem?-set (x ∷ ts) (suc i) (suc j) t u e = get_elem?-set ts i j t u e ∙ ground arith

-- A worker that had these tasks, after so many steps of its own.
abbrev pub worker_after : String → String → Crypt → ℕ → List Task → Thread
worker_after key namespace crypt zero tasks = syncing key namespace crypt tasks
worker_after key namespace crypt (suc n) [] = idle
worker_after key namespace crypt (suc n) (task ∷ rest) = worker_after key namespace crypt n rest

-- The worker that makes a step of its own is the one that is where it was.
pub own_thread :
    (i j : ℕ) (key namespace : String) (crypt : Crypt) (n : ℕ) (tasks : List Task)
    (threads : List Thread) (t : Thread)
    → (i == j) ≡ true
    → get_elem? threads j ≡ some t
    → get_elem? threads i ≡ some (worker_after key namespace crypt n tasks)
    → worker_after key namespace crypt n tasks ≡ t
own_thread i j key namespace crypt n tasks threads t same there a =
    some-injective _ _ (sym a ∙ ap (get_elem? threads) ((==_iff i j).0 same) ∙ there)

abbrev pub counted : Bool → ℕ → ℕ
counted true n = suc n
counted false n = n

pub counted_bound : (b : Bool) (n m : ℕ) → counted b n ≤ m → n ≤ m
counted_bound true n m p = omega arith
counted_bound false n m p = p

module _ (E : Env) where
  advance-worker_after :
      (C : Controller) (key namespace : String) (crypt : Crypt) (n : ℕ) (tasks : List Task)
      (w : World E)
      → n ≤ length tasks
      → (advance E C (worker_after key namespace crypt n tasks) w).0
        ≡ worker_after key namespace crypt (suc n) tasks
  unfolding advance
  advance-worker_after C key namespace crypt zero [] w h = refl
  advance-worker_after C key namespace crypt zero (task ∷ rest) w h = refl
  advance-worker_after C key namespace crypt (suc n) [] w h = absurd (omega arith)
  advance-worker_after C key namespace crypt (suc n) (task ∷ rest) w h =
      advance-worker_after C key namespace crypt n rest w (omega arith)

  module _ (Sees : Controller → Type 0) (Others : E.secrets.State → E.secrets.State → Type 0)
      (Passes : E.workqueue.State → E.workqueue.State → Type 0) where
    -- Whether the step is the worker's own.
    abbrev pub is_own : {s s' : System E} → ℕ → Step E Sees Others Passes s s' → Bool
    is_own i (work j t C seen there) = i == j
    is_own i _ = false

    -- How many of the steps are the worker's own.
    abbrev pub turns_of : {s s' : System E} → ℕ → Reach E Sees Others Passes s s' → ℕ
    turns_of i here = 0
    turns_of i (next r step) = counted (is_own i step) (turns_of i r)

    module _ (i : ℕ) (key namespace : String) (crypt : Crypt) (tasks : List Task) where
      abbrev pub IsAfter : ℕ → System E → Type 0
      IsAfter n s = get_elem? s.threads i ≡ some (worker_after key namespace crypt n tasks)

      work-IsAfter :
          (s : System E) (j : ℕ) (t : Thread) (C : Controller) (n : ℕ)
          → get_elem? s.threads j ≡ some t
          → counted (i == j) n ≤ suc (length tasks)
          → IsAfter n s
          → get_elem? (set s.threads j (advance E C t s.world).0) i
            ≡ some (worker_after key namespace crypt (counted (i == j) n) tasks)
      work-IsAfter s j t C n there h a = elim (Bool-cases (i == j)) [
        | inr other ↦ rw other (get_elem?-set s.threads j i t _ there ∙ rw other a)
        | inl same ↦
            let e : t ≡ worker_after key namespace crypt n tasks =
              sym (own_thread i j key namespace crypt n tasks s.threads t same there a) in
            rw same (
              get_elem?-set s.threads j i t _ there
              ∙ rw same (
                  ap some (
                    ap (λ u. (advance E C u s.world).0) e
                    ∙ advance-worker_after C key namespace crypt n tasks s.world
                        (ground (arith, same, h)))))
      ]

      Step-IsAfter :
          {s s' : System E} (n : ℕ) (step : Step E Sees Others Passes s s')
          → counted (is_own i step) n ≤ suc (length tasks)
          → IsAfter n s
          → IsAfter (counted (is_own i step) n) s'
      Step-IsAfter {s} n (work j t C seen there) h a = work-IsAfter s j t C n there h a
      Step-IsAfter n (tell C m w seen told) h a = a
      Step-IsAfter n (meddle k o) h a = a
      Step-IsAfter n (pass q o) h a = a

      pub Reach-IsAfter :
          {s s' : System E} (r : Reach E Sees Others Passes s s')
          → turns_of i r ≤ suc (length tasks)
          → IsAfter 0 s
          → IsAfter (turns_of i r) s'
      Reach-IsAfter here h a = a
      Reach-IsAfter (next r step) h a =
          Step-IsAfter (turns_of i r) step h
            (Reach-IsAfter r (counted_bound (is_own i step) (turns_of i r) _ h) a)

      worker_after_all :
          (ts : List Task) → worker_after key namespace crypt (suc (length ts)) ts ≡ idle
      worker_after_all [] = refl
      worker_after_all (t ∷ ts) = worker_after_all ts

      -- A worker that has still some tasks to do for a key is idle once it has made one step of its own
      -- more than there are tasks, whatever others do in between, and however the requests end.
      pub turns_of-idle :
          (s s' : System E) (r : Reach E Sees Others Passes s s')
          → get_elem? s.threads i ≡ some (syncing key namespace crypt tasks)
          → turns_of i r ≡ suc (length tasks)
          → get_elem? s'.threads i ≡ some idle
      turns_of-idle s s' r at_first turns =
          Reach-IsAfter r (omega (arith, turns)) at_first
          ∙ ap (λ n. some (worker_after key namespace crypt n tasks)) turns
          ∙ ap some (worker_after_all tasks)

-- ===== src/Controller/Threads/Keys.antt =====
-- The keys that the workers of controller/controller.go hold, and what a step does to them.
use crypt_controller.Base.{
  ℕ, zero, suc, String, Bool, false, not, ◌≡◌, refl, ◌∙◌, ap, ◌&&◌, ◌||◌, Option, none, some, List,
  [], ◌∷◌, arith, if◌then◌else◌, inl, inr, Bool-cases, ◌==◌, ==_iff, string_eq, get_elem?, set,
  nat_eq, replicate,
}
use crypt_controller.Base.Outcome.{Result, ok, err, Result-cases, Outcome, returned, panicked}
use crypt_controller.Api.{Crypt}
use crypt_controller.Any.{Any, text, as_text}
use crypt_controller.Lister.{get_in}
use crypt_controller.Controller.{Env, Controller, World}
use crypt_controller.Controller.Secrets.{create_secret}
use crypt_controller.Controller.Sync.Returns.{outside-create_secret, outside-log_failure}
use crypt_controller.Controller.Threads.{
  Thread, idle, syncing, ended, crashed, begin, begin_key, take, advance,
}

-- The key that a worker holds.
abbrev pub held_key : Thread → Option String
held_key (syncing key namespace crypt tasks) = some key
held_key _ = none

-- The key that the worker in one place holds.
abbrev pub key_at : List Thread → ℕ → Option String
key_at [] i = none
key_at (t ∷ ts) zero = held_key t
key_at (t ∷ ts) (suc i) = key_at ts i

pub key_at_self :
    (ts : List Thread) (i : ℕ) (t : Thread) → get_elem? ts i ≡ some t → key_at ts i ≡ held_key t
key_at_self [] i t e = cc
key_at_self (x ∷ ts) zero t e = ground (arith, e)
key_at_self (x ∷ ts) (suc i) t e = key_at_self ts i t e

pub key_at-set :
    (ts : List Thread) (i j : ℕ) (t u : Thread)
    → get_elem? ts i ≡ some t
    → key_at (set ts i u) j ≡ (if j == i then held_key u else key_at ts j)
key_at-set [] i j t u e = cc
key_at-set (x ∷ ts) zero zero t u e = refl
key_at-set (x ∷ ts) zero (suc j) t u e = ground arith
key_at-set (x ∷ ts) (suc i) zero t u e = ground arith
key_at-set (x ∷ ts) (suc i) (suc j) t u e = key_at-set ts i j t u e ∙ ground arith

pub replicate-idle : (workers i : ℕ) → key_at (replicate workers idle) i ≡ none
replicate-idle zero i = refl
replicate-idle (suc workers) zero = refl
replicate-idle (suc workers) (suc i) = replicate-idle workers i

-- What the work queue documents of the items that are being processed: an item is given out only while
-- it is not, and is from then on until it is done; nothing else changes that. `processing` tells of the
-- keys.
pub record IsExclusive (E : Env) (Passes : E.workqueue.State → E.workqueue.State → Type 0)
    (processing : E.workqueue.State → String → Bool) : Type 0 where
  pub get_fresh :
      (q q' : E.workqueue.State) (k : String)
      → E.workqueue.get q ≡ some (text k, q')
      → processing q k ≡ false
  pub get_marks :
      (q q' : E.workqueue.State) (k j : String)
      → E.workqueue.get q ≡ some (text k, q')
      → processing q' j ≡ (j == k || processing q j)
  pub get_other :
      (q q' : E.workqueue.State) (x : Any) (j : String)
      → as_text x ≡ none
      → E.workqueue.get q ≡ some (x, q')
      → processing q' j ≡ processing q j
  pub done_frees :
      (q : E.workqueue.State) (k j : String)
      → processing (E.workqueue.done (text k) q) j ≡ (not (j == k) && processing q j)
  pub done_other :
      (q : E.workqueue.State) (x : Any) (j : String)
      → as_text x ≡ none
      → processing (E.workqueue.done x q) j ≡ processing q j
  pub forget_keeps :
      (q : E.workqueue.State) (x : Any) (j : String)
      → processing (E.workqueue.forget x q) j ≡ processing q j
  pub add_keeps :
      (q : E.workqueue.State) (x : Any) (j : String)
      → processing (E.workqueue.add_rate_limited x q) j ≡ processing q j
  pub pass_keeps :
      (q q' : E.workqueue.State) (j : String) → Passes q q' → processing q' j ≡ processing q j

-- What a step does to the key that a worker holds and to the keys in process.
pub data Effect (h h' : Option String) (p p' : String → Bool) : Type 0 where
  keeps : h' ≡ h → ((j : String) → p' j ≡ p j) → Effect h h' p p'
  takes :
      (k : String)
      → h ≡ none
      → h' ≡ some k
      → p k ≡ false
      → ((j : String) → p' j ≡ (j == k || p j))
      → Effect h h' p p'
  frees :
      (k : String)
      → h ≡ some k
      → h' ≡ none
      → ((j : String) → p' j ≡ (not (j == k) && p j))
      → Effect h h' p p'

module _ (E : Env) (Passes : E.workqueue.State → E.workqueue.State → Type 0)
    (processing : E.workqueue.State → String → Bool) (X : IsExclusive E Passes processing) where
  -- A key that is taken and given back in one step.
  give_back :
      (q q' : E.workqueue.State) (k : String)
      → E.workqueue.get q ≡ some (text k, q')
      → (q'' : E.workqueue.State)
      → ((j : String) → processing q'' j ≡ (not (j == k) && processing q' j))
      → (j : String) → processing q'' j ≡ processing q j
  give_back q q' k got q'' freed j =
      ground (arith, freed j, X.get_marks q q' k j got, X.get_fresh q q' k got, ==_iff j k)

  begin-Effect :
      (C : Controller) (q : E.workqueue.State) (key namespace : String) (r : Outcome (Result Crypt))
      (w : World E)
      → E.workqueue.get q ≡ some (text key, w.queue)
      → Effect none
          (held_key (begin E C key namespace r w).0)
          (processing q)
          (processing (begin E C key namespace r w).1.queue)
  unfolding begin
  begin-Effect C q key namespace panicked w got =
      keeps refl (give_back q w.queue key got _ (λ j. X.done_frees w.queue key j))
  begin-Effect C q key namespace (returned (err e)) w got =
      elim (Bool-cases (E.errors.is_not_found e)) [
        | inl gone ↦ rw gone (
            keeps refl (
              give_back q w.queue key got _ (λ j.
                X.done_frees _ key j
                ∙ ap (λ (b : Bool). not (j == key) && b) (X.forget_keeps w.queue (text key) j))))
        | inr other ↦
            rw other (keeps refl (give_back q w.queue key got _ (λ j. X.done_frees w.queue key j)))
      ]
  begin-Effect C q key namespace (returned (ok crypt)) w got =
      takes key refl refl (X.get_fresh q w.queue key got) (λ j. X.get_marks q w.queue key j got)

  begin_key-Effect :
      (C : Controller) (q : E.workqueue.State) (key : String) (w : World E)
      → E.workqueue.get q ≡ some (text key, w.queue)
      → Effect none
          (held_key (begin_key E C key w).0)
          (processing q)
          (processing (begin_key E C key w).1.queue)
  unfolding begin_key
  begin_key-Effect C q key w got = elim (Result-cases (E.split_meta_namespace_key key)) [
    | inl ((namespace, name), split) ↦
        rw (split, begin_key)
          (begin-Effect C q key namespace (get_in E.errors C.crypt_lister namespace name) w got)
    | inr (e, bad) ↦
        rw (bad, begin_key)
          (keeps refl (
            give_back q w.queue key got _ (λ j.
              X.done_frees _ key j
              ∙ ap (λ (b : Bool). not (j == key) && b) (X.forget_keeps w.queue (text key) j))))
  ]

  put_back :
      (q q' : E.workqueue.State) (obj : Any) (j : String)
      → as_text obj ≡ none
      → E.workqueue.get q ≡ some (obj, q')
      → processing (E.workqueue.done obj (E.workqueue.forget obj q')) j ≡ processing q j
  put_back q q' obj j odd got =
      X.done_other _ obj j odd ∙ X.forget_keeps q' obj j ∙ X.get_other q q' obj j odd got

  take-Effect :
      (C : Controller) (w : World E) (r : Option (Any × E.workqueue.State))
      → E.workqueue.get w.queue ≡ r
      → Effect none
          (held_key (take E C r w).0)
          (processing w.queue)
          (processing (take E C r w).1.queue)
  unfolding take
  take-Effect C w none got = keeps refl (λ j. refl)
  take-Effect C w (some (text key, q)) got =
      begin_key-Effect C w.queue key (record w { queue = q }) got
  take-Effect C w (some (obj, q)) got = keeps refl (λ j. put_back w.queue q _ j refl got)

  pub advance-Effect :
      (C : Controller) (t : Thread) (w : World E)
      → Effect
          (held_key t)
          (held_key (advance E C t w).0)
          (processing w.queue)
          (processing (advance E C t w).1.queue)
  unfolding advance
  advance-Effect C idle w = take-Effect C w (E.workqueue.get w.queue) refl
  advance-Effect C (syncing key namespace crypt []) w = frees key refl refl (λ j.
      X.done_frees _ key j
      ∙ ap (λ (b : Bool). not (j == key) && b) (X.forget_keeps w.queue (text key) j))
  advance-Effect C (syncing key namespace crypt (task ∷ rest)) w = keeps refl (λ j.
      ap (λ o. processing o.0 j)
        (outside-log_failure E C key namespace (create_secret E C task.sec crypt task.target w)
          ∙ outside-create_secret E C crypt task.sec task.target w))
  advance-Effect C ended w = keeps refl (λ j. refl)
  advance-Effect C crashed w = keeps refl (λ j. refl)

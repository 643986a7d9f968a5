-- ===== src/Controller/Threads/Alone.antt =====
-- A worker of controller/controller.go whose steps are not interrupted, beside `processNextWorkItem`.
use crypt_controller.Base.{
  ℕ, zero, suc, String, ◌≡◌, refl, ◌∙◌, ap, true, false, some, List, [], ◌∷◌, ◌++◌, map, arith,
  length, inl, inr, Option-cases, Bool,
}
use crypt_controller.Base.Outcome.{Result, ok, err, Result-cases, Outcome, returned, panicked}
use crypt_controller.Api.{Crypt, SecretDefinition}
use crypt_controller.Any.{Any, text}
use crypt_controller.Lister.{get_in}
use crypt_controller.Controller.{Env, Controller, World}
use crypt_controller.Controller.Secrets.{create_secret}
use crypt_controller.Controller.Sync.{
  log_failure, namespace_matches, create_in, create_all, record_event, sync_crypt, sync_found,
  sync_handler,
}
use crypt_controller.Controller.Worker.{finish, process, process_next_work_item}
use crypt_controller.Controller.Threads.{
  Task, Thread, idle, syncing, ended, crashed, tasks_of, settle_item, begin, begin_key, take,
  advance,
}

module _ (E : Env) (C : Controller) where
  -- So many steps of one worker, with nobody else in between.
  abbrev pub steps : ℕ → Thread × World E → Thread × World E
  steps zero p = p
  steps (suc n) (t, w) = steps n (advance E C t w)

  -- The worker after a round.
  abbrev pub thread_after : Outcome Bool → Thread
  thread_after panicked = crashed
  thread_after (returned true) = idle
  thread_after (returned false) = ended

  run_tasks : String → String → Crypt → List Task → World E → World E
  run_tasks key namespace crypt [] w = w
  run_tasks key namespace crypt (task ∷ rest) w =
      run_tasks key namespace crypt rest
        (log_failure E C key namespace (create_secret E C task.sec crypt task.target w))

  steps-syncing :
      (key namespace : String) (crypt : Crypt) (tasks : List Task) (w : World E)
      → steps (suc (length tasks)) (syncing key namespace crypt tasks, w) ≡ (
        idle,
        settle_item E (text key) (record_event E C crypt (run_tasks key namespace crypt tasks w)),
      )
  unfolding advance run_tasks
  steps-syncing key namespace crypt [] w = refl
  steps-syncing key namespace crypt (task ∷ rest) w = steps-syncing key namespace crypt rest _

  run_tasks-append :
      (key namespace : String) (crypt : Crypt) (xs ys : List Task) (w : World E)
      → run_tasks key namespace crypt (xs ++ ys) w
        ≡ run_tasks key namespace crypt ys (run_tasks key namespace crypt xs w)
  unfolding run_tasks
  run_tasks-append key namespace crypt [] ys w = refl
  run_tasks-append key namespace crypt (x ∷ xs) ys w = run_tasks-append key namespace crypt xs ys _

  run_tasks-create_in :
      (key namespace : String) (crypt : Crypt) (sec : SecretDefinition) (matches : List String)
      (w : World E)
      → run_tasks key namespace crypt (map (λ ns. record { sec = sec; target = ns }) matches) w
        ≡ create_in E C key namespace crypt sec matches w
  unfolding run_tasks create_in
  run_tasks-create_in key namespace crypt sec [] w = refl
  run_tasks-create_in key namespace crypt sec (ns ∷ rest) w =
      run_tasks-create_in key namespace crypt sec rest _

  run_tasks-create_all :
      (key namespace : String) (crypt : Crypt) (secs : List SecretDefinition)
      (matches : List String) (w : World E)
      → run_tasks key namespace crypt (tasks_of secs matches) w
        ≡ create_all E C key namespace crypt secs matches w
  unfolding run_tasks create_all
  run_tasks-create_all key namespace crypt [] matches w = refl
  run_tasks-create_all key namespace crypt (sec ∷ rest) matches w =
      run_tasks-append key namespace crypt (map (λ ns. record { sec = sec; target = ns }) matches)
        (tasks_of rest matches) w
      ∙ run_tasks-create_all key namespace crypt rest matches _
      ∙ ap (λ v. create_all E C key namespace crypt rest matches v)
          (run_tasks-create_in key namespace crypt sec matches w)

  -- A round of a worker, from where its first step has led.
  abbrev Completes : Thread × World E → Outcome Bool × World E → Type 0
  Completes p r = (n : ℕ) × (steps n p ≡ (thread_after r.0, r.1))

  begin-Completes :
      (key namespace : String) (read : Outcome (Result Crypt)) (w : World E)
      → Completes
          (begin E C key namespace read w)
          (finish E key (sync_found E C key namespace read w))
  unfolding begin finish sync_found sync_crypt
  begin-Completes key namespace panicked w = (0, refl)
  begin-Completes key namespace (returned (err e)) w = (0, ground arith)
  begin-Completes key namespace (returned (ok crypt)) w =
      let tasks = tasks_of crypt.spec.secrets (namespace_matches E C crypt.spec.namespaces) in
      (
        suc (length tasks),
        steps-syncing key namespace crypt tasks w
            ∙ ap (λ v. (idle, settle_item E (text key) (record_event E C crypt v)))
                (run_tasks-create_all key namespace crypt crypt.spec.secrets _ w),
      )

  begin_key-Completes :
      (key : String) (w : World E)
      → Completes (begin_key E C key w) (finish E key (sync_handler E C key w))
  unfolding begin_key sync_handler finish
  begin_key-Completes key w = elim (Result-cases (E.split_meta_namespace_key key)) [
    | inr (e, bad) ↦ (0, rw (bad, begin_key, sync_handler))
    | inl ((namespace, name), split) ↦
        rw (split, begin_key, sync_handler)
          (begin-Completes key namespace (get_in E.errors C.crypt_lister namespace name) w)
  ]

  take-Completes :
      (obj : Any) (q : E.workqueue.State) (w : World E)
      → Completes (take E C (some (obj, q)) w) (process E C obj (record w { queue = q }))
  unfolding take process
  take-Completes (text key) q w = begin_key-Completes key (record w { queue = q })
  take-Completes _ q w = (0, refl)

  -- A worker whose steps are not interrupted, over the same caches and store, reaches in finitely many
  -- steps the world that `processNextWorkItem` leaves, and is then idle, ended or crashed as that
  -- returns true, returns false or panics.
  pub advance-process_next_work_item :
      (w : World E)
      → (n : ℕ) × (steps (suc n) (idle, w)
          ≡ (thread_after (process_next_work_item E C w).0, (process_next_work_item E C w).1))
  unfolding advance process_next_work_item take
  advance-process_next_work_item w = elim (Option-cases (E.workqueue.get w.queue)) [
    | inl e ↦ (0, rw (e, take, process_next_work_item))
    | inr ((obj, q), e) ↦ rw (e, process_next_work_item) (take-Completes obj q w)
  ]

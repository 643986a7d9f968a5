-- ===== src/Controller/Threads/Frame.antt =====
-- Secrets that no Crypt asks for, while the workers of controller/controller.go run.
use crypt_controller.Base.{
  String, Bool, false, ◌≡◌, refl, ◌∙◌, ap, ◌&&◌, ◌||◌, Option, none, some, List, [], ◌∷◌, map,
  arith, inl, inr, ◌==◌, string_eq, All, All-append, All-set, All-get_elem?, contains, Bool-cases,
}
use crypt_controller.Base.Outcome.{Result, ok, err, Result-cases, Outcome, returned, panicked}
use crypt_controller.Kube.{Secret}
use crypt_controller.Api.{Crypt, SecretDefinition}
use crypt_controller.Any.{Any, text}
use crypt_controller.Store.{get_data}
use crypt_controller.Lister.{get_in}
use crypt_controller.Controller.{Env, Controller, World}
use crypt_controller.Controller.Secrets.{create_secret, new_secret}
use crypt_controller.Controller.Secrets.Requests.{IsFaithful, put_secret_other}
use crypt_controller.Controller.Sync.Targets.{is_target, contains-namespace_matches}
use crypt_controller.Controller.Sync.Effect.{held-log_failure}
use crypt_controller.Controller.Start.Notices.{notify_after}
use crypt_controller.Controller.Threads.{
  Task, Thread, idle, syncing, ended, crashed, tasks_of, begin, begin_key, take, advance, System,
  Step, work, tell, meddle, pass, Reach, here, next,
}

module _ (ns n : String) where
  -- The task is about another secret.
  abbrev pub Elsewhere : Task → Type 0
  Elsewhere task = (ns == task.target && n == task.sec.name) ≡ false

  -- All tasks that a worker has still to do are.
  abbrev pub ThreadElsewhere : Thread → Type 0
  ThreadElsewhere (syncing key namespace crypt tasks) = All Elsewhere tasks
  ThreadElsewhere _ = Unit

  -- Some definition has the name.
  abbrev pub defines : List SecretDefinition → Bool
  defines [] = false
  defines (sec ∷ rest) = n == sec.name || defines rest

  targets-Elsewhere :
      (sec : SecretDefinition) (matches : List String)
      → (contains matches ns && n == sec.name) ≡ false
      → All Elsewhere (map (λ t. record { sec = sec; target = t }) matches)
  targets-Elsewhere sec [] h = tt
  targets-Elsewhere sec (t ∷ rest) h = (ground arith, targets-Elsewhere sec rest (ground arith))

  tasks_of-Elsewhere :
      (secs : List SecretDefinition) (matches : List String)
      → (contains matches ns && defines secs) ≡ false
      → All Elsewhere (tasks_of secs matches)
  tasks_of-Elsewhere [] matches h = tt
  tasks_of-Elsewhere (sec ∷ rest) matches h =
      All-append Elsewhere _ (tasks_of rest matches) (targets-Elsewhere sec matches (ground arith))
        (tasks_of-Elsewhere rest matches (ground arith))

  module _ (E : Env) where
    -- No Crypt in the cache asks for the secret `n` of `ns`, whatever the store holds.
    abbrev pub AsksElsewhere : Controller → Type 0
    AsksElsewhere C =
        (namespace name : String) (crypt : Crypt)
        → get_in E.errors C.crypt_lister namespace name ≡ returned (ok crypt)
        → (is_target E C crypt.spec.namespaces ns && defines crypt.spec.secrets) ≡ false

    abbrev secret : World E → Option Secret
    secret w = E.secrets.secret_at w.cluster ns n

    -- A worker and a world that leave the secret as `old`.
    abbrev Leaves : Option Secret → Thread × World E → Type 0
    Leaves old p = ThreadElsewhere p.0 × (secret p.1 ≡ old)

    module _ (C : Controller) (asks : AsksElsewhere C) where
      begin-Leaves :
          (key namespace : String) (name : String) (r : Outcome (Result Crypt)) (w : World E)
          → get_in E.errors C.crypt_lister namespace name ≡ r
          → Leaves (secret w) (begin E C key namespace r w)
      unfolding begin
      begin-Leaves key namespace name panicked w e = (tt, refl)
      begin-Leaves key namespace name (returned (err x)) w e =
          elim (Bool-cases (E.errors.is_not_found x)) [
            | inl gone ↦ rw gone (tt, refl)
            | inr other ↦ rw other (tt, refl)
          ]
      begin-Leaves key namespace name (returned (ok crypt)) w e = (
        tasks_of-Elsewhere crypt.spec.secrets _ (
            ap (λ (b : Bool). b && defines crypt.spec.secrets)
              (contains-namespace_matches E C crypt.spec.namespaces ns)
            ∙ asks namespace name crypt e),
        refl,
      )

      begin_key-Leaves : (key : String) (w : World E) → Leaves (secret w) (begin_key E C key w)
      unfolding begin_key
      begin_key-Leaves key w = elim (Result-cases (E.split_meta_namespace_key key)) [
        | inl ((namespace, name), split) ↦
            rw (split, begin_key)
              (begin-Leaves key namespace name (get_in E.errors C.crypt_lister namespace name) w
                refl)
        | inr (x, bad) ↦ rw (bad, begin_key) (tt, refl)
      ]

      take-Leaves :
          (r : Option (Any × E.workqueue.State)) (w : World E) → Leaves (secret w) (take E C r w)
      unfolding take
      take-Leaves none w = (tt, refl)
      take-Leaves (some (text key, q)) w = begin_key-Leaves key (record w { queue = q })
      take-Leaves (some (obj, q)) w = (tt, refl)

      create_secret-Elsewhere :
          (F : IsFaithful E.secrets) (crypt : Crypt) (task : Task) (w : World E)
          → Elsewhere task
          → secret (create_secret E C task.sec crypt task.target w).1 ≡ secret w
      unfolding create_secret new_secret
      create_secret-Elsewhere F crypt task w h = elim (Result-cases (C.store.get task.sec.key)) [
        | inr (e, failed) ↦ rw (failed, create_secret)
        | inl (obj, got) ↦
            rw (got, create_secret)
              (put_secret_other E F task.target
                (new_secret E (get_data obj) task.sec crypt task.target) w.cluster ns n h)
      ]

      advance-Leaves :
          (F : IsFaithful E.secrets) (t : Thread) (w : World E)
          → ThreadElsewhere t
          → Leaves (secret w) (advance E C t w)
      unfolding advance
      advance-Leaves F idle w h = take-Leaves (E.workqueue.get w.queue) w
      advance-Leaves F (syncing key namespace crypt []) w h = (tt, refl)
      advance-Leaves F (syncing key namespace crypt (task ∷ rest)) w h = (
        h.1,
        held-log_failure E C key namespace _ ns n ∙ create_secret-Elsewhere F crypt task w h.0,
      )
      advance-Leaves F ended w h = (tt, refl)
      advance-Leaves F crashed w h = (tt, refl)

    module _ (F : IsFaithful E.secrets) (Sees : Controller → Type 0)
        (asks : (C : Controller) → Sees C → AsksElsewhere C)
        (Others : E.secrets.State → E.secrets.State → Type 0)
        (spares : (k k' : E.secrets.State)
          → Others k k'
          → E.secrets.secret_at k' ns n ≡ E.secrets.secret_at k ns n)
        (Passes : E.workqueue.State → E.workqueue.State → Type 0) where
      -- All workers are at work elsewhere, and the secret is `old`.
      abbrev Spares : Option Secret → System E → Type 0
      Spares old s = All ThreadElsewhere s.threads × (secret s.world ≡ old)

      Step-Spares :
          {s s' : System E} (old : Option Secret)
          → Step E Sees Others Passes s s'
          → Spares old s
          → Spares old s'
      Step-Spares {s} old (work i t C seen there) (h, e) =
          let r =
            advance-Leaves C (asks C seen) F t s.world
              (All-get_elem? ThreadElsewhere s.threads i t h there) in
          (All-set ThreadElsewhere s.threads i _ h r.0, r.1 ∙ e)
      Step-Spares {s} old (tell C notice w seen told) (h, e) = (
        h,
        notify_after E (λ w'. secret w' ≡ old) (λ r w' p. p) (λ key w' p. p) C notice s.world w e
            told,
      )
      Step-Spares {s} old (meddle k o) (h, e) = (h, spares s.world.cluster k o ∙ e)
      Step-Spares old (pass q o) (h, e) = (h, e)

      Reach-Spares :
          {s s' : System E} (old : Option Secret)
          → Spares old s
          → Reach E Sees Others Passes s s'
          → Spares old s'
      Reach-Spares old v here = v
      Reach-Spares old v (next r step) = Step-Spares old step (Reach-Spares old v r)

      -- If requests act on the secret that they name and no other, no Crypt that is ever in the cache
      -- asks for the secret `n` of the namespace `ns`, and no other client changes it, then from a system
      -- in which no worker is about to create it, no interleaving of the workers and the handlers changes
      -- it.
      pub Reach-untouched :
          (s s' : System E)
          → All ThreadElsewhere s.threads
          → Reach E Sees Others Passes s s'
          → E.secrets.secret_at s'.world.cluster ns n ≡ E.secrets.secret_at s.world.cluster ns n
      Reach-untouched s s' start r = (Reach-Spares (secret s.world) (start, refl) r).1

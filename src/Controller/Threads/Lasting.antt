-- ===== src/Controller/Threads/Lasting.antt =====
-- Secrets that are there, while a worker of controller/controller.go makes a step.
use crypt_controller.Base.{
  String, Bool, true, false, ◌≡◌, refl, sym, ◌∙◌, subst, Option, some, none, [], ◌∷◌, arith, ◌==◌,
  ◌&&◌, string_eq, nat_eq, ◌⊎◌, inl, inr, Bool-cases, if◌then◌else◌,
}
use crypt_controller.Base.Outcome.{Result, ok, err, Result-cases, Outcome, returned, panicked}
use crypt_controller.Kube.{Secret}
use crypt_controller.Api.{Crypt}
use crypt_controller.Any.{Any, text}
use crypt_controller.Store.{Object, get_data}
use crypt_controller.Controller.{Env, Controller, World}
use crypt_controller.Controller.Secrets.{create_secret, new_secret}
use crypt_controller.Controller.Secrets.Requests.{IsFaithful, Serves, secret_at-put_secret}
use crypt_controller.Controller.Sync.{log_failure}
use crypt_controller.Controller.Sync.Effect.{held-log_failure}
use crypt_controller.Controller.Threads.{
  Task, Thread, idle, syncing, ended, crashed, begin, begin_key, take, advance,
}

-- A choice between a secret and what may be none.
chosen :
    (b : Bool) (new : Secret) (old result : Option Secret)
    → result ≡ (if b then some new else old)
    → (b ≡ true) ⊎ ((s : Secret) × (old ≡ some s))
    → (s : Secret) × (result ≡ some s)
chosen true new old result e h = (new, e)
chosen false new old result e (inl h) = absurd (ground (arith, h))
chosen false new old result e (inr (s, h)) = (s, e ∙ h)

module _ (ns n : String) where
  -- Whether a task is about the secret `n` of `ns`.
  abbrev pub is_about : Task → Bool
  is_about task = ns == task.target && n == task.sec.name

  module _ (E : Env) where
    abbrev pub IsThere : E.secrets.State → Type 0
    IsThere k = (s : Secret) × (E.secrets.secret_at k ns n ≡ some s)

    begin-cluster :
        (C : Controller) (key namespace : String) (r : Outcome (Result Crypt)) (w : World E)
        → (begin E C key namespace r w).1.cluster ≡ w.cluster
    unfolding begin
    begin-cluster C key namespace panicked w = refl
    begin-cluster C key namespace (returned (ok crypt)) w = refl
    begin-cluster C key namespace (returned (err x)) w =
        elim (Bool-cases (E.errors.is_not_found x)) [ inl gone ↦ rw gone | inr other ↦ rw other ]

    begin_key-cluster :
        (C : Controller) (key : String) (w : World E) → (begin_key E C key w).1.cluster ≡ w.cluster
    unfolding begin_key
    begin_key-cluster C key w = elim (Result-cases (E.split_meta_namespace_key key)) [
      | inl ((namespace, name), split) ↦ rw (begin_key, split) (begin-cluster C key namespace _ w)
      | inr (x, bad) ↦ rw (begin_key, bad)
    ]

    take-cluster :
        (C : Controller) (r : Option (Any × E.workqueue.State)) (w : World E)
        → (take E C r w).1.cluster ≡ w.cluster
    unfolding take
    take-cluster C none w = refl
    take-cluster C (some (text key, q)) w = begin_key-cluster C key (record w { queue = q })
    take-cluster C (some (obj, q)) w = refl

    module _ (F : IsFaithful E.secrets) (v : Serves E ns n) where
      create_secret_keeps :
          (C : Controller) (crypt : Crypt) (task : Task) (w : World E)
          → IsThere w.cluster
          → IsThere (create_secret E C task.sec crypt task.target w).1.cluster
      unfolding create_secret new_secret
      create_secret_keeps C crypt task w there = elim (Result-cases (C.store.get task.sec.key)) [
        | inr (e, failed) ↦ rw (create_secret, failed) there
        | inl (obj, got) ↦
            rw (create_secret, got)
              (chosen _ _ _ _
                (secret_at-put_secret E F task.target
                  (new_secret E (get_data obj) task.sec crypt task.target) w.cluster ns n v)
                (inr there))
      ]

      pub create_secret-IsThere :
          (C : Controller) (crypt : Crypt) (task : Task) (obj : Object) (w : World E)
          → is_about task ≡ true
          → C.store.get task.sec.key ≡ ok obj
          → IsThere (create_secret E C task.sec crypt task.target w).1.cluster
      unfolding create_secret new_secret
      create_secret-IsThere C crypt task obj w about got =
          rw (create_secret, got)
            (chosen _ _ _ _
              (secret_at-put_secret E F task.target
                (new_secret E (get_data obj) task.sec crypt task.target) w.cluster ns n v)
              (inl about))

      pub logged :
          (C : Controller) (key at : String) (r : Result Secret × World E)
          → IsThere r.1.cluster
          → IsThere (log_failure E C key at r).cluster
      logged C key at r (s, there) = (s, held-log_failure E C key at r ns n ∙ there)

      pub advance_keeps :
          (C : Controller) (t : Thread) (w : World E)
          → IsThere w.cluster
          → IsThere (advance E C t w).1.cluster
      unfolding advance
      advance_keeps C idle w there =
          subst IsThere (sym (take-cluster C (E.workqueue.get w.queue) w)) there
      advance_keeps C (syncing key namespace crypt []) w there = there
      advance_keeps C (syncing key namespace crypt (task ∷ rest)) w there =
          logged C key namespace _ (create_secret_keeps C crypt task w there)
      advance_keeps C ended w there = there
      advance_keeps C crashed w there = there

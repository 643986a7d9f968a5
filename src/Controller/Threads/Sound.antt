-- ===== src/Controller/Threads/Sound.antt =====
-- Where the secrets come from that are in the cluster while the workers of controller/controller.go run.
pub mod Steps
use mathlib.Core.List.{Mem, mem-cons_self, mem-cons_of_mem}
use crypt_controller.Base.{
  ℕ, String, Bool, true, false, ◌≡◌, refl, sym, subst, ◌∙◌, ap, ◌&&◌, ◌||◌, Option, none, some,
  List, [], ◌∷◌, ◌++◌, map, arith, if◌then◌else◌, inl, inr, ◌⊎◌, ◌==◌, ==_iff, ==_refl, string_eq,
  All, All-append, All-set, All-get_elem?, contains, Bool-cases,
}
use crypt_controller.Base.Outcome.{
  Error, Result, ok, err, Result-cases, Outcome, returned, panicked,
}
use crypt_controller.Kube.{Secret}
use crypt_controller.Api.{Crypt, SecretDefinition}
use crypt_controller.Any.{Any, text, as_text}
use crypt_controller.Store.{Object, get_data}
use crypt_controller.Lister.{get_in}
use crypt_controller.Controller.{Env, Controller, World, SecretApi}
use crypt_controller.Controller.Secrets.{create_secret, new_secret, put_secret}
use crypt_controller.Controller.Secrets.Requests.{IsFaithful, put_secret_other}
use crypt_controller.Controller.Sync.{namespace_matches}
use crypt_controller.Controller.Sync.Targets.{is_target, contains-namespace_matches}
use crypt_controller.Controller.Sync.Effect.{held-log_failure}
use crypt_controller.Controller.Start.Notices.{notify_after}
use crypt_controller.Controller.Threads.{
  Task, Thread, idle, syncing, ended, crashed, tasks_of, begin, begin_key, take, advance, System,
  Step, work, tell, meddle, pass, Reach, here, next,
}

-- A request leaves the secret that it names as it was, or as it was sent, whatever its result.
pub record IsHonest (S : SecretApi) : Type 0 where
  pub create_either :
      (ns : String) (s : Secret) (k : S.State)
      → (S.secret_at (S.create ns s k).1 ns s.meta.name ≡ S.secret_at k ns s.meta.name)
        ⊎ (S.secret_at (S.create ns s k).1 ns s.meta.name ≡ some s)
  pub update_either :
      (ns : String) (s : Secret) (k : S.State)
      → (S.secret_at (S.update ns s k).1 ns s.meta.name ≡ S.secret_at k ns s.meta.name)
        ⊎ (S.secret_at (S.update ns s k).1 ns s.meta.name ≡ some s)

module _ (E : Env) (F : IsFaithful E.secrets) (H : IsHonest E.secrets) where
  put_secret_either :
      (ns : String) (s : Secret) (k : E.secrets.State)
      → (E.secrets.secret_at (put_secret E ns s k).1 ns s.meta.name
          ≡ E.secrets.secret_at k ns s.meta.name)
        ⊎ (E.secrets.secret_at (put_secret E ns s k).1 ns s.meta.name ≡ some s)
  unfolding put_secret
  put_secret_either ns s k =
      ground (arith, H.create_either ns s k, H.update_either ns s (E.secrets.create ns s k).1)

  -- What stands under an address after `createSecret` has talked to the cluster stood there before, or
  -- is the secret that was sent.
  pub put_secret_cases :
      (t : String) (s : Secret) (k : E.secrets.State) (ns n : String) (found : Secret)
      → E.secrets.secret_at (put_secret E t s k).1 ns n ≡ some found
      → (E.secrets.secret_at k ns n ≡ some found) ⊎ ((ns ≡ t) × (s.meta.name ≡ n) × (found ≡ s))
  put_secret_cases t s k ns n found h = elim (Bool-cases (ns == t && n == s.meta.name)) [
    | inr differ ↦ inl (sym (put_secret_other E F t s k ns n differ) ∙ h)
    | inl same ↦
        let e : ns ≡ t = ground (arith, ==_iff ns t) in
        let e' : n ≡ s.meta.name = ground (arith, ==_iff n s.meta.name) in cases e e' h
  ]
    where
      cases :
          {ns' n' : String}
          → ns' ≡ t
          → n' ≡ s.meta.name
          → E.secrets.secret_at (put_secret E t s k).1 ns' n' ≡ some found
          → (E.secrets.secret_at k ns' n' ≡ some found)
            ⊎ ((ns' ≡ t) × (s.meta.name ≡ n') × (found ≡ s))
      cases e e' h' = rw (e, e') (ground (arith, h', e, e', put_secret_either t s k))

-- The controller asked for the secret: some Crypt that was in its cache defines one of the name, with a
-- pattern that matched the namespace while that was in the cache, and the store had the value.
pub record IsAsked (E : Env) (Sees : Controller → Type 0) (ns n : String) (s : Secret)
    : Type 1 where
  pub cache : Controller
  pub cache_seen : Sees cache
  pub at : String
  pub name : String
  pub crypt : Crypt
  pub cached : get_in E.errors cache.crypt_lister at name ≡ returned (ok crypt)
  pub sec : SecretDefinition
  pub defined : Mem sec crypt.spec.secrets
  pub named : sec.name ≡ n
  pub targeted : is_target E cache crypt.spec.namespaces ns ≡ true
  pub source : Controller
  pub source_seen : Sees source
  pub obj : Object
  pub found : source.store.get sec.key ≡ ok obj
  pub made : s ≡ new_secret E (get_data obj) sec crypt ns

module _ (E : Env) (Sees : Controller → Type 0) where
  -- A task of a Crypt: one of its definitions, for a namespace that it targets.
  abbrev pub IsTask : Controller → Crypt → Task → Type 0
  IsTask C crypt task =
      Mem task.sec crypt.spec.secrets × (is_target E C crypt.spec.namespaces task.target ≡ true)

  -- The tasks of a worker are those of a Crypt that was in the cache.
  abbrev pub IsBusyWith : Thread → Type 1
  IsBusyWith (syncing key namespace crypt tasks) =
      (C : Controller) × Sees C
      × ((name : String) × (get_in E.errors C.crypt_lister namespace name ≡ returned (ok crypt)))
      × All (IsTask C crypt) tasks
  IsBusyWith _ = Unit

  module _ (C : Controller) (crypt : Crypt) where
    targets-IsTask :
        (sec : SecretDefinition) (matches : List String)
        → Mem sec crypt.spec.secrets
        → ((t : String) → contains matches t ≡ true → is_target E C crypt.spec.namespaces t ≡ true)
        → All (IsTask C crypt) (map (λ t. record { sec = sec; target = t }) matches)
    targets-IsTask sec [] m all = tt
    targets-IsTask sec (t ∷ rest) m all = (
      (m, all t (ground (arith, ==_refl t))),
      targets-IsTask sec rest m (λ t' h. all t' (ground (arith, h))),
    )

    tasks_of-IsTask :
        (secs : List SecretDefinition) (matches : List String)
        → ((sec : SecretDefinition) → Mem sec secs → Mem sec crypt.spec.secrets)
        → ((t : String) → contains matches t ≡ true → is_target E C crypt.spec.namespaces t ≡ true)
        → All (IsTask C crypt) (tasks_of secs matches)
    tasks_of-IsTask [] matches m all = tt
    tasks_of-IsTask (sec ∷ rest) matches m all =
        All-append (IsTask C crypt) _ (tasks_of rest matches)
          (targets-IsTask sec matches (m sec mem-cons_self) all)
          (tasks_of-IsTask rest matches (λ d h. m d (mem-cons_of_mem sec h)) all)

  module _ (Given : String → String → Secret → Type 0) where
    -- Every secret was asked for, or is given.
    abbrev pub IsAccounted : E.secrets.State → Type 1
    IsAccounted k =
        (ns n : String) (s : Secret)
        → E.secrets.secret_at k ns n ≡ some s
        → IsAsked E Sees ns n s ⊎ Given ns n s

    -- A worker and a world as they should be.
    abbrev pub Fine : Thread × World E → Type 1
    Fine p = IsBusyWith p.0 × IsAccounted p.1.cluster

    module _ (C : Controller) (seen : Sees C) where
      begin-Fine :
          (key namespace name : String) (r : Outcome (Result Crypt)) (w : World E)
          → get_in E.errors C.crypt_lister namespace name ≡ r
          → IsAccounted w.cluster
          → Fine (begin E C key namespace r w)
      unfolding begin
      begin-Fine key namespace name panicked w e a = (tt, a)
      begin-Fine key namespace name (returned (err x)) w e a =
          elim (Bool-cases (E.errors.is_not_found x)) [
            | inl gone ↦ rw gone (tt, a)
            | inr other ↦ rw other (tt, a)
          ]
      begin-Fine key namespace name (returned (ok crypt)) w e a = (
        (
          C,
          seen,
          (name, e),
          tasks_of-IsTask C crypt crypt.spec.secrets _ (λ sec m. m)
              (λ t h. sym (contains-namespace_matches E C crypt.spec.namespaces t) ∙ h),
        ),
        a,
      )

      begin_key-Fine :
          (key : String) (w : World E) → IsAccounted w.cluster → Fine (begin_key E C key w)
      unfolding begin_key
      begin_key-Fine key w a = elim (Result-cases (E.split_meta_namespace_key key)) [
        | inl ((namespace, name), split) ↦
            rw (split, begin_key)
              (begin-Fine key namespace name (get_in E.errors C.crypt_lister namespace name) w refl
                a)
        | inr (x, bad) ↦ rw (bad, begin_key) (tt, a)
      ]

      pub take-Fine :
          (r : Option (Any × E.workqueue.State)) (w : World E)
          → IsAccounted w.cluster
          → Fine (take E C r w)
      unfolding take
      take-Fine none w a = (tt, a)
      take-Fine (some (text key, q)) w a = begin_key-Fine key (record w { queue = q }) a
      take-Fine (some (obj, q)) w a = (tt, a)

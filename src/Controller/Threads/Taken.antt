-- ===== src/Controller/Threads/Taken.antt =====
-- What becomes of a key of controller/controller.go once a worker has taken it, in the midst of others.
use crypt_controller.Base.{
  ℕ, suc, ◌+◌, ◌*◌, String, Bool, true, ◌≡◌, refl, sym, ap, ◌∙◌, some, List, [], ◌∷◌, ◌++◌, map,
  arith, length, get_elem?, set, ◌==◌, ==_refl, nat_eq, ◌||◌, ◌&&◌, string_eq, All, All-append, any,
  contains,
}
use crypt_controller.Base.Outcome.{ok, returned}
use crypt_controller.Api.{Crypt, SecretDefinition}
use crypt_controller.Any.{text}
use crypt_controller.Lister.{get_in}
use crypt_controller.Store.{Object}
use crypt_controller.Controller.{Env, Controller, World}
use crypt_controller.Controller.Secrets.Requests.{IsFaithful, Serves}
use crypt_controller.Controller.Sync.{namespace_matches}
use crypt_controller.Controller.Sync.Targets.{is_target, contains-namespace_matches}
use crypt_controller.Controller.Threads.{
  Task, idle, syncing, tasks_of, begin, begin_key, take, advance, System, Reach,
}
use crypt_controller.Controller.Threads.Turns.{turns_of, get_elem?-set}
use crypt_controller.Controller.Threads.Lasting.{IsThere}
use crypt_controller.Controller.Threads.Settled.{some_about, Stocked, turns_of-IsThere}

-- As many tasks as there are definitions for each namespace that matches.
length-tasks :
    (sec : SecretDefinition) (matches : List String) (rest : List Task)
    → length (map (λ t. record { sec = sec; target = t }) matches ++ rest)
      ≡ length matches + length rest
length-tasks sec [] rest = ground arith
length-tasks sec (t ∷ matches) rest = ground (arith, length-tasks sec matches rest)

length-tasks_of :
    (secs : List SecretDefinition) (matches : List String)
    → length (tasks_of secs matches) ≡ length secs * length matches
length-tasks_of [] matches = ground arith
length-tasks_of (sec ∷ rest) matches =
    length-tasks sec matches (tasks_of rest matches)
    ∙ ap (λ m. length matches + m) (length-tasks_of rest matches)
    ∙ ground arith

module _ (ns n : String) where
  -- Whether a definition asks for a secret of the name.
  abbrev pub is_named : SecretDefinition → Bool
  is_named sec = n == sec.name

  some_about-map :
      (sec : SecretDefinition) (matches : List String) (rest : List Task)
      → some_about ns n (map (λ t. record { sec = sec; target = t }) matches ++ rest)
        ≡ (contains matches ns && is_named sec || some_about ns n rest)
  some_about-map sec [] rest = refl
  some_about-map sec (t ∷ matches) rest = ground (arith, some_about-map sec matches rest)

  some_about-tasks_of :
      (secs : List SecretDefinition) (matches : List String)
      → contains matches ns ≡ true
      → any is_named secs ≡ true
      → some_about ns n (tasks_of secs matches) ≡ true
  some_about-tasks_of [] matches found named = absurd (ground (arith, named))
  some_about-tasks_of (sec ∷ rest) matches found named = ground (
    arith,
    found,
    named,
    some_about-map sec matches (tasks_of rest matches),
    some_about-tasks_of rest matches found,
  )

  module _ (E : Env) (Sees : Controller → Type 0) where
    -- Every store that is seen has a value for the definitions of this name.
    abbrev pub StockedFor : List SecretDefinition → Type 1
    StockedFor = All (λ sec.
        is_named sec ≡ true
        → (C : Controller) → Sees C
        → (obj : Object) × (C.store.get sec.key ≡ ok obj))

    Stocked-map :
        (sec : SecretDefinition) (matches : List String)
        → (is_named sec ≡ true
            → (C : Controller) → Sees C
            → (obj : Object) × (C.store.get sec.key ≡ ok obj))
        → Stocked ns n E Sees (map (λ t. record { sec = sec; target = t }) matches)
    Stocked-map sec [] stocked = tt
    Stocked-map sec (t ∷ matches) stocked =
        ((λ about C seen. stocked (ground (arith, about)) C seen), Stocked-map sec matches stocked)

    Stocked-tasks_of :
        (secs : List SecretDefinition) (matches : List String)
        → StockedFor secs
        → Stocked ns n E Sees (tasks_of secs matches)
    Stocked-tasks_of [] matches stocked = tt
    Stocked-tasks_of (sec ∷ rest) matches (first, others) =
        All-append _ _ (tasks_of rest matches) (Stocked-map sec matches first)
          (Stocked-tasks_of rest matches others)

    advance-taken :
        (C : Controller) (key namespace name : String) (crypt : Crypt) (q : E.workqueue.State)
        (w : World E)
        → E.workqueue.get w.queue ≡ some (text key, q)
        → E.split_meta_namespace_key key ≡ ok (namespace, name)
        → get_in E.errors C.crypt_lister namespace name ≡ returned (ok crypt)
        → (advance E C idle w).0
          ≡ syncing key namespace crypt
              (tasks_of crypt.spec.secrets (namespace_matches E C crypt.spec.namespaces))
    unfolding advance take begin_key begin
    advance-taken C key namespace name crypt q w got split cached =
        rw (advance, got, take, begin_key, split, begin, cached) refl

    -- The system once a worker that is idle has made a step.
    abbrev pub woken : Controller → ℕ → System E → System E
    woken C i s = record {
      threads = set s.threads i (advance E C idle s.world).0;
      world = (advance E C idle s.world).1;
    }

    module _ (F : IsFaithful E.secrets) (v : Serves E ns n)
        (Others : E.secrets.State → E.secrets.State → Type 0)
        (lasts : (k k' : E.secrets.State) → Others k k' → IsThere ns n E k → IsThere ns n E k')
        (Passes : E.workqueue.State → E.workqueue.State → Type 0) where
      -- Requests act on the secret that they name and no other, and those about the secret `n` of `ns`
      -- are served; other clients do not delete it. An idle worker takes a key from the queue that names
      -- a Crypt in its cache, of which a definition is called `n` and a pattern matches the cached
      -- namespace `ns`; and every store that is seen has values for the Crypt's definitions of that name.
      -- Then the worker is idle and the secret is there, once it has made one more step of its own than
      -- there are definitions times matching namespaces, whatever other workers, the handlers, time and
      -- other clients do in between.
      pub taken-IsThere :
          (C : Controller) (i : ℕ) (key namespace name : String) (crypt : Crypt)
          (q : E.workqueue.State) (s s' : System E)
          (r : Reach E Sees Others Passes (woken C i s) s')
          → get_elem? s.threads i ≡ some idle
          → E.workqueue.get s.world.queue ≡ some (text key, q)
          → E.split_meta_namespace_key key ≡ ok (namespace, name)
          → get_in E.errors C.crypt_lister namespace name ≡ returned (ok crypt)
          → is_target E C crypt.spec.namespaces ns ≡ true
          → any is_named crypt.spec.secrets ≡ true
          → StockedFor crypt.spec.secrets
          → turns_of E Sees Others Passes i r
            ≡ suc (length crypt.spec.secrets * length (namespace_matches E C crypt.spec.namespaces))
          → (get_elem? s'.threads i ≡ some idle) × IsThere ns n E s'.world.cluster
      taken-IsThere C i key namespace name crypt q s s' r at got split cached target named stocked
            turns =
          let matches = namespace_matches E C crypt.spec.namespaces in
          let secs = crypt.spec.secrets in
          let found : contains matches ns ≡ true =
            contains-namespace_matches E C crypt.spec.namespaces ns ∙ target in
          turns_of-IsThere ns n E F v Sees Others lasts Passes i key namespace crypt
            (tasks_of secs matches) (Stocked-tasks_of secs matches stocked) (woken C i s) s' r
            (get_elem?-set s.threads i i idle _ at
              ∙ rw (==_refl i)
                  (ap some (advance-taken C key namespace name crypt q s.world got split cached)))
            (some_about-tasks_of secs matches found named)
            (turns ∙ ap suc (sym (length-tasks_of secs matches)))

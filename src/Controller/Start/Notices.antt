-- ===== src/Controller/Start/Notices.antt =====
-- What the handlers that `New` of controller/controller.go registers can do to the world.
use crypt_controller.Base.{
  String, ◌≡◌, refl, Option, none, some, List, [], ◌∷◌, inl, inr, Option-cases, Bool-cases, ◌==◌,
  string_eq, subst,
}
use crypt_controller.Base.Outcome.{Error, Result-cases, Outcome, returned, panicked}
use crypt_controller.Kube.{Secret, Namespace}
use crypt_controller.Api.{Crypt}
use crypt_controller.Any.{Any, text, crypt, as_secret, as_namespace, as_tombstone}
use crypt_controller.Lister.{list_in}
use crypt_controller.Controller.{Env, Controller, World, Report}
use crypt_controller.Controller.Secrets.{report}
use crypt_controller.Controller.Worker.{enqueue_crypt}
use crypt_controller.Controller.Handlers.{
  some_match, enqueue_matching, visit_namespaces, visit_listed, handle_namespace_add, enqueue_found,
  handle_deleted, handle_tombstone, handle_secret_delete,
}
use crypt_controller.Controller.Start.{
  Notice, of_crypts, of_secrets, of_namespaces, added, updated, deleted, notify,
}

-- A property of worlds that a call leaves true, if it returns.
abbrev pub Ensures {ℓ} : {E : Env} → (World E → Type ℓ) → Outcome (World E) → Type ℓ
Ensures P (returned w) = P w
Ensures P panicked = Unit

module _ {ℓ} (E : Env) (P : World E → Type ℓ)
    (reports : (r : Report) (w : World E) → P w → P (report r w))
    (adds : (key : String) (w : World E)
      → P w
      → P (record w { queue = E.workqueue.add_rate_limited (text key) w.queue })) where
  enqueue_crypt-Ensures : (obj : Any) (w : World E) → P w → P (enqueue_crypt E obj w)
  unfolding enqueue_crypt
  enqueue_crypt-Ensures obj w h = elim (Result-cases (E.meta_namespace_key obj)) [
    | inl (key, e) ↦ rw (e, enqueue_crypt) (adds key w h)
    | inr (e, failed) ↦ rw (failed, enqueue_crypt) (reports _ w h)
  ]

  enqueue_matching-Ensures :
      (name : String) (crypts : List Crypt) (w : World E)
      → P w
      → P (enqueue_matching E name crypts w)
  unfolding enqueue_matching
  enqueue_matching-Ensures name [] w h = h
  enqueue_matching-Ensures name (c ∷ rest) w h =
      elim (Bool-cases (some_match E name c.spec.namespaces)) [
        | inl e ↦ rw e (enqueue_crypt-Ensures (crypt c) w h)
        | inr e ↦ rw e (enqueue_matching-Ensures name rest w h)
      ]

  module _ (C : Controller) where
    visit_namespaces-Ensures :
        (name : String) (nss : List Namespace) (w : World E)
        → P w
        → Ensures P (visit_namespaces E C name nss w)
    unfolding visit_namespaces
    visit_namespaces-Ensures name [] w h = h
    visit_namespaces-Ensures name (ns ∷ rest) w h =
        visited (list_in C.crypt_lister ns.meta.name E.new_selector)
          (visit_namespaces-Ensures name rest w h)
          (λ crypts.
            visit_namespaces-Ensures name rest _ (enqueue_matching-Ensures name crypts w h))
      where
        visited :
            (r : Outcome (List Crypt × Option Error))
            → Ensures P (visit_namespaces E C name rest w)
            → ((crypts : List Crypt)
                → Ensures P (visit_namespaces E C name rest (enqueue_matching E name crypts w)))
            → Ensures P (elim r [
              | panicked ↦ panicked
              | returned (crypts, some e) ↦ visit_namespaces E C name rest w
              | returned (crypts, none) ↦
                  visit_namespaces E C name rest (enqueue_matching E name crypts w)
            ])
        visited panicked skip go = tt
        visited (returned (crypts, some e)) skip go = skip
        visited (returned (crypts, none)) skip go = go crypts

    visit_listed-Ensures :
        (name : String) (r : List Namespace × Option Error) (w : World E)
        → P w
        → Ensures P (visit_listed E C name r w)
    unfolding visit_listed
    visit_listed-Ensures name (nss, some e) w h = h
    visit_listed-Ensures name (nss, none) w h = visit_namespaces-Ensures name nss w h

    handle_namespace_add-Ensures :
        (obj : Any) (w : World E) → P w → Ensures P (handle_namespace_add E C obj w)
    unfolding handle_namespace_add
    handle_namespace_add-Ensures obj w h = elim (Option-cases (as_namespace obj)) [
      | inl e ↦ rw (e, handle_namespace_add) h
      | inr (ns, e) ↦
          rw (e, handle_namespace_add)
            (visit_listed-Ensures ns.meta.name (C.namespace_lister E.new_selector) w h)
    ]

    enqueue_found-Ensures :
        (s : Secret) (name : String) (w : World E) (r : Outcome (Option Crypt))
        → P w
        → Ensures P (enqueue_found E C s name w r)
    unfolding enqueue_found
    enqueue_found-Ensures s name w panicked h = tt
    enqueue_found-Ensures s name w (returned none) h = reports _ w h
    enqueue_found-Ensures s name w (returned (some c)) h = enqueue_crypt-Ensures (crypt c) w h

    handle_deleted-Ensures : (s : Secret) (w : World E) → P w → Ensures P (handle_deleted E C s w)
    unfolding handle_deleted
    handle_deleted-Ensures s w h = elim (Option-cases (E.get_controller_of s)) [
      | inl e ↦ rw (e, handle_deleted) h
      | inr (r, e) ↦
          rw (e, handle_deleted)
            (elim (Bool-cases (r.kind == "Crypt")) [
              | inl same ↦ rw same (enqueue_found-Ensures s r.name w _ h)
              | inr other ↦ rw other h
            ])
    ]

    handle_tombstone-Ensures :
        (obj : Any) (w : World E) (inner : Option Any)
        → P w
        → Ensures P (handle_tombstone E C obj w inner)
    unfolding handle_tombstone
    handle_tombstone-Ensures obj w none h = reports _ w h
    handle_tombstone-Ensures obj w (some inner) h = elim (Option-cases (as_secret inner)) [
      | inl e ↦ rw (e, handle_tombstone) (reports _ w h)
      | inr (s, e) ↦ rw (e, handle_tombstone) (handle_deleted-Ensures s w h)
    ]

    handle_secret_delete-Ensures :
        (obj : Any) (w : World E) → P w → Ensures P (handle_secret_delete E C obj w)
    unfolding handle_secret_delete
    handle_secret_delete-Ensures obj w h = elim (Option-cases (as_secret obj)) [
      | inl e ↦ rw (e, handle_secret_delete) (handle_tombstone-Ensures obj w (as_tombstone obj) h)
      | inr (s, e) ↦ rw (e, handle_secret_delete) (handle_deleted-Ensures s w h)
    ]

    -- What putting a key on the queue and reporting leave true of a world, every handler leaves true.
    pub notify-Ensures : (n : Notice) (w : World E) → P w → Ensures P (notify E C n w)
    unfolding notify
    notify-Ensures (of_crypts (added obj)) w h = enqueue_crypt-Ensures obj w h
    notify-Ensures (of_crypts (updated old new)) w h = enqueue_crypt-Ensures new w h
    notify-Ensures (of_crypts (deleted obj)) w h = h
    notify-Ensures (of_secrets (added obj)) w h = h
    notify-Ensures (of_secrets (updated old new)) w h = h
    notify-Ensures (of_secrets (deleted obj)) w h = handle_secret_delete-Ensures obj w h
    notify-Ensures (of_namespaces (added obj)) w h = handle_namespace_add-Ensures obj w h
    notify-Ensures (of_namespaces (updated old new)) w h = h
    notify-Ensures (of_namespaces (deleted obj)) w h = h

    pub notify_after : (n : Notice) (w w' : World E) → P w → notify E C n w ≡ returned w' → P w'
    notify_after n w w' h e =
        subst (λ (r : Outcome (World E)). Ensures P r) e (notify-Ensures n w h)

-- Whatever an informer tells of, the handler that is registered for it, if it returns, has changed
-- nothing but the queue and the reports: no secret and no event.
pub notify_keeps :
    (E : Env) (C : Controller) (n : Notice) (w w' : World E)
    → notify E C n w ≡ returned w'
    → (w'.cluster ≡ w.cluster) × (w'.events ≡ w.events)
notify_keeps E C n w w' =
    notify_after E (λ v. (v.cluster ≡ w.cluster) × (v.events ≡ w.events)) (λ r v h. h)
      (λ key v h. h) C n w w' (refl, refl)

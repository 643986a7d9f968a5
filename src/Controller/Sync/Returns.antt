-- ===== src/Controller/Sync/Returns.antt =====
-- How `syncHandler` of controller/controller.go ends, and what it leaves of the queue and the events.
use mathlib.Core.List.{append-nil}
use crypt_controller.Base.{
  String, Bool, true, false, not, ap, ◌≡◌, refl, ◌∙◌, Option, none, some, List, [], ◌∷◌, ◌++◌,
  arith, if◌then◌else◌, inl, inr,
}
use crypt_controller.Base.Outcome.{Result, ok, err, Result-cases, Outcome, returned, panicked}
use crypt_controller.Kube.{Secret}
use crypt_controller.Api.{Crypt, SecretDefinition}
use crypt_controller.Lister.{get_in}
use crypt_controller.Controller.{Env, Controller, World, Event}
use crypt_controller.Controller.Secrets.{create_secret}
use crypt_controller.Controller.Sync.{
  event_type_normal, success_synced, message_resource_synced, log_failure, namespace_matches,
  create_in, create_all, sync_crypt, sync_found, sync_handler,
}

module _ (E : Env) (C : Controller) where
  -- The queue and the events of a world.
  abbrev pub outside : World E → E.workqueue.State × List Event
  outside w = (w.queue, w.events)

  pub outside-create_secret :
      (crypt : Crypt) (sec : SecretDefinition) (t : String) (w : World E)
      → outside (create_secret E C sec crypt t w).1 ≡ outside w
  unfolding create_secret
  outside-create_secret crypt sec t w = ground arith

  pub outside-log_failure :
      (key at : String) (r : Result Secret × World E)
      → outside (log_failure E C key at r) ≡ outside r.1
  outside-log_failure key at (ok s, w) = refl
  outside-log_failure key at (err e, w) = refl

  outside-create_in :
      (key at : String) (crypt : Crypt) (sec : SecretDefinition) (matches : List String)
      (w : World E)
      → outside (create_in E C key at crypt sec matches w) ≡ outside w
  unfolding create_in
  outside-create_in key at crypt sec [] w = refl
  outside-create_in key at crypt sec (t ∷ rest) w =
      outside-create_in key at crypt sec rest _
      ∙ outside-log_failure key at _
      ∙ outside-create_secret crypt sec t w

  outside-create_all :
      (key at : String) (crypt : Crypt) (secs : List SecretDefinition) (matches : List String)
      (w : World E)
      → outside (create_all E C key at crypt secs matches w) ≡ outside w
  unfolding create_all
  outside-create_all key at crypt [] matches w = refl
  outside-create_all key at crypt (sec ∷ rest) matches w =
      outside-create_all key at crypt rest matches _ ∙ outside-create_in key at crypt sec matches w

  -- The event of a sync that reached its end.
  abbrev pub synced : Crypt → Event
  synced crypt = record {
    object = crypt;
    type = event_type_normal;
    reason = success_synced;
    message = message_resource_synced;
  }

  -- The Crypt that a read of the cache gave.
  abbrev pub read_crypt : Outcome (Result Crypt) → Option Crypt
  read_crypt (returned (ok crypt)) = some crypt
  read_crypt (returned (err e)) = none
  read_crypt panicked = none

  -- Whether the read of the cache failed otherwise than by "not found".
  abbrev pub read_breaks : Outcome (Result Crypt) → Bool
  read_breaks (returned (ok crypt)) = false
  read_breaks (returned (err e)) = not (E.errors.is_not_found e)
  read_breaks panicked = true

  -- The read of the cache that the key leads to; nothing is read for a key that is not valid.
  abbrev pub read : String → Option (Outcome (Result Crypt))
  read key = elim (E.split_meta_namespace_key key) [
    | err e ↦ none
    | ok (namespace, name) ↦ some (get_in E.errors C.crypt_lister namespace name)
  ]

  abbrev pub breaks : Option (Outcome (Result Crypt)) → Bool
  breaks none = false
  breaks (some r) = read_breaks r

  abbrev pub events_of : Option (Outcome (Result Crypt)) → List Event
  events_of none = []
  events_of (some r) = elim (read_crypt r) [ none ↦ [] | some crypt ↦ synced crypt ∷ [] ]

  sync_crypt_outside :
      (key at : String) (crypt : Crypt) (w : World E)
      → ((sync_crypt E C key at crypt w).queue ≡ w.queue)
        × ((sync_crypt E C key at crypt w).events ≡ w.events ++ synced crypt ∷ [])
  unfolding sync_crypt
  sync_crypt_outside key at crypt w =
      let same =
        outside-create_all key at crypt crypt.spec.secrets
          (namespace_matches E C crypt.spec.namespaces) w in
      (ap (λ p. p.0) same, ap (λ p. p.1 ++ synced crypt ∷ []) same)

  sync_found_returns :
      (key at : String) (r : Outcome (Result Crypt)) (w : World E)
      → ((sync_found E C key at r w).0 ≡ (if read_breaks r then panicked else returned none))
        × ((sync_found E C key at r w).1.queue ≡ w.queue)
        × ((sync_found E C key at r w).1.events ≡ w.events ++ events_of (some r))
  unfolding sync_found
  sync_found_returns key at panicked w = (refl, refl, rw append-nil)
  sync_found_returns key at (returned (err e)) w =
      (ground arith, ground arith, rw append-nil (ground arith))
  sync_found_returns key at (returned (ok crypt)) w =
      (refl, (sync_crypt_outside key at crypt w).0, (sync_crypt_outside key at crypt w).1)

  -- `syncHandler` never returns an error: it panics if reading the Crypt from the cache fails
  -- otherwise than by "not found", or gives an object of another type, and else returns nil. In every
  -- case it leaves the work queue as it is, and records one event, "Synced", just where the Crypt was
  -- found, whether or not its secrets could be created.
  pub sync_handler-returns :
      (key : String) (w : World E)
      → ((sync_handler E C key w).0 ≡ (if breaks (read key) then panicked else returned none))
        × ((sync_handler E C key w).1.queue ≡ w.queue)
        × ((sync_handler E C key w).1.events ≡ w.events ++ events_of (read key))
  unfolding sync_handler
  sync_handler-returns key w = elim (Result-cases (E.split_meta_namespace_key key)) [
    | inr (e, bad) ↦ rw (bad, sync_handler, read) (refl, refl, rw append-nil)
    | inl ((namespace, name), split) ↦
        rw (split, sync_handler, read)
          (sync_found_returns key namespace (get_in E.errors C.crypt_lister namespace name) w)
  ]

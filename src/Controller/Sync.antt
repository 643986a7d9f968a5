-- ===== src/Controller/Sync.antt =====
-- controller/controller.go: `findNamespaceMatches` and `syncHandler`.
pub mod Targets
pub mod Effect
pub mod Made
pub mod Frame
pub mod Returns
pub mod Orders
use crypt_controller.Base.{String, Option, none, List, [], ◌∷◌, ◌++◌, if◌then◌else◌}
use crypt_controller.Base.Outcome.{Error, Result, ok, err, Outcome, returned, panicked}
use crypt_controller.Kube.{Secret, Namespace}
use crypt_controller.Api.{Crypt, SecretDefinition}
use crypt_controller.Lister.{get_in}
use crypt_controller.Controller.{
  Env, Controller, World, Event, invalid_resource_key, no_longer_exists, could_not_create,
}
use crypt_controller.Controller.Secrets.{report, create_secret}

abbrev pub event_type_normal : String
event_type_normal = "Normal"

abbrev pub success_synced : String
success_synced = "Synced"

abbrev pub message_resource_synced : String
message_resource_synced = "Crypt synced successfully"

module _ (E : Env) (C : Controller) where
  -- The loop over the namespaces that were listed.
  matching : String → List Namespace → List String
  matching pattern [] = []
  matching pattern (ns ∷ rest) =
      if (E.match_string pattern ns.meta.name).0
      then ns.meta.name ∷ matching pattern rest
      else matching pattern rest

  -- The error of the lister is dropped.
  unfoldable pub find_namespace_matches : String → List String
  unfolding matching
  find_namespace_matches pattern = matching pattern (C.namespace_lister E.new_selector).0

  -- The matches of each pattern in turn.
  unfoldable pub namespace_matches : List String → List String
  namespace_matches [] = []
  namespace_matches (pattern ∷ rest) = find_namespace_matches pattern ++ namespace_matches rest

  -- The message names the namespace of the Crypt.
  abbrev pub log_failure : String → String → Result Secret × World E → World E
  log_failure key namespace (ok result, w) = w
  log_failure key namespace (err e, w) = report (could_not_create key namespace e) w

  -- The inner loop: one secret definition, in each namespace.
  unfoldable pub create_in :
      String → String → Crypt → SecretDefinition → List String → World E → World E
  create_in key namespace crypt sec [] w = w
  create_in key namespace crypt sec (ns ∷ rest) w =
      create_in key namespace crypt sec rest
        (log_failure key namespace (create_secret E C sec crypt ns w))

  -- The outer loop: each secret definition.
  unfoldable pub create_all :
      String → String → Crypt → List SecretDefinition → List String → World E → World E
  create_all key namespace crypt [] matches w = w
  create_all key namespace crypt (sec ∷ rest) matches w =
      create_all key namespace crypt rest matches (create_in key namespace crypt sec matches w)

  abbrev pub record_event : Crypt → World E → World E
  record_event crypt w = record w { events = w.events ++ event ∷ [] }
    where
      event : Event
      event = record {
        object = crypt;
        type = event_type_normal;
        reason = success_synced;
        message = message_resource_synced;
      }

  -- The handler from the point where the Crypt was found.
  unfoldable pub sync_crypt : String → String → Crypt → World E → World E
  sync_crypt key namespace crypt w = record_event crypt (
      create_all key namespace crypt crypt.spec.secrets (namespace_matches crypt.spec.namespaces) w)

  -- The handler from the point where the cache was read. After an error of another kind than "not
  -- found" it reads `crypt.Spec` through a nil pointer.
  unfoldable pub sync_found :
      String → String → Outcome (Result Crypt) → World E → Outcome (Option Error) × World E
  sync_found key namespace panicked w = (panicked, w)
  sync_found key namespace (returned (err e)) w =
      if E.errors.is_not_found e
      then (returned none, report (no_longer_exists key) w)
      else (panicked, w)
  sync_found key namespace (returned (ok crypt)) w =
      (returned none, sync_crypt key namespace crypt w)

  -- `none` is the nil error.
  unfoldable pub sync_handler : String → World E → Outcome (Option Error) × World E
  unfolding sync_found
  sync_handler key w = elim (E.split_meta_namespace_key key) [
    | err e ↦ (returned none, report (invalid_resource_key key) w)
    | ok (namespace, name) ↦
        sync_found key namespace (get_in E.errors C.crypt_lister namespace name) w
  ]

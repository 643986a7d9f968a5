-- ===== src/Controller/Secrets.antt =====
-- controller/controller.go: `newSecret` and `createSecret`.
pub mod Requests
use crypt_controller.Base.{String, Bool, List, [], ◌∷◌, ◌++◌, if◌then◌else◌}
use crypt_controller.Base.Dict.{GoMap}
use crypt_controller.Base.Outcome.{Error, Result, ok, err}
use crypt_controller.Kube.{Bytes, Secret, GroupVersionKind}
use crypt_controller.Api.{
  Crypt, SecretDefinition, get_name, get_type, get_key, get_labels, get_annotations,
  scheme_group_version,
}
use crypt_controller.Store.{get_data}
use crypt_controller.Controller.{Env, Controller, World, Report, store_failure}

abbrev pub crypt_kind : GroupVersionKind
crypt_kind = record {
  group = scheme_group_version.group;
  version = scheme_group_version.version;
  kind = "Crypt";
}

abbrev pub report : {E : Env} → Report → World E → World E
report r w = record w { reports = w.reports ++ r ∷ [] }

module _ (E : Env) where
  unfoldable pub new_secret : GoMap Bytes → SecretDefinition → Crypt → String → Secret
  unfolding get_type
  new_secret payload secdef parent_crypt target_namespace = record {
    type_meta = record { kind = "Secret"; api_version = "v1" };
    meta = record {
      name = get_name secdef;
      namespace = target_namespace;
      uid = "";
      owner_references = E.new_controller_ref parent_crypt crypt_kind ∷ [];
      labels = get_labels secdef;
      annotations = get_annotations secdef;
    };
    type = get_type secdef;
    payload = payload;
  }

  -- What follows the request to create: an update, if the secret was there already.
  pub update_existing :
      String → Secret → Result Secret × E.secrets.State → Result Secret × E.secrets.State
  update_existing namespace secret (ok result, k) = (ok result, k)
  update_existing namespace secret (err e, k) =
      if E.errors.is_already_exists e then E.secrets.update namespace secret k else (err e, k)

  -- The part of `createSecret` that talks to the cluster.
  unfoldable pub put_secret : String → Secret → E.secrets.State → Result Secret × E.secrets.State
  unfolding update_existing
  put_secret namespace secret k =
      update_existing namespace secret (E.secrets.create namespace secret k)

  abbrev with_cluster : World E → Result Secret × E.secrets.State → Result Secret × World E
  with_cluster w (result, k) = (result, record w { cluster = k })

  unfoldable pub create_secret :
      Controller → SecretDefinition → Crypt → String → World E → Result Secret × World E
  create_secret C sec crypt namespace w = elim (C.store.get (get_key sec)) [
    | err e ↦ (err e, report (store_failure e) w)
    | ok obj ↦
        with_cluster w
          (put_secret namespace (new_secret (get_data obj) sec crypt namespace) w.cluster)
  ]

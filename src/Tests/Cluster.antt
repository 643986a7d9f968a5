-- ===== src/Tests/Cluster.antt =====
-- A cluster in memory: secrets by namespace and name, with namespaces that refuse requests, a work
-- queue that is shutting down, and the functions that the controller calls.
use Prim.Native.Char.{code}
use crypt_controller.Base.{
  String, ◌<>◌, Bool, true, false, ◌≡◌, refl, Option, none, some, List, [], ◌∷◌, ◌++◌, ◌&&◌, ◌||◌,
  arith, ◌==◌, ==_iff, nat_eq, string_eq, if◌then◌else◌, find, Option-cases, map, select, inl, inr,
  length,
}
use crypt_controller.Base.Outcome.{Error, external, Result, ok, err}
use crypt_controller.Kube.{Secret, OwnerReference, GroupVersionKind}
use crypt_controller.Api.{Crypt}
use crypt_controller.Any.{Any, crypt}
use crypt_controller.Lister.{Indexer, StatusErrors}
use crypt_controller.Controller.{WorkQueue, SecretApi, Env}
use crypt_controller.Controller.Secrets.Requests.{IsFaithful, Serves}
use crypt_controller.Controller.Threads.Sound.{IsHonest}
use crypt_controller.Controller.Handlers.SecretDelete.{IsOwnership}
use crypt_controller.Controller.Worker.Rounds.{Drains}

pub record Items : Type 0 where
  pub items : List Any
  pub done : List Any
  pub forgotten : List Any
  pub delayed : List Any

abbrev get_item : List Any → Items → Option (Any × Items)
get_item [] q = none
get_item (x ∷ rest) q = some (x, record q { items = rest })

abbrev pub draining_queue : WorkQueue
draining_queue = record {
  State = Items;
  get = λ q. get_item q.items q;
  done = λ x q. record q { done = q.done ++ x ∷ [] };
  forget = λ x q. record q { forgotten = q.forgotten ++ x ∷ [] };
  add_rate_limited = λ x q. record q { delayed = q.delayed ++ x ∷ [] };
  shut_down = λ q. q;
}

-- The secrets, by namespace and name.
abbrev pub Secrets : Type 0
Secrets = String → String → Option Secret

-- A namespace that refuses every request.
abbrev pub is_closed : String → Bool
is_closed ns = ns == "kube-system"

abbrev pub already_exists : Error
already_exists = external "AlreadyExists"

abbrev pub not_found : Error
not_found = external "NotFound"

abbrev pub forbidden : Error
forbidden = external "Forbidden"

abbrev put : String → Secret → Secrets → Secrets
put ns s k ns' n' = if ns' == ns && n' == s.meta.name then some s else k ns' n'

abbrev create : String → Secret → Secrets → Result Secret × Secrets
create ns s k =
    if is_closed ns
    then (err forbidden, k)
    else elim (k ns s.meta.name) [ none ↦ (ok s, put ns s k) | some old ↦ (err already_exists, k) ]

abbrev update : String → Secret → Secrets → Result Secret × Secrets
update ns s k =
    if is_closed ns
    then (err forbidden, k)
    else elim (k ns s.meta.name) [ none ↦ (err not_found, k) | some old ↦ (ok s, put ns s k) ]

abbrev pub secrets_in_memory : SecretApi
secrets_in_memory = record { State = Secrets; create = create; update = update; secret_at = λ k. k }

abbrev is_external : String → Error → Bool
is_external reason (external s) = s == reason
is_external reason _ = false

abbrev pub status_errors : StatusErrors
status_errors = record {
  new_not_found = λ r name. not_found;
  is_not_found = is_external "NotFound";
  is_already_exists = is_external "AlreadyExists";
}

abbrev pub join : Crypt → String
join c = c.meta.namespace <> "/" <> c.meta.name

abbrev key_of : Any → Result String
key_of (crypt c) = ok (join c)
key_of _ = err (external "object has no meta")

abbrev before_slash : String → String
before_slash String.[] = ""
before_slash (String.◌∷◌ c s) =
    let rest = before_slash s in if code c == b'/' then "" else String.◌∷◌ c rest

abbrev after_slash : String → String
after_slash String.[] = ""
after_slash (String.◌∷◌ c s) = let rest = after_slash s in if code c == b'/' then s else rest

abbrev controller_ref : Crypt → GroupVersionKind → OwnerReference
controller_ref c k = record {
  api_version = k.group <> "/" <> k.version;
  kind = k.kind;
  name = c.meta.name;
  uid = c.meta.uid;
  controller = true;
}

-- A pattern matches itself, and ".*" matches everything.
abbrev pub env : Env
env = record {
  workqueue = draining_queue;
  secrets = secrets_in_memory;
  errors = status_errors;
  match_string = λ p n. (p == n || p == ".*", none);
  meta_namespace_key = key_of;
  split_meta_namespace_key = λ key. ok (before_slash key, after_slash key);
  new_controller_ref = controller_ref;
  get_controller_of = λ s. find (λ r. r.controller) s.meta.owner_references;
  new_selector = λ _. true;
}

pub secrets_in_memory-IsFaithful : IsFaithful secrets_in_memory
secrets_in_memory-IsFaithful = record {
  create_other = λ ns s k ns' n' h. ground arith;
  update_other = λ ns s k ns' n' h. ground arith;
  create_stores = λ ns s r k e. ground (arith, ==_iff ns ns, ==_iff s.meta.name s.meta.name);
  update_stores = λ ns s r k e. ground (arith, ==_iff ns ns, ==_iff s.meta.name s.meta.name);
}

pub secrets_in_memory-IsHonest : IsHonest secrets_in_memory
secrets_in_memory-IsHonest = record {
  create_either = λ ns s k. ground (arith, ==_iff ns ns, ==_iff s.meta.name s.meta.name);
  update_either = λ ns s k. ground (arith, ==_iff ns ns, ==_iff s.meta.name s.meta.name);
}

-- Every namespace but the closed one is served.
pub env-Serves : (ns n : String) → is_closed ns ≡ false → Serves env ns n
env-Serves ns n h = record {
  create_served = λ s k e. elim (Option-cases (k ns s.meta.name)) [
    | inl free ↦ inl (s, ground (arith, h, free))
    | inr (old, taken) ↦ inr (already_exists, ground (arith, h, taken), refl)
  ];
  update_served = λ s k e named failed. (s, ground (arith, h, failed));
}

pub env-IsOwnership : IsOwnership env
env-IsOwnership = record {
  ref_kind = λ c k. refl;
  ref_name = λ c k. refl;
  ref_controls = λ c k. refl;
  controller_of_one = λ s r e h. ground arith;
}

pub env-Drains : Drains env (λ q. length q.items)
env-Drains = record {
  size-get = λ q q' x e. ground arith;
  size-done = λ x q. omega arith;
  size-forget = λ x q. omega arith;
}

abbrev pub as_objects : List Crypt → List Any
as_objects cs = map (λ c. crypt c) cs

abbrev pub found_or_none : Option Crypt → Option Any
found_or_none none = none
found_or_none (some c) = some (crypt c)

-- A cache of Crypts.
abbrev pub indexer_of : List Crypt → Indexer
indexer_of cs = record {
  get_by_key = λ key. ok (found_or_none (find (λ c. join c == key) cs));
  list_all = λ sel. (as_objects (select (λ c. sel c.meta.labels) cs), none);
  list_all_by_namespace =
      λ ns sel. (as_objects (select (λ c. c.meta.namespace == ns && sel c.meta.labels) cs), none);
}

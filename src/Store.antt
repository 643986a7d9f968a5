-- ===== src/Store.antt =====
-- pkg/store/store.go: what a secret source is, and the objects that it holds. The four sources and
-- the factory are the child modules.
pub mod Memory
pub mod Empty
pub mod Consul
pub mod Vault
pub mod Factory
pub mod Contract
use crypt_controller.Base.{String, List, [], Option, none, some}
use crypt_controller.Base.Dict.{GoMap, Entries}
use crypt_controller.Base.Outcome.{Result}
use crypt_controller.Kube.{Bytes}

-- `nil` is `none`.
abbrev pub Object : Type 0
Object = GoMap Bytes

pub record Store : Type 0 where
  pub get : String → Result Object

-- Never nil.
unfoldable pub get_data : Object → GoMap Bytes
get_data none = some []
get_data (some o) = some o

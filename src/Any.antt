-- ===== src/Any.antt =====
-- Values of the Go type `interface{}`: what informers, queues and decoders hand over, and the type
-- assertions that the code makes on them.
use crypt_controller.Base.{String, Option, none, some}
use crypt_controller.Kube.{Bytes, Secret, Namespace}
use crypt_controller.Api.{Crypt}

pub data Any : Type 0 where
  nothing : Any
  text : String → Any
  bytes : Bytes → Any
  crypt : Crypt → Any
  secret : Secret → Any
  namespace : Namespace → Any
  -- `cache.DeletedFinalStateUnknown{Key, Obj}`
  deleted_final_state_unknown : String → Any → Any
  -- A value of any other dynamic type, by the name of that type.
  other : String → Any

abbrev pub as_text : Any → Option String
as_text (text s) = some s
as_text _ = none

abbrev pub as_bytes : Any → Option Bytes
as_bytes (bytes b) = some b
as_bytes _ = none

abbrev pub as_crypt : Any → Option Crypt
as_crypt (crypt c) = some c
as_crypt _ = none

abbrev pub as_secret : Any → Option Secret
as_secret (secret s) = some s
as_secret _ = none

abbrev pub as_namespace : Any → Option Namespace
as_namespace (namespace n) = some n
as_namespace _ = none

-- `obj.(cache.DeletedFinalStateUnknown)`, with its field `Obj`.
abbrev pub as_tombstone : Any → Option Any
as_tombstone (deleted_final_state_unknown key obj) = some obj
as_tombstone _ = none

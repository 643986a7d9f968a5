-- ===== src/Store/Memory.antt =====
-- pkg/store/memory/memory.go
use crypt_controller.Base.{String, none, some}
use crypt_controller.Base.Dict.{GoMap, index}
use crypt_controller.Base.Outcome.{Result, ok, err, key_not_found}
use crypt_controller.Store.{Object, Store}

unfoldable pub get : GoMap Object → String → Result Object
unfolding index
get m key = elim (index m key) [ none ↦ err key_not_found | some v ↦ ok v ]

unfoldable pub new : GoMap Object → Result Store
new m = ok (record { get = get m })

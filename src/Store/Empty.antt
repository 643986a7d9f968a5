-- ===== src/Store/Empty.antt =====
-- pkg/store/empty/empty.go
use crypt_controller.Base.{String}
use crypt_controller.Base.Outcome.{Result, ok, err, key_not_found}
use crypt_controller.Store.{Object, Store}

unfoldable pub get : String → Result Object
get key = err key_not_found

unfoldable pub new : Result Store
new = ok (record { get = get })

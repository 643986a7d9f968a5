-- ===== src/Informers/Reads.antt =====
-- What the informer of the Crypts reads (NewFilteredCryptInformer of
-- pkg/client/informers/externalversions/crypt/v1alpha1/crypt.go).
use crypt_controller.Base.{String, true, ◌≡◌, refl, none, some}
use crypt_controller.Client.{ListOptions, timeout_of, list, watch, request}
use crypt_controller.Client.Served.{Server, rest_of, collection}
use crypt_controller.Informers.{Tweak, crypt_list_watch}

-- The options that a tweak makes of others; without one they stay.
abbrev pub options_by : Tweak → ListOptions → ListOptions
options_by none opts = opts
options_by (some tweak) opts = tweak opts

-- Over any server that reads requests as in Client.Served, the informer lists and watches the
-- collection of Crypts of its namespace, with the options that its tweak makes of those that it is given, and with
-- their timeout; for the watch the option to watch is set after that.
pub crypt_list_watch-served :
    (S : Server) (ns : String) (tweak : Tweak) (opts : ListOptions)
    → ((crypt_list_watch (rest_of S) ns tweak).list_func opts
        ≡ S.items ns (
            collection
              (options_by tweak opts)
              (timeout_of (options_by tweak opts).timeout_seconds)))
      × ((crypt_list_watch (rest_of S) ns tweak).watch_func opts
          ≡ S.open_watch ns (
              collection
                (record (options_by tweak opts) { watch = true })
                (timeout_of (options_by tweak opts).timeout_seconds)))
unfolding crypt_list_watch list watch request timeout_of
crypt_list_watch-served S ns none opts = (refl, refl)
crypt_list_watch-served S ns (some tweak) opts = (refl, refl)

-- ===== src/Controller/Recovery.antt =====
-- From a change of a Crypt to the secrets that follow it: its handlers, the queue, a worker's round and
-- `syncHandler` of controller/controller.go together.
use crypt_controller.Base.{or_keep, String, true, ◌≡◌, refl, ap, ◌∙◌, Option, none, some, string_eq}
use crypt_controller.Base.Outcome.{Error, ok, Outcome, returned, panicked}
use crypt_controller.Api.{Crypt}
use crypt_controller.Any.{Any, text, crypt}
use crypt_controller.Lister.{get_in}
use crypt_controller.Controller.{Env, Controller, World}
use crypt_controller.Controller.Secrets.Requests.{IsFaithful, Serves}
use crypt_controller.Controller.Sync.{sync_handler}
use crypt_controller.Controller.Sync.Effect.{wanted, held, sync_handler-wanted}
use crypt_controller.Controller.Worker.{enqueue_crypt, finish, process, process_next_work_item}
use crypt_controller.Controller.Start.{Change, added, updated, of_crypts, notify}

-- A key stands for a Crypt: it is the one that the Crypt is queued under, and its two parts are those
-- that the Crypt is looked up by.
pub record IsKeyOf (E : Env) (c : Crypt) (key : String) : Type 0 where
  pub made : E.meta_namespace_key (crypt c) ≡ ok key
  pub parted : E.split_meta_namespace_key key ≡ ok (c.meta.namespace, c.meta.name)

-- What the informer tells of a Crypt that is there: it was added, or it took the place of another object.
pub data IsNewsOf (c : Crypt) : Change → Type 0 where
  appeared : IsNewsOf c (added (crypt c))
  changed : (old : Any) → IsNewsOf c (updated old (crypt c))

module _ (E : Env) where
  enqueue_crypt-key :
      (c : Crypt) (key : String) (w : World E)
      → IsKeyOf E c key
      → enqueue_crypt E (crypt c) w
        ≡ record w { queue = E.workqueue.add_rate_limited (text key) w.queue }
  unfolding enqueue_crypt
  enqueue_crypt-key c key w k = rw (k.made, enqueue_crypt) refl

  -- The end of a round without an error changes no secret.
  finish-held :
      (C : Controller) (key ns n : String) (r : Outcome (Option Error) × World E)
      → r.0 ≡ returned none
      → ((finish E key r).0 ≡ returned true)
        × (held E C (finish E key r).1 ns n ≡ held E C r.1 ns n)
  unfolding finish
  finish-held C key ns n (panicked, w) e = cc
  finish-held C key ns n (returned none, w) e = (refl, refl)
  finish-held C key ns n (returned (some x), w) e = cc

  module _ (C : Controller) (F : IsFaithful E.secrets) where
    -- The round that takes the key of a cached Crypt brings about what the Crypt asks for.
    round-wanted :
        (now : Crypt) (key at name ns n : String) (w : World E) (q : E.workqueue.State)
        → E.split_meta_namespace_key key ≡ ok (at, name)
        → E.workqueue.get w.queue ≡ some (text key, q)
        → get_in E.errors C.crypt_lister at name ≡ returned (ok now)
        → Serves E ns n
        → ((process_next_work_item E C w).0 ≡ returned true)
          × (held E C (process_next_work_item E C w).1 ns n
              ≡ or_keep (wanted E C now ns n) (held E C w ns n))
    unfolding process_next_work_item process
    round-wanted now key at name ns n w q parted taken cached v =
        let synced =
          sync_handler-wanted E C F key at name ns n now (record w { queue = q }) parted cached v in
        let ends =
          finish-held C key ns n (sync_handler E C key (record w { queue = q })) synced.0 in
        rw (taken, process_next_work_item) (ends.0, ends.1 ∙ synced.1)

  -- The handlers run over the caches of `C`, the worker's round later over those of `D`.
  module _ (C D : Controller) (F : IsFaithful E.secrets) where
    -- Requests act on the secret that they name and no other. A Crypt is added, or changes. Then its key
    -- is put on the queue, and the round that takes the key, if the Crypt is in the cache, as it is by
    -- then, and requests about the secret `n` of `ns` are served, goes on and leaves the secret that the
    -- Crypt asks for there, or what was there if it asks for none.
    pub notify-process_next_work_item :
        (c now : Crypt) (change : Change) (key ns n : String) (w v : World E)
        (q : E.workqueue.State)
        → IsNewsOf c change
        → IsKeyOf E c key
        → E.workqueue.get v.queue ≡ some (text key, q)
        → get_in E.errors D.crypt_lister c.meta.namespace c.meta.name ≡ returned (ok now)
        → Serves E ns n
        → (notify E C (of_crypts change) w
            ≡ returned (record w { queue = E.workqueue.add_rate_limited (text key) w.queue }))
          × (((process_next_work_item E D v).0 ≡ returned true)
              × (held E D (process_next_work_item E D v).1 ns n
                  ≡ or_keep (wanted E D now ns n) (held E D v ns n)))
    unfolding notify
    notify-process_next_work_item c now change key ns n w v q news k taken there served = (
      told change news,
      round-wanted D F now key c.meta.namespace c.meta.name ns n v q k.parted taken there served,
    )
      where
        told :
            (change : Change)
            → IsNewsOf c change
            → notify E C (of_crypts change) w
              ≡ returned (record w { queue = E.workqueue.add_rate_limited (text key) w.queue })
        told change appeared = ap returned (enqueue_crypt-key c key w k)
        told change (changed old) = ap returned (enqueue_crypt-key c key w k)

-- ===== src/Main/Calm.antt =====
-- That no panic ends the process of main.go, where the informers' caches hold Crypts.
use mathlib.Core.Option.{some-injective}
use crypt_controller.Base.{
  ℕ, Bool, true, false, ◌≡◌, refl, subst, some, List, [], ◌∷◌, All, any, arith,
}
use crypt_controller.Controller.{Env, Controller, World}
use crypt_controller.Controller.Start.Typed.{HoldsCrypts, KnowsNotFound, Returns, notify-Returns}
use crypt_controller.Controller.Threads.{
  Thread, idle, syncing, ended as thread_ended, crashed as thread_crashed, System,
}
use crypt_controller.Controller.Threads.Typed.{IsUp, Reach-IsUp, launch-IsUp}
use crypt_controller.Main.{Attempt}
use crypt_controller.Main.Process.{
  Ending, killed, exited, crashed, fell, is_crashed, Phase, setting_up, waiting, serving, ended,
  system_of, IsPanicking, in_worker, in_handler, Moves,
}
use crypt_controller.Main.Endings.{
  IsSoundPhase, IsDue, kills, serves_out, cuts_off, gives_up, not_synced, falls, Moves-IsSound,
}

-- Whether a process has ended by a panic.
abbrev pub is_panic : Ending → Bool
is_panic crashed = true
is_panic fell = true
is_panic (killed sig) = false
is_panic (exited c) = false

is_crashed-IsUp : (t : Thread) → IsUp t → is_crashed t ≡ false
is_crashed-IsUp thread_crashed up = absurd up
is_crashed-IsUp idle up = refl
is_crashed-IsUp thread_ended up = refl
is_crashed-IsUp (syncing key namespace crypt tasks) up = refl

none_crashed : (ts : List Thread) → All IsUp ts → any is_crashed ts ≡ false
none_crashed [] up = refl
none_crashed (t ∷ ts) (up, later) = ground (arith, is_crashed-IsUp t up, none_crashed ts later)

module _ (E : Env) (K : KnowsNotFound E.errors) (Sees : Controller → Type 0)
    (typed : (C : Controller) → Sees C → HoldsCrypts E.errors C.crypt_lister)
    (Others : E.secrets.State → E.secrets.State → Type 0)
    (Passes : E.workqueue.State → E.workqueue.State → Type 0) {A : Type 1} (setup : Attempt A)
    (first : World E) where
  up_is_calm : (s : System E) → All IsUp s.threads → IsPanicking E Sees s → ⊥
  up_is_calm s up (in_worker some_crashed) = ground (arith, some_crashed, none_crashed s.threads up)
  up_is_calm s up (in_handler C n seen panics) =
      subst (Returns E K) panics (notify-Returns E K C (typed C seen) n s.world)

  phase-IsUp :
      (phase : Phase E) (s : System E)
      → IsSoundPhase E setup first Sees Others Passes phase
      → system_of E phase ≡ some s
      → All IsUp s.threads
  phase-IsUp setting_up s sound e = cc
  phase-IsUp (waiting w) s sound e =
      subst (λ (u : System E). All IsUp u.threads) (some-injective _ _ e)
        (Reach-IsUp E K Sees typed Others Passes tt sound)
  phase-IsUp (serving t) s (w, s₀, waited, launched, reach) e =
      subst (λ (u : System E). All IsUp u.threads) (some-injective _ _ e)
        (Reach-IsUp E K Sees typed Others Passes
          (launch-IsUp E K Sees typed Others Passes 3 true w s₀ launched) reach)

  IsDue-calm :
      (n a : ℕ) (x : Ending) → IsDue E setup first Sees Others Passes n a x → is_panic x ≡ false
  IsDue-calm n a x (kills sig h) = refl
  IsDue-calm n a x (serves_out s h served) = refl
  IsDue-calm n a x (cuts_off h) = refl
  IsDue-calm n a x (gives_up f e) = refl
  IsDue-calm n a x (not_synced w h waited) = refl
  IsDue-calm n a x (falls phase s sound e panics) =
      absurd (up_is_calm s (phase-IsUp phase s sound e) panics)

  -- Where every cache that is ever seen holds only Crypts and can be read, and IsNotFound knows the
  -- errors that NewNotFound makes, the process never ends by a panic, of a worker, of a handler, or of a
  -- second close of the stop channel, whatever the order of set-up, signals, handlers, workers and time.
  pub Moves-calm :
      (n a : ℕ) (x : Ending)
      → Moves E setup first Sees Others Passes n a (ended x)
      → is_panic x ≡ false
  Moves-calm n a x moves =
      IsDue-calm n a x (Moves-IsSound E setup first Sees Others Passes n a (ended x) moves)

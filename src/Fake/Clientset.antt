-- ===== src/Fake/Clientset.antt =====
-- NewSimpleClientset of pkg/client/clientset/versioned/fake/clientset_generated.go. The object tracker
-- of client-go is a parameter.
use crypt_controller.Base.{String, Bool, true, false, Option, none, some, List, [], ◌∷◌}
use crypt_controller.Base.Outcome.{Error, Result, ok, err, Outcome, returned, panicked}
use crypt_controller.Informers.Crypts.{GroupVersionResource}
use crypt_controller.Fake.{Object, Action, Reactors, FakeCrypts}

pub record Trackers : Type 1 where
  pub Tracker : Type 0
  pub Watch : Type 0
  pub new_object_tracker : Tracker
  pub add : Object → Tracker → Result Tracker
  pub watch : GroupVersionResource → String → Tracker → Result Watch
  -- `ObjectReaction` as the reactor to every action, with a reactor to every watch action, which says
  -- whether it has handled it.
  pub reacting :
      (Action → Tracker → Bool × Option Watch × Option Error) → Tracker → (F : Reactors) × F.State

module _ (T : Trackers) where
  -- The loop of `NewSimpleClientset`.
  unfoldable pub add_each : List Object → T.Tracker → Outcome T.Tracker
  add_each [] o = returned o
  add_each (obj ∷ objects) o = elim (T.add obj o) [ err e ↦ panicked | ok o' ↦ add_each objects o' ]

  -- The reactor that is given to `AddWatchReactor`.
  abbrev pub watch_reaction : Action → T.Tracker → Bool × Option T.Watch × Option Error
  watch_reaction action o = elim (T.watch action.resource action.namespace o) [
    | err e ↦ (false, none, some e)
    | ok w ↦ (true, some w, none)
  ]

  pub record Clientset : Type 1 where
    pub fake : Reactors
    pub state : fake.State

  abbrev clientset_of : (F : Reactors) × F.State → Clientset
  clientset_of (F, s) = record { fake = F; state = s }

  unfoldable pub new_simple_clientset : List Object → Outcome Clientset
  new_simple_clientset objects = elim (add_each objects T.new_object_tracker) [
    | panicked ↦ panicked
    | returned o ↦ returned (clientset_of (T.reacting watch_reaction o))
  ]

  -- `CoreV1alpha1().Crypts(namespace)`
  abbrev pub crypts : (cs : Clientset) → String → FakeCrypts cs.fake
  crypts cs namespace = record { ns = namespace }

-- ===== src/Controller/Start.antt =====
-- controller/controller.go: the handlers that `New` registers with the informers, the recorder that
-- it settles on, and the shutdown of `Run`.
pub mod Notices
pub mod Recorder
pub mod Typed
use mathlib.Core.List.{foldl}
use crypt_controller.Base.{ℕ, Bool, true, false, Option, none, some, List, [], ◌∷◌, String}
use crypt_controller.Base.Outcome.{Error, external, Outcome, returned, panicked}
use crypt_controller.Any.{Any}
use crypt_controller.Controller.{Env, Controller, World}
use crypt_controller.Controller.Worker.{enqueue_crypt}
use crypt_controller.Controller.Handlers.{handle_namespace_add, handle_secret_delete}

-- The options of `New` act on the fields that the package lets them set: the recorder.
pub record Settings (R : Type 0) : Type 0 where
  pub recorder : Option R

abbrev pub Setting : Type 0 → Type 0
Setting R = Settings R → Settings R

abbrev pub component_name : String
component_name = "crypt-controller"

-- What `setDefaultRecorder` calls on a broadcaster; `Sink` stands for the events of a clientset.
pub data BroadcasterCall (Sink : Type 0) : Type 0 where
  start_logging : BroadcasterCall Sink
  start_recording_to_sink : Sink → BroadcasterCall Sink
  new_recorder : (component : String) → BroadcasterCall Sink

module _ {R : Type 0} where
  abbrev pub with_event_recorder : R → Setting R
  with_event_recorder r c = record c { recorder = some r }

  -- The options in turn.
  abbrev pub apply_options : List (Setting R) → Settings R → Settings R
  apply_options opts c = foldl (λ c opt. opt c) c opts

  -- `recorder_of`: the recorder that a broadcaster makes for a component.
  module _ {Sink : Type 0} (recorder_of : String → R) (sink : Sink) where
    abbrev pub set_default_recorder : Settings R → Settings R × List (BroadcasterCall Sink)
    set_default_recorder c = (
      record c { recorder = some (recorder_of component_name) },
      start_logging ∷ start_recording_to_sink sink ∷ new_recorder component_name ∷ [],
    )

    abbrev pub or_default : Settings R → Settings R × List (BroadcasterCall Sink)
    or_default c = elim c.recorder [ none ↦ set_default_recorder c | some r ↦ (c, []) ]

    -- The recorder that `New` comes to, with the calls on a broadcaster.
    unfoldable pub settle : List (Setting R) → Settings R × List (BroadcasterCall Sink)
    settle opts = or_default (apply_options opts (record { recorder = none }))

-- What an informer tells of: the objects of `OnAdd`, `OnUpdate` and `OnDelete`.
pub data Change : Type 0 where
  added : Any → Change
  updated : Any → Any → Change
  deleted : Any → Change

pub data Notice : Type 0 where
  of_crypts of_secrets of_namespaces : Change → Notice

module _ (E : Env) where
  -- `cache.ResourceEventHandlerFuncs`, a nil function being `none`.
  pub record HandlerFuncs : Type 1 where
    pub add_func : Option (Controller → Any → World E → Outcome (World E))
    pub update_func : Option (Controller → Any → Any → World E → Outcome (World E))
    pub delete_func : Option (Controller → Any → World E → Outcome (World E))

  abbrev pub crypt_handlers : HandlerFuncs
  crypt_handlers = record {
    add_func = some (λ C obj w. returned (enqueue_crypt E obj w));
    update_func = some (λ C old new w. returned (enqueue_crypt E new w));
    delete_func = none;
  }

  abbrev pub secret_handlers : HandlerFuncs
  secret_handlers = record {
    add_func = none;
    update_func = none;
    delete_func = some (handle_secret_delete E);
  }

  abbrev pub namespace_handlers : HandlerFuncs
  namespace_handlers = record {
    add_func = some (handle_namespace_add E);
    update_func = none;
    delete_func = none;
  }

  -- A change to the function registered for it, if there is one.
  abbrev call : HandlerFuncs → Controller → Change → World E → Outcome (World E)
  call h C (added obj) w = elim h.add_func [ none ↦ returned w | some f ↦ f C obj w ]
  call h C (updated old new) w = elim h.update_func [ none ↦ returned w | some f ↦ f C old new w ]
  call h C (deleted obj) w = elim h.delete_func [ none ↦ returned w | some f ↦ f C obj w ]

  unfoldable pub notify : Controller → Notice → World E → Outcome (World E)
  notify C (of_crypts change) w = call crypt_handlers C change w
  notify C (of_secrets change) w = call secret_handlers C change w
  notify C (of_namespaces change) w = call namespace_handlers C change w

  -- The deferred `ShutDown`, on both ways out.
  unfoldable pub stop : World E → World E
  stop w = record w { queue = E.workqueue.shut_down w.queue }

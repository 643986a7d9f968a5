-- ===== src/Controller/Start/Recorder.antt =====
-- The recorder of events that `New` of controller/controller.go comes to.
use crypt_controller.Base.{String, ◌≡◌, refl, ap, ◌∙◌, Option, none, some, List, [], ◌∷◌, map}
use crypt_controller.Controller.Start.{
  with_event_recorder, apply_options, settle, BroadcasterCall, start_logging,
  start_recording_to_sink, new_recorder, component_name, or_default,
}

module _ {R Sink : Type 0} (recorder_of : String → R) (sink : Sink) where
  -- The last of some recorders, or else the given one.
  abbrev pub last_of : Option R → List R → Option R
  last_of r [] = r
  last_of r (x ∷ xs) = last_of (some x) xs

  -- Without a recorder a broadcaster for the controller's own component logs and records to the
  -- cluster's events; with one there is no broadcaster.
  abbrev pub broadcast : Option R → R × List (BroadcasterCall Sink)
  broadcast none = (
    recorder_of component_name,
    start_logging ∷ start_recording_to_sink sink ∷ new_recorder component_name ∷ [],
  )
  broadcast (some r) = (r, [])

  apply_options-last_of :
      (rs : List R) (r : Option R)
      → apply_options (map with_event_recorder rs) (record { recorder = r })
        ≡ record { recorder = last_of r rs }
  apply_options-last_of [] r = refl
  apply_options-last_of (x ∷ xs) r = apply_options-last_of xs (some x)

  -- Of the recorders that the options give, `New` takes the last, and it makes one with a broadcaster
  -- just where they give none.
  pub settle-last_of :
      (rs : List R)
      → settle recorder_of sink (map with_event_recorder rs) ≡ (
        record { recorder = some (broadcast (last_of none rs)).0 },
        (broadcast (last_of none rs)).1,
      )
  unfolding settle
  settle-last_of rs =
      ap (or_default recorder_of sink) (apply_options-last_of rs none) ∙ decided (last_of none rs)
    where
      decided :
          (r : Option R)
          → or_default recorder_of sink (record { recorder = r })
            ≡ (record { recorder = some (broadcast r).0 }, (broadcast r).1)
      decided none = refl
      decided (some r) = refl

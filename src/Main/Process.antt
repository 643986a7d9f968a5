-- ===== src/Main/Process.antt =====
-- The process of main.go: `main`, the goroutine that waits for signals, and the world, in any order.
-- What the workers do while `main` waits in `Run` are steps of the module Controller.Threads.
use crypt_controller.Base.{ℕ, ◌+◌, Bool, true, false, ◌≡◌, [], Option, none, some, any}
use crypt_controller.Controller.{Env, Controller, World}
use crypt_controller.Base.Outcome.{panicked}
use crypt_controller.Controller.Start.{Notice, notify}
use crypt_controller.Controller.Threads.{
  Thread, crashed as thread_crashed, System, Launch, failed, running, launch, Step,
}
use crypt_controller.Main.{Attempt, ready, fatal}

-- The signals that `signal.Notify` is given.
pub data Signal : Type 0 where
  sigterm sigquit sigint : Signal

-- Where the goroutine is: before `signal.Notify`, before the first receive, at it, before
-- `close(stop)`, before the second receive, at it.
pub data Listener : Type 0 where
  unregistered registered at_first before_close before_second at_second : Listener

-- How a process ends. `log.Fatal` exits with 255.
pub data Ending : Type 0 where
  killed : Signal → Ending
  exited : ℕ → Ending
  -- by closing a closed channel
  crashed : Ending
  -- by a panic of a worker or a handler
  fell : Ending

abbrev pub is_crashed : Thread → Bool
is_crashed thread_crashed = true
is_crashed _ = false

module _ (E : Env) where
  -- Where `main` is: before `Run`, in its wait for the caches, in its wait for the stop signal.
  pub data Phase : Type 0 where
    setting_up : Phase
    waiting : World E → Phase
    serving : System E → Phase

  pub record Process : Type 0 where
    pub listener : Listener
    pub stop_closed : Bool
    -- `timeoutChan` of `Run`
    pub wait_over : Bool
    pub phase : Phase

  pub data State : Type 0 where
    alive : Process → State
    ended : Ending → State

  -- No workers yet.
  abbrev pub alone : World E → System E
  alone w = record { threads = []; world = w }

  -- The workers and the world that `main` has by then.
  abbrev pub system_of : Phase → Option (System E)
  system_of setting_up = none
  system_of (waiting w) = some (alone w)
  system_of (serving s) = some s

  -- A worker has panicked, or a handler that is called does.
  pub data IsPanicking (Sees : Controller → Type 0) (s : System E) : Type 1 where
    in_worker : any is_crashed s.threads ≡ true → IsPanicking Sees s
    in_handler :
        (C : Controller) (n : Notice)
        → Sees C
        → notify E C n s.world ≡ panicked
        → IsPanicking Sees s

  abbrev pub new_process : Process
  new_process = record {
    listener = unregistered;
    stop_closed = false;
    wait_over = false;
    phase = setting_up;
  }

  -- `close(stop)`
  abbrev pub close_stop : Bool → Process → State
  close_stop true p = ended crashed
  close_stop false p = alive (record p { listener = before_second; stop_closed = true })

  -- The goroutine gets on by itself.
  abbrev pub listen_from : Listener → Process → State
  listen_from unregistered p = alive (record p { listener = registered })
  listen_from registered p = alive (record p { listener = at_first })
  listen_from before_close p = close_stop p.stop_closed p
  listen_from before_second p = alive (record p { listener = at_second })
  listen_from at_first p = alive p
  listen_from at_second p = alive p

  unfoldable pub listen : Process → State
  listen p = listen_from p.listener p

  -- A signal: it kills a process that has not asked for it; the channel has no room, so that it is
  -- dropped unless the goroutine is at a receive.
  abbrev pub signal_at : Listener → Signal → Process → State
  signal_at unregistered sig p = ended (killed sig)
  signal_at at_first sig p = alive (record p { listener = before_close })
  signal_at at_second sig p = ended (exited 1)
  signal_at registered sig p = alive p
  signal_at before_close sig p = alive p
  signal_at before_second sig p = alive p

  unfoldable pub signal : Signal → Process → State
  signal sig p = signal_at p.listener sig p

  -- `main` has come to `Run`, or gives up.
  unfoldable pub enter_run {ℓ} : {A : Type ℓ} → Attempt A → World E → Process → State
  enter_run (ready parts) w p = alive (record p { phase = waiting w })
  enter_run (fatal x) w p = ended (exited 255)

  abbrev pub launched : Launch E → Process → State
  launched (failed e w) p = ended (exited 255)
  launched (running s) p = alive (record p { phase = serving s })

  -- `Run(3, stop)` at the end of its wait for the caches.
  unfoldable pub caches_waited : (synced : Bool) → World E → Process → State
  caches_waited synced w p = launched (launch E 3 synced w) p

  -- `setup`: what becomes of the flags. `first`: the world as `New` makes it.
  module _ {A : Type 1} (setup : Attempt A) (first : World E) (Sees : Controller → Type 0)
      (Others : E.secrets.State → E.secrets.State → Type 0)
      (Passes : E.workqueue.State → E.workqueue.State → Type 0) where
    -- A move, with the number of signals, and of timers of `Run` that run out, that it brings.
    pub data Move (p : Process) : ℕ → ℕ → State → Type 1 where
      hear : Move p 0 0 (listen p)
      interrupt : (sig : Signal) → Move p 1 0 (signal sig p)
      set : p.phase ≡ setting_up → Move p 0 0 (enter_run setup first p)
      -- Handlers are called, and time passes, before the workers are there.
      notice :
          (w : World E) (s : System E)
          → p.phase ≡ waiting w
          → Step E Sees Others Passes (alone w) s
          → Move p 0 0 (alive (record p { phase = waiting s.world }))
      -- The goroutine of `Run` closes `timeoutChan`: the five minutes are over, or `stop` is closed.
      time_out :
          (w : World E) → p.phase ≡ waiting w → Move p 0 1 (alive (record p { wait_over = true }))
      stop_wait :
          (w : World E)
          → p.phase ≡ waiting w
          → p.stop_closed ≡ true
          → Move p 0 0 (alive (record p { wait_over = true }))
      -- `WaitForCacheSync` finds the caches in sync, or the channel closed.
      synced : (w : World E) → p.phase ≡ waiting w → Move p 0 0 (caches_waited true w p)
      wait_ended :
          (w : World E)
          → p.phase ≡ waiting w
          → p.wait_over ≡ true
          → Move p 0 0 (caches_waited false w p)
      serve :
          (s s' : System E)
          → p.phase ≡ serving s
          → Step E Sees Others Passes s s'
          → Move p 0 0 (alive (record p { phase = serving s' }))
      -- HandleCrash reports a panic and panics again.
      fall :
          (s : System E) → system_of p.phase ≡ some s → IsPanicking Sees s → Move p 0 0 (ended fell)
      -- `Run` has seen the closed channel, and `main` returns.
      leave :
          (s : System E)
          → p.phase ≡ serving s
          → p.stop_closed ≡ true
          → Move p 0 0 (ended (exited 0))

    -- Moves in a row from the start of the process, with the signals and the timers.
    pub data Moves : ℕ → ℕ → State → Type 1 where
      begun : Moves 0 0 (alive new_process)
      then_move :
          {m n a b : ℕ} {p : Process} {st : State}
          → Moves m a (alive p)
          → Move p n b st
          → Moves (m + n) (a + b) st

-- ===== src/Main/Endings.antt =====
-- How the process of main.go ends, and what the controller that it runs can have come to.
use crypt_controller.Base.{ℕ, ◌+◌, ◌≤◌, Bool, true, false, ◌≡◌, refl, sym, ◌∙◌, subst, arith, some}
use mathlib.Core.Path.{subst₂}
use crypt_controller.Controller.{Env, Controller, World}
use crypt_controller.Controller.Threads.{
  System, running, launch, Step, work, tell, meddle, pass, Reach, here, next,
}
use crypt_controller.Informers.Runs.{one_if}
use crypt_controller.Main.{Fatal, Attempt, ready, fatal}
use crypt_controller.Main.Process.{
  Signal, Listener, unregistered, registered, at_first, before_close, before_second, at_second,
  Ending, killed, exited, fell, IsPanicking, system_of, Phase, setting_up, waiting, serving,
  Process, State, alive, ended, alone, listen_from, signal_at, listen, signal, launched, enter_run,
  caches_waited, Move, hear, interrupt, set, notice, time_out, stop_wait, synced, wait_ended, serve,
  fall, leave, Moves, begun, then_move,
}

-- The signals that the goroutine has received.
abbrev received : Listener → ℕ
received unregistered = 0
received registered = 0
received at_first = 0
received _ = 1

-- Whether it is past `close(stop)`.
abbrev pub past_close : Listener → Bool
past_close before_second = true
past_close at_second = true
past_close _ = false

module _ (E : Env) {A : Type 1} (setup : Attempt A) (first : World E) (Sees : Controller → Type 0)
    (Others : E.secrets.State → E.secrets.State → Type 0)
    (Passes : E.workqueue.State → E.workqueue.State → Type 0) where
  -- What handlers, time and other clients can have made of the first world.
  abbrev pub IsWaited : World E → Type 1
  IsWaited w = Reach E Sees Others Passes (alone E first) (alone E w)

  -- What three workers, started on such a world, can have come to.
  abbrev pub IsServed : System E → Type 1
  IsServed s =
      (w : World E) × (s₀ : System E) × IsWaited w
      × (launch E 3 true w ≡ running s₀)
      × Reach E Sees Others Passes s₀ s

  abbrev pub IsSoundPhase : Phase E → Type 1
  IsSoundPhase setting_up = Unit
  IsSoundPhase (waiting w) = IsWaited w
  IsSoundPhase (serving s) = IsServed s

  -- The ways to end, each with the signals that it takes. `n` signals and `a` timers of `Run` so far.
  pub data IsDue (n a : ℕ) : Ending → Type 1 where
    kills : (sig : Signal) → 1 ≤ n → IsDue n a (killed sig)
    serves_out : (s : System E) → 1 ≤ n → IsServed s → IsDue n a (exited 0)
    cuts_off : 2 ≤ n → IsDue n a (exited 1)
    gives_up : (x : Fatal) → setup ≡ fatal x → IsDue n a (exited 255)
    falls :
        (phase : Phase E) (s : System E)
        → IsSoundPhase phase
        → system_of E phase ≡ some s
        → IsPanicking E Sees s
        → IsDue n a fell
    not_synced : (w : World E) → 1 ≤ n + a → IsWaited w → IsDue n a (exited 255)

  -- `l`: where the goroutine of `p` is.
  pub record IsSoundAt (n a : ℕ) (l : Listener) (p : Process E) : Type 1 where
    enough : received l ≤ n
    pub closed : p.stop_closed ≡ past_close l
    over : one_if p.wait_over ≤ n + a
    pub phase_sound : IsSoundPhase p.phase

  abbrev pub IsSound : ℕ → ℕ → State E → Type 1
  IsSound n a (alive p) = IsSoundAt n a p.listener p
  IsSound n a (ended x) = IsDue n a x

  unmoved :
      (n a : ℕ) (l : Listener) (p : Process E)
      → p.listener ≡ l
      → IsSoundAt n a l p
      → IsSoundAt n a p.listener p
  unmoved n a l p there k = subst (λ x. IsSoundAt n a x p) (sym there) k

  -- A process of which only the place of the goroutine has changed.
  moved :
      (n a : ℕ) (l l' : Listener) (p : Process E) (closed : Bool)
      → IsSoundAt n a l p
      → received l' ≤ n
      → closed ≡ past_close l'
      → IsSoundAt n a l' (record p { listener = l'; stop_closed = closed })
  moved n a l l' p c k enough closed = record {
    enough = enough;
    closed = closed;
    over = k.over;
    phase_sound = k.phase_sound;
  }

  listen_from-IsSound :
      (n a : ℕ) (l : Listener) (p : Process E)
      → p.listener ≡ l
      → IsSoundAt n a l p
      → IsSound n a (listen_from E l p)
  listen_from-IsSound n a unregistered p there k = moved n a _ registered p _ k k.enough k.closed
  listen_from-IsSound n a registered p there k = moved n a _ at_first p _ k k.enough k.closed
  listen_from-IsSound n a at_first p there k = unmoved n a at_first p there k
  listen_from-IsSound n a before_close p there k =
      rw k.closed (moved n a _ before_second p true k k.enough refl)
  listen_from-IsSound n a before_second p there k = moved n a _ at_second p _ k k.enough k.closed
  listen_from-IsSound n a at_second p there k = unmoved n a at_second p there k

  -- More signals and timers do no harm.
  later :
      (n a m b : ℕ) (l : Listener) (p : Process E)
      → IsSoundAt n a l p
      → IsSoundAt (n + m) (a + b) l p
  later n a m b l p k = record {
    enough = ground (arith, k.enough);
    closed = k.closed;
    over = ground (arith, k.over);
    phase_sound = k.phase_sound;
  }

  signal_at-IsSound :
      (n a : ℕ) (l : Listener) (sig : Signal) (p : Process E)
      → p.listener ≡ l
      → IsSoundAt n a l p
      → IsSound (n + 1) (a + 0) (signal_at E l sig p)
  signal_at-IsSound n a unregistered sig p there k = kills sig (ground arith)
  signal_at-IsSound n a registered sig p there k =
      unmoved _ _ registered p there (later n a 1 0 _ p k)
  signal_at-IsSound n a at_first sig p there k =
      moved _ _ _ before_close p _ (later n a 1 0 _ p k) (ground arith) k.closed
  signal_at-IsSound n a before_close sig p there k =
      unmoved _ _ before_close p there (later n a 1 0 _ p k)
  signal_at-IsSound n a before_second sig p there k =
      unmoved _ _ before_second p there (later n a 1 0 _ p k)
  signal_at-IsSound n a at_second sig p there k = cuts_off (ground (arith, k.enough))

  -- Without workers there are none after a step.
  Step-alone :
      (w : World E) (s : System E)
      → Step E Sees Others Passes (alone E w) s
      → Step E Sees Others Passes (alone E w) (alone E s.world)
  Step-alone w s (work i t C seen there) = absurd (ground (arith, there))
  Step-alone w s (tell C n w' seen told) = tell C n w' seen told
  Step-alone w s (meddle k o) = meddle k o
  Step-alone w s (pass q o) = pass q o

  in_phase :
      (n a : ℕ) (p : Process E) (phase : Phase E)
      → IsSoundAt n a p.listener p
      → IsSoundPhase phase
      → IsSoundAt n a p.listener (record p { phase = phase })
  in_phase n a p phase k sound = record {
    enough = k.enough;
    closed = k.closed;
    over = k.over;
    phase_sound = sound;
  }

  -- A process in which the wait for the caches is over.
  timed_out :
      (n a : ℕ) (p : Process E)
      → IsSoundAt n a p.listener p
      → 1 ≤ n + a
      → IsSoundAt n a p.listener (record p { wait_over = true })
  timed_out n a p k h = record {
    enough = k.enough;
    closed = k.closed;
    over = h;
    phase_sound = k.phase_sound;
  }

  caches_waited-IsSound :
      (n a : ℕ) (ok_caches : Bool) (w : World E) (p : Process E)
      → IsWaited w
      → IsSoundAt n a p.listener p
      → 1 ≤ n + a + one_if ok_caches
      → IsSound n a (caches_waited E ok_caches w p)
  unfolding caches_waited launch
  caches_waited-IsSound n a false w p waited k h = not_synced w (omega arith) waited
  caches_waited-IsSound n a true w p waited k h =
      in_phase n a p (serving _) k (w, _, waited, refl, here)

  enter_run-IsSound :
      (n a : ℕ) (s : Attempt A) (p : Process E)
      → setup ≡ s
      → IsSoundAt n a p.listener p
      → IsSound n a (enter_run E s first p)
  unfolding enter_run
  enter_run-IsSound n a (ready parts) p e k = in_phase n a p (waiting first) k here
  enter_run-IsSound n a (fatal x) p e k = gives_up x e

  -- A closed channel is one that a received signal has closed.
  heard_lem : (l : Listener) → past_close l ≡ true → received l ≡ 1
  heard_lem before_second e = refl
  heard_lem at_second e = refl
  heard_lem before_close e = refl
  heard_lem unregistered e = absurd (ground (arith, e))
  heard_lem registered e = absurd (ground (arith, e))
  heard_lem at_first e = absurd (ground (arith, e))

  quiet : (n a : ℕ) (st : State E) → IsSound n a st → IsSound (n + 0) (a + 0) st
  quiet n a st k = subst₂ (λ x y. IsSound x y st) (ground arith) (ground arith) k

  -- A closed stop channel has taken a signal.
  stopped : (n a : ℕ) (p : Process E) → IsSoundAt n a p.listener p → p.stop_closed ≡ true → 1 ≤ n
  stopped n a p k closed =
      let heard = heard_lem p.listener (sym k.closed ∙ closed) in ground (arith, heard, k.enough)

  IsServed-Step : (s s' : System E) → IsServed s → Step E Sees Others Passes s s' → IsServed s'
  IsServed-Step s s' (w, s₀, waited, launched, reach) step =
      (w, s₀, waited, launched, next reach step)

  Move-IsSound :
      (m n a b : ℕ) (p : Process E) (st : State E)
      → Move E setup first Sees Others Passes p n b st
      → IsSoundAt m a p.listener p
      → IsSound (m + n) (a + b) st
  unfolding listen signal
  Move-IsSound m n a b p st hear k = quiet m a st (listen_from-IsSound m a p.listener p refl k)
  Move-IsSound m n a b p st (interrupt sig) k = signal_at-IsSound m a p.listener sig p refl k
  Move-IsSound m n a b p st (set e) k = quiet m a st (enter_run-IsSound m a setup p refl k)
  Move-IsSound m n a b p st (notice w s e step) k =
      let waited = subst IsSoundPhase e k.phase_sound in
      quiet m a st (in_phase m a p (waiting s.world) k (next waited (Step-alone w s step)))
  Move-IsSound m n a b p st (time_out w e) k = timed_out _ _ p (later m a 0 1 _ p k) (omega arith)
  Move-IsSound m n a b p st (stop_wait w e closed) k =
      let heard = stopped m a p k closed in quiet m a st (timed_out m a p k (omega arith))
  Move-IsSound m n a b p st (synced w e) k =
      quiet m a st
        (caches_waited-IsSound m a true w p (subst IsSoundPhase e k.phase_sound) k (omega arith))
  Move-IsSound m n a b p st (wait_ended w e over) k = quiet m a st (
      caches_waited-IsSound m a false w p (subst IsSoundPhase e k.phase_sound) k
        (ground (arith, over, k.over)))
  Move-IsSound m n a b p st (serve s s' e step) k =
      let served = subst IsSoundPhase e k.phase_sound in
      quiet m a st (in_phase m a p (serving s') k (IsServed-Step s s' served step))
  Move-IsSound m n a b p st (fall s e panics) k =
      quiet m a st (falls p.phase s k.phase_sound e panics)
  Move-IsSound m n a b p st (leave s e closed) k =
      let heard = stopped m a p k closed in
      quiet m a st (serves_out s heard (subst IsSoundPhase e k.phase_sound))

  -- Whatever the order of set-up, signals, handlers, workers and time: a process that ends by a signal,
  -- or with 0, has had a signal, and one that ends with 1 has had two; 0 comes only after serving, and
  -- 255 only where the set-up has failed, or the wait for the caches was cut short by a signal or has
  -- lasted five minutes; and it ends by a panic only where a worker has panicked by then, or a
  -- handler does. The stop channel is never closed twice. In a process that still runs, that
  -- channel is closed just where the goroutine has got past closing it; and the controller that it
  -- serves has come, by steps of its own, from three workers started on a world that handlers, time and
  -- other clients have made of the first.
  pub Moves-IsSound :
      (n a : ℕ) (st : State E) → Moves E setup first Sees Others Passes n a st → IsSound n a st
  Moves-IsSound n a st begun = record {
    enough = ground arith;
    closed = refl;
    over = ground arith;
    phase_sound = tt;
  }
  Moves-IsSound n a st (then_move {m} {n = k} {a = c} {b = d} {p} moves move) =
      Move-IsSound m k c d p st move (Moves-IsSound m c (alive p) moves)

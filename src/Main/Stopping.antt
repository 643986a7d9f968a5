-- ===== src/Main/Stopping.antt =====
-- That signals to the process of main.go, sent again and again, end it.
use crypt_controller.Base.{
  ℕ, suc, ◌+◌, ◌≤◌, nat_eq, Bool, true, false, ◌≡◌, refl, sym, subst, arith,
}
use crypt_controller.Controller.{Env, Controller, World}
use crypt_controller.Controller.Threads.{launch}
use crypt_controller.Informers.Runs.{one_if}
use crypt_controller.Main.{Attempt, ready, fatal}
use crypt_controller.Main.Endings.{Moves-IsSound}
use crypt_controller.Main.Ranks.{
  rank, reached, stepped_rank, struck_rank, reached_step, reached_strike, reached_closes,
}
use crypt_controller.Main.Process.{
  Signal, Listener, unregistered, registered, at_first, before_close, before_second, at_second,
  Process, State, alive, ended, new_process, close_stop, listen_from, signal_at, listen, signal,
  enter_run, caches_waited, Move, hear, interrupt, set, notice, time_out, stop_wait, synced,
  wait_ended, serve, fall, leave, Moves, begun, then_move,
}

module _ (E : Env) where
  -- A state in which the goroutine is so far, or the process has ended.
  abbrev IsAsFar : ℕ → State E → Type 0
  IsAsFar m (alive p) = m ≤ rank p.listener
  IsAsFar m (ended x) = Unit

  rank-bound : (l : Listener) → rank l ≤ 5
  rank-bound unregistered = ground arith
  rank-bound registered = ground arith
  rank-bound at_first = ground arith
  rank-bound before_close = ground arith
  rank-bound before_second = ground arith
  rank-bound at_second = ground arith

  stay : (m : ℕ) (l : Listener) (p : Process E) → p.listener ≡ l → m ≤ rank l → m ≤ rank p.listener
  stay m l p there far = subst (λ x. m ≤ rank x) (sym there) far

  close_stop-IsAsFar :
      (m : ℕ) (closed : Bool) (p : Process E) → m ≤ 4 → IsAsFar m (close_stop E closed p)
  close_stop-IsAsFar m true p far = tt
  close_stop-IsAsFar m false p far = far

  listen_from-IsAsFar :
      (m : ℕ) (l : Listener) (p : Process E)
      → p.listener ≡ l
      → m ≤ stepped_rank (rank l)
      → IsAsFar m (listen_from E l p)
  listen_from-IsAsFar m unregistered p there far = far
  listen_from-IsAsFar m registered p there far = far
  listen_from-IsAsFar m at_first p there far = stay m at_first p there far
  listen_from-IsAsFar m before_close p there far = close_stop-IsAsFar m p.stop_closed p far
  listen_from-IsAsFar m before_second p there far = far
  listen_from-IsAsFar m at_second p there far = stay m at_second p there far

  -- `m`: how far the goroutine is to be if it was not at its second receive.
  signal_at-IsAsFar :
      (m : ℕ) (l : Listener) (sig : Signal) (p : Process E)
      → p.listener ≡ l
      → (rank l ≤ 4 → m ≤ struck_rank (rank l))
      → IsAsFar m (signal_at E l sig p)
  signal_at-IsAsFar m unregistered sig p there far = tt
  signal_at-IsAsFar m registered sig p there far = stay m registered p there (far (ground arith))
  signal_at-IsAsFar m at_first sig p there far = far (ground arith)
  signal_at-IsAsFar m before_close sig p there far =
      stay m before_close p there (far (ground arith))
  signal_at-IsAsFar m before_second sig p there far =
      stay m before_second p there (far (ground arith))
  signal_at-IsAsFar m at_second sig p there far = tt

  module _ {A : Type 1} (setup : Attempt A) (first : World E) (Sees : Controller → Type 0)
      (Others : E.secrets.State → E.secrets.State → Type 0)
      (Passes : E.workqueue.State → E.workqueue.State → Type 0) where
    enter_run-IsAsFar :
        (m : ℕ) (s : Attempt A) (w : World E) (p : Process E)
        → m ≤ rank p.listener
        → IsAsFar m (enter_run E s w p)
    unfolding enter_run
    enter_run-IsAsFar m (ready parts) w p far = far
    enter_run-IsAsFar m (fatal x) w p far = tt

    caches_waited-IsAsFar :
        (m : ℕ) (ok_caches : Bool) (w : World E) (p : Process E)
        → m ≤ rank p.listener
        → IsAsFar m (caches_waited E ok_caches w p)
    unfolding caches_waited launch
    caches_waited-IsAsFar m true w p far = far
    caches_waited-IsAsFar m false w p far = tt

    -- No move takes the goroutine back.
    Move-IsAsFar :
        (m n a : ℕ) (p : Process E) (st : State E)
        → Move E setup first Sees Others Passes p n a st
        → m ≤ rank p.listener
        → IsAsFar m st
    unfolding listen signal
    Move-IsAsFar m n a p st hear far = listen_from-IsAsFar m p.listener p refl (ground (arith, far))
    Move-IsAsFar m n a p st (interrupt sig) far =
        signal_at-IsAsFar m p.listener sig p refl (λ h. ground (arith, far))
    Move-IsAsFar m n a p st (set e) far = enter_run-IsAsFar m setup first p far
    Move-IsAsFar m n a p st (notice w s e step) far = far
    Move-IsAsFar m n a p st (time_out w e) far = far
    Move-IsAsFar m n a p st (stop_wait w e closed) far = far
    Move-IsAsFar m n a p st (synced w e) far = caches_waited-IsAsFar m true w p far
    Move-IsAsFar m n a p st (wait_ended w e over) far = caches_waited-IsAsFar m false w p far
    Move-IsAsFar m n a p st (serve s s' e step) far = far
    Move-IsAsFar m n a p st (fall s e panics) far = tt
    Move-IsAsFar m n a p st (leave s e closed) far = tt

    -- Moves in a row from the start, of which some are picked: `k` signals, each after a step of the
    -- goroutine that comes after the signal before it; `stepped` if such a step has come after the last.
    pub data Insists : ℕ → Bool → State E → Type 1 where
      at_start : Insists 0 false (alive (new_process E))
      step_on :
          {k : ℕ} {stepped : Bool} {p : Process E}
          → Insists k stepped (alive p)
          → Insists k true (listen E p)
      strike :
          {k : ℕ} {p : Process E} (sig : Signal)
          → Insists k true (alive p)
          → Insists (suc k) false (signal E sig p)
      meanwhile :
          {k n a : ℕ} {stepped : Bool} {p : Process E} {st : State E}
          → Insists k stepped (alive p)
          → Move E setup first Sees Others Passes p n a st
          → Insists k stepped st

    Insists-IsAsFar :
        (k : ℕ) (stepped : Bool) (st : State E)
        → Insists k stepped st
        → IsAsFar (reached k stepped) st
    unfolding listen signal
    Insists-IsAsFar k stepped st at_start = ground arith
    Insists-IsAsFar k stepped st (step_on {k = j} {stepped = b} {p} before) =
        listen_from-IsAsFar (reached j true) p.listener p refl (
          reached_step j b (rank p.listener) (rank-bound p.listener)
            (Insists-IsAsFar j b (alive p) before))
    Insists-IsAsFar k stepped st (strike {k = j} {p} sig before) =
        signal_at-IsAsFar (reached (suc j) false) p.listener sig p refl
          (λ h. reached_strike j (rank p.listener) h (Insists-IsAsFar j true (alive p) before))
    Insists-IsAsFar k stepped st
          (meanwhile {k = j} {n} {a} {stepped = b} {p} {st = u} before move) =
        Move-IsAsFar (reached k stepped) n a p st move (Insists-IsAsFar k stepped (alive p) before)

    Insists-Moves :
        (k : ℕ) (stepped : Bool) (st : State E)
        → Insists k stepped st
        → (n : ℕ) × (a : ℕ) × Moves E setup first Sees Others Passes n a st
    Insists-Moves k stepped st at_start = (0, 0, begun)
    Insists-Moves k stepped st (step_on {k = j} {stepped = b} {p} before) =
        let (n, a, moves) = Insists-Moves j b (alive p) before in
        (n + 0, a + 0, then_move moves hear)
    Insists-Moves k stepped st (strike {k = j} {p} sig before) =
        let (n, a, moves) = Insists-Moves j true (alive p) before in
        (n + 1, a + 0, then_move moves (interrupt sig))
    Insists-Moves k stepped st (meanwhile {k = j} {n = n'} {a = a'} {stepped = b} {p} before move) =
        let (n, a, moves) = Insists-Moves k stepped (alive p) before in
        (n + n', a + a', then_move moves move)

    -- Whatever `main`, the workers, the handlers and other clients do or fail to do in between: once
    -- three signals have come, each after a step that the goroutine has made since the one before, the
    -- stop channel is closed or the process has ended, and once four have, it has ended.
    pub Insists-stops :
        (k : ℕ) (stepped : Bool) (p : Process E)
        → Insists k stepped (alive p)
        → k ≤ 2 + one_if p.stop_closed
    Insists-stops k stepped p before =
        let (n, a, moves) = Insists-Moves k stepped (alive p) before in
        let sound = Moves-IsSound E setup first Sees Others Passes n a (alive p) moves in
        rw sound.closed (
          reached_closes k stepped p.listener (rank-bound p.listener)
            (Insists-IsAsFar k stepped (alive p) before))

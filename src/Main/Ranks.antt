-- ===== src/Main/Ranks.antt =====
-- How far the goroutine of main.go that waits for signals has come, as a number, and how far at least once
-- so many signals have come, each after a step of it.
use crypt_controller.Base.{
  ℕ, zero, suc, ◌+◌, ◌≤◌, ◌==◌, nat_eq, ◌||◌, if◌then◌else◌, Bool, true, false, ◌≡◌, refl, arith,
}
use crypt_controller.Informers.Runs.{one_if}
use crypt_controller.Main.Endings.{past_close}
use crypt_controller.Main.Process.{
  Listener, unregistered, registered, at_first, before_close, before_second, at_second,
}

-- How far the goroutine has come.
abbrev pub rank : Listener → ℕ
rank unregistered = 0
rank registered = 1
rank at_first = 2
rank before_close = 3
rank before_second = 4
rank at_second = 5

-- How far it has come at least, with the signals that have come each after a step of it, and whether it has
-- made a step since the last.
abbrev pub reached : ℕ → Bool → ℕ
reached zero false = 0
reached zero true = 1
reached (suc zero) false = 1
reached (suc zero) true = 2
reached (suc (suc zero)) false = 3
reached (suc (suc zero)) true = 4
reached (suc (suc (suc zero))) false = 4
reached (suc (suc (suc zero))) true = 5
reached (suc (suc (suc (suc k)))) stepped = 6

-- A step of the goroutine: at a receive there is none.
abbrev pub stepped_rank : ℕ → ℕ
stepped_rank r = if r == 2 || r == 5 then r else r + 1

pub reached_step :
    (k : ℕ) (b : Bool) (r : ℕ) → r ≤ 5 → reached k b ≤ r → reached k true ≤ stepped_rank r
reached_step zero false r h far = ground arith
reached_step zero true r h far = ground arith
reached_step (suc zero) false r h far = ground arith
reached_step (suc zero) true r h far = ground arith
reached_step (suc (suc zero)) false r h far = ground arith
reached_step (suc (suc zero)) true r h far = ground arith
reached_step (suc (suc (suc zero))) false r h far = ground arith
reached_step (suc (suc (suc zero))) true r h far = ground arith
reached_step (suc (suc (suc (suc k)))) b r h far = ground arith

-- A signal to a goroutine that is not at its second receive.
abbrev pub struck_rank : ℕ → ℕ
struck_rank r = if r == 2 then 3 else r

pub reached_strike :
    (k : ℕ) (r : ℕ) → r ≤ 4 → reached k true ≤ r → reached (suc k) false ≤ struck_rank r
reached_strike zero r h far = ground arith
reached_strike (suc zero) r h far = ground arith
reached_strike (suc (suc zero)) r h far = ground arith
reached_strike (suc (suc (suc k))) r h far = ground arith

past_close-rank : (l : Listener) → 4 ≤ rank l → past_close l ≡ true
past_close-rank before_second h = refl
past_close-rank at_second h = refl
past_close-rank unregistered h = absurd (ground (arith, h))
past_close-rank registered h = absurd (ground (arith, h))
past_close-rank at_first h = absurd (ground (arith, h))
past_close-rank before_close h = absurd (ground (arith, h))

pub reached_closes :
    (k : ℕ) (b : Bool) (l : Listener)
    → rank l ≤ 5
    → reached k b ≤ rank l
    → k ≤ 2 + one_if (past_close l)
reached_closes zero b l h far = ground arith
reached_closes (suc zero) b l h far = ground arith
reached_closes (suc (suc zero)) b l h far = ground arith
reached_closes (suc (suc (suc zero))) false l h far = rw (past_close-rank l far) (ground arith)
reached_closes (suc (suc (suc zero))) true l h far =
    rw (past_close-rank l (ground (arith, far))) (ground arith)
reached_closes (suc (suc (suc (suc k)))) b l h far = absurd (ground (arith, h, far))

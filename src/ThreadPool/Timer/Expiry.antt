-- ===== src/ThreadPool/Timer/Expiry.antt =====
-- When the keep-alive timer ends, and what it tells the thread.
use image_app.Common.{
  ℕ, zero, suc, ◌-◌, ◌≤◌, ◌<◌, ◌≡◌, refl, Bool, true, false, some, List, [], ◌∷◌, ◌++◌,
  if◌then◌else◌, ℤ, pos, is_nat, replicate, length, arith, ◌==◌,
}
use image_app.ThreadPool.{ThreadData}
use image_app.ThreadPool.Timer.{renewed, handle_timer}

at_zero : (td : ThreadData) (t : ℕ) → td.timer ≡ pos t → is_nat td.timer 0 ≡ (t == 0)
at_zero td t e = ground arith

-- The wait of a slot whose timer is at `t` is over after `t + 1` polls at most, whatever they
-- say.
pub handle_timer_ends :
    (t : ℕ) (polls : List Bool) (td : ThreadData)
    → td.timer ≡ pos t
    → t < length polls
    → (r : ℤ) × (q : ThreadData) × (handle_timer polls td ≡ some (r, q))
unfolding handle_timer
handle_timer_ends t [] td e h = absurd (omega arith)
handle_timer_ends zero (true ∷ polls) td e h =
    (pos 1, record (renewed td) { timer = pos 5 }, ground arith)
handle_timer_ends (suc t) (true ∷ polls) td e h =
    (pos t, record (renewed td) { timer = pos t }, ground arith)
handle_timer_ends zero (false ∷ polls) td e h = (pos 0, td, ground arith)
handle_timer_ends (suc t) (false ∷ polls) td e h =
    let (r, q, d) = handle_timer_ends t polls (record td { timer = pos t }) refl (omega arith) in
    (r, q, ground arith)

-- For a slot whose timer is at `t` and a client that stays silent for `k` polls, `t` at most,
-- and then sends: if the timer has just run down, it is set to 5 again and 1 is returned; before
-- that, the timer that is left is returned and stays as it is. Either way the message is flagged
-- and a request is used up.
pub handle_timer_reply :
    (t k : ℕ) (rest : List Bool) (td : ThreadData)
    → td.timer ≡ pos t
    → k ≤ t
    → handle_timer (replicate k false ++ true ∷ rest) td ≡ (
        if k == t
        then some (pos 1, record (renewed td) { timer = pos 5 })
        else some (pos (t - k - 1), record (renewed td) { timer = pos (t - k - 1) }))
unfolding handle_timer
handle_timer_reply zero zero rest td e h = ground arith
handle_timer_reply (suc t) zero rest td e h = ground arith
handle_timer_reply zero (suc k) rest td e h = absurd (omega arith)
handle_timer_reply (suc t) (suc k) rest td e h =
    ground (arith, handle_timer_reply t k rest (record td { timer = pos t }) refl)

-- A client that stays silent until the timer has run down is given up: 0 is returned.
pub handle_timer_silent :
    (t : ℕ) (rest : List Bool) (td : ThreadData)
    → td.timer ≡ pos t
    → handle_timer (replicate (suc t) false ++ rest) td ≡ some (pos 0, record td { timer = pos 0 })
unfolding handle_timer
handle_timer_silent zero rest td e = ground arith
handle_timer_silent (suc t) rest td e =
    ground (arith, handle_timer_silent t rest (record td { timer = pos t }) refl)

-- ===== src/ThreadPool/Timer.antt =====
-- `handle_timer` and `wait_for_connection` of ThreadPool.c.
pub mod Expiry
use image_app.Common.{
  ℕ, zero, suc, Bool, true, false, Option, none, some, List, [], ◌∷◌, if◌then◌else◌, ℤ, pos,
  decrement, is_nat,
}
use image_app.ThreadPool.{ThreadData}

-- The message flag and the number of requests left, once the client has sent again.
abbrev pub renewed : ThreadData → ThreadData
renewed td = record td { msg_received = pos 1; request = decrement td.request }

-- The loop, on the results of `poll`, each of which says whether `ready == 1`. The result is the
-- value returned and the slot; `none` stands for a wait that is not over with these polls.
unfoldable pub handle_timer : List Bool → ThreadData → Option (ℤ × ThreadData)
handle_timer [] td = none
handle_timer (ready ∷ polls) td =
    let timer = decrement td.timer in
    let again = handle_timer polls (record td { timer = timer }) in
    if is_nat td.timer 0
    then (if ready then some (pos 1, record (renewed td) { timer = pos 5 }) else some (pos 0, td))
    else if ready
    then some (timer, record (renewed td) { timer = timer })
    else again

-- Whether the thread waits for a signal before it goes on.
unfoldable pub wait_for_connection : ThreadData → Bool
wait_for_connection td = if is_nat td.msg_received 1 then false else true

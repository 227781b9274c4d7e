-- ===== src/Growth/Doubling.antt =====
-- How often the number of pools is doubled.
use image_app.Common.{ℕ, zero, suc, ◌+◌, ◌≡◌, refl, ◌≤◌, ◌⊎◌, inl, inr, arith}
use image_app.Growth.{
  no_keeper, by_timer, GrowPc, calm, asking, asked, end_locked, end_waiting, end_woken, end_held,
  PoolsPc, pools_start, pools_locked, pools_waiting, pools_woken, allocating, doubled,
  pools_signalled, Growth, start_signal, end_signal, first_growth, Move, grow, ask, get_end,
  wait_end, end_spuriously, wake_end, release_end, pools_get, pools_wait, pools_spuriously,
  pools_wake, double, signal_end, pools_release, timer_get, timer_release, Leads, here, then_move,
}

-- The premise of a move, for the clauses that stand for several moves.
abbrev pub Guard : {s t : Growth} → Move s t → Type 0
Guard {s} (grow _ _) = s.main ≡ calm
Guard {s} (ask _) = s.main ≡ asking
Guard {s} (get_end _) = s.main ≡ asked
Guard {s} (wait_end _) = s.main ≡ end_locked
Guard {s} (end_spuriously _) = s.main ≡ end_waiting
Guard {s} (wake_end _) = s.main ≡ end_woken
Guard {s} (release_end _) = s.main ≡ end_held
Guard {s} (pools_get _ _) = s.pools ≡ pools_start
Guard {s} (pools_wait _) = s.pools ≡ pools_locked
Guard {s} (pools_spuriously _) = s.pools ≡ pools_waiting
Guard {s} (pools_wake _ _) = s.pools ≡ pools_woken
Guard {s} (double _) = s.pools ≡ allocating
Guard {s} (signal_end _) = s.pools ≡ doubled
Guard {s} (pools_release _) = s.pools ≡ pools_signalled
Guard {s} (timer_get _) = s.keeper ≡ no_keeper
Guard {s} (timer_release _) = s.keeper ≡ by_timer

pub guard : {s t : Growth} (m : Move s t) → Guard m
guard (grow e f) = e
guard (ask e) = e
guard (get_end e) = e
guard (wait_end e) = e
guard (end_spuriously e) = e
guard (wake_end e) = e
guard (release_end e) = e
guard (pools_get e k) = e
guard (pools_wait e) = e
guard (pools_spuriously e) = e
guard (pools_wake e k) = e
guard (double e) = e
guard (signal_end e) = e
guard (pools_release e) = e
guard (timer_get e) = e
guard (timer_release e) = e

-- `n` doubled so many times.
abbrev pub doubled_times : ℕ → ℕ → ℕ
doubled_times n zero = n
doubled_times n (suc d) = doubled_times n d + doubled_times n d

-- Growths begun but not ended.
abbrev open_growths : GrowPc → ℕ
open_growths calm = 0
open_growths asking = 0
open_growths _ = 1

-- A signal that the main loop has had and not come back from, a doubling not signalled yet, and one
-- still to come.
abbrev signal_had : GrowPc → ℕ
signal_had end_woken = 1
signal_had end_held = 1
signal_had _ = 0

abbrev unsignalled : PoolsPc → ℕ
unsignalled doubled = 1
unsignalled _ = 0

abbrev to_come : PoolsPc → ℕ
to_come pools_woken = 1
to_come allocating = 1
to_come _ = 0

record Counted (n : ℕ) (s : Growth) : Type 0 where
  size : s.size_pool ≡ doubled_times n s.doublings
  opened : s.begun ≡ s.ended + open_growths s.main
  at_least : s.ended + (signal_had s.main + unsignalled s.pools) ≤ s.doublings + s.main_spurious
  at_most : s.doublings + to_come s.pools ≤ s.begun + s.pools_spurious

start-active :
    (pools : PoolsPc)
    → (start_signal pools ≡ pools) ⊎ ((pools ≡ pools_waiting) × (start_signal pools ≡ pools_woken))
start-active pools_waiting = inr (refl, refl)
start-active _ = inl refl

end-hopes :
    (main : GrowPc)
    → (end_signal main ≡ main) ⊎ ((main ≡ end_waiting) × (end_signal main ≡ end_woken))
end-hopes end_waiting = inr (refl, refl)
end-hopes _ = inl refl

module _ {n : ℕ} {s : Growth} (c : Counted n s) where
  Move-size : {t : Growth} → Move s t → t.size_pool ≡ doubled_times n t.doublings
  Move-size (double e) = rw c.size refl
  Move-size m = c.size

  Move-opened : {t : Growth} → Move s t → t.begun ≡ t.ended + open_growths t.main
  Move-opened (grow e f) = ground (arith, e, c.opened)
  Move-opened m = ground (arith, guard m, c.opened, end-hopes s.main)

  Move-least :
      {t : Growth}
      → Move s t
      → t.ended + (signal_had t.main + unsignalled t.pools) ≤ t.doublings + t.main_spurious
  Move-least (grow e f) = ground (arith, e, c.at_least)
  Move-least m = ground (arith, guard m, c.at_least, start-active s.pools, end-hopes s.main)

  Move-most : {t : Growth} → Move s t → t.doublings + to_come t.pools ≤ t.begun + t.pools_spurious
  Move-most (grow e f) = c.at_most
  Move-most m = ground (arith, guard m, c.at_most, start-active s.pools)

  Move-Counted : {t : Growth} → Move s t → Counted n t
  Move-Counted m = record {
    size = Move-size m;
    opened = Move-opened m;
    at_least = Move-least m;
    at_most = Move-most m;
  }

Leads-Counted : {n : ℕ} {s t : Growth} → Counted n s → Leads s t → Counted n t
Leads-Counted c here = c
Leads-Counted c (then_move r m) = Move-Counted (Leads-Counted c r) m

-- In every state that the start with `n` pools leads to, in which the main loop is not growing: it has
-- come back from every growth that it began. The number of pools is `n` doubled a number of times
-- that is at least the number of these growths less the waits of the main loop that came back
-- without a signal, and at most that number and the waits of `handle_pool` that did. So without such
-- waits each growth has doubled the number of pools exactly once.
pub doubling_lem :
    {n : ℕ} {s : Growth}
    → Leads (first_growth n) s
    → s.main ≡ calm
    → (s.begun ≡ s.ended)
      × (s.size_pool ≡ doubled_times n s.doublings)
      × (s.ended ≤ s.doublings + s.main_spurious)
      × (s.doublings ≤ s.ended + s.pools_spurious)
doubling_lem {n} {s} r quiet =
    let c : Counted n s =
      Leads-Counted
        (record { size = refl; opened = refl; at_least = omega arith; at_most = omega arith }) r in
    let all : s.begun ≡ s.ended = ground (arith, c.opened) in
    (all, c.size, ground (arith, c.at_least), ground (arith, c.at_most, all))

-- ===== src/Tests/Steps.antt =====
-- HttpServer.c and ThreadPool.c: short histories of clients that are handed over.
use image_app.Common.{
  arith, ◌+◌, ◌≤◌, ◌≡◌, ◌⊎◌, ◌&&◌, not, refl, true, false, List, [], ◌∷◌, ◌++◌, length, ℕ,
}
use image_app.Handoff.{
  Client, Handoff, first_handoff, come, waiting, Reach, start, move, next, write_addr,
  dispatcher_get, dispatcher_wait, Move, addr_written,
}
use image_app.Handoff.Exclusion.{main_holds, dispatcher_holds}
use image_app.Handoff.Rest.{Pausing, Moves, none_yet, then_move, settles}
use image_app.Handoff.Paced.{at_rest, paced_lem}
use image_app.Wakeup
use image_app.Wakeup.{
  Slot, flag_set, next_client, find, set_sd, set_addr, set_flag, thread_get, thread_wait,
}
use image_app.Wakeup.Exclusion.{dispatcher_in, thread_in, is_asleep, will_signal, wakeups_lem}
use image_app.Wakeup.Apart.{is_idle, Settled, apart_lem}
use image_app.Wakeup.Races.{waiting_slot, close_races}
use image_app.Growth
use image_app.Growth.{
  Growth, by_pools, pools_signalled, first_growth, grow, ask, get_end, wait_end, wake_end,
  release_end, pools_get, pools_wait, pools_wake, double, signal_end,
}
use image_app.Growth.Doubling.{doubled_times, doubling_lem}
use image_app.Growth.Deadlock.{quiet, Deadlocks, growth-Deadlocks}
use image_app.Search
use image_app.Search.{Search, full_waiting}
use image_app.Search.Deadlock.{search, search_deadlocks}

abbrev phone : Client
phone = record { conn_sd = 5; client_addr = 50 }

abbrev tablet : Client
tablet = record { conn_sd = 6; client_addr = 60 }

abbrev listening : Handoff
listening = record first_handoff { dispatcher = waiting }

reach_listening : Reach false listening
reach_listening = move (move start (dispatcher_get refl refl)) (dispatcher_wait refl)

-- The dispatcher waits, a client has come, and its address is written.
abbrev addressed : Handoff
addressed = record (come phone listening) { client_addr = 50; main = addr_written }

settles_example :
    (1 ≤ 12)
    × ((j : ℕ) × ((u : Handoff) × Moves addressed j u × Pausing u × (1 + j ≤ 12)))
    × (Pausing addressed ⊎ ((u : Handoff) × Move addressed u))
    × ((main_holds addressed.main && dispatcher_holds addressed.dispatcher) ≡ false)
settles_example =
    settles {s = come phone listening} (next phone reach_listening refl tt)
      (then_move none_yet (write_addr phone refl))

reach_paced : Reach true addressed
reach_paced =
    move
      (next phone (move (move start (dispatcher_get refl refl)) (dispatcher_wait refl)) refl refl)
      (write_addr phone refl)

paced_lem_example :
    (rest : List Client) × (addressed.handed ≡ addressed.delivered ++ rest)
    × (length rest ≤ 1)
    × ((rest ≡ []) ⊎ (at_rest addressed.main addressed.dispatcher ≡ false))
paced_lem_example = paced_lem reach_paced

abbrev nobody_yet : Client
nobody_yet = record { conn_sd = 0; client_addr = 0 }

-- The thread of the slot waits.
reach_asleep : Wakeup.Reach false (waiting_slot nobody_yet true [] [] [])
reach_asleep = Wakeup.move (Wakeup.move Wakeup.start (thread_get refl refl)) (thread_wait refl refl)

close_races_example : Wakeup.Reach false (waiting_slot tablet false (5 ∷ 6 ∷ []) (5 ∷ []) (6 ∷ []))
close_races_example = close_races nobody_yet [] [] [] phone tablet reach_asleep

-- The slot is found while the thread waits, and the flag of the client is set.
abbrev flagged : Slot
flagged = record (waiting_slot phone true (5 ∷ []) [] []) { flag = true; dispatcher = flag_set }

reach_flagged : Wakeup.Reach true flagged
reach_flagged =
    Wakeup.move
      (Wakeup.move
        (Wakeup.move
          (Wakeup.move
            (Wakeup.move
              (Wakeup.move (Wakeup.move Wakeup.start (thread_get refl refl))
                (thread_wait refl refl))
              (next_client phone refl))
            (find phone refl refl refl))
          (set_sd phone refl))
        (set_addr phone refl))
      (set_flag refl)

wakeups_lem_example :
    ((dispatcher_in flagged.dispatcher && thread_in flagged.thread) ≡ false)
    × ((is_asleep flagged.thread && flagged.flag && not (will_signal flagged.dispatcher)) ≡ false)
wakeups_lem_example = wakeups_lem reach_flagged

apart_lem_example :
    ((rest : List ℕ) × (flagged.given ≡ flagged.closed ++ rest) × (length rest ≤ 1))
    × ((flagged.served ≡ flagged.closed) ⊎ (flagged.served ≡ flagged.given))
    × ((is_idle flagged.thread flagged.dispatcher ≡ false) ⊎ Settled flagged)
apart_lem_example = apart_lem reach_flagged

-- A growth whose end the main loop has waited for.
abbrev grown : Growth
grown = record (first_growth 2) {
  size_pool = 4;
  seen = 4;
  keeper = by_pools;
  pools = pools_signalled;
  begun = 1;
  ended = 1;
  doublings = 1;
}

grown_once : Growth.Leads (first_growth 2) grown
grown_once =
    Growth.then_move
      (Growth.then_move
        (Growth.then_move
          (Growth.then_move
            (Growth.then_move
              (Growth.then_move
                (Growth.then_move
                  (Growth.then_move
                    (Growth.then_move
                      (Growth.then_move (Growth.then_move Growth.here (pools_get refl refl))
                        (pools_wait refl))
                      (grow refl (omega arith)))
                    (ask refl))
                  (get_end refl))
                (wait_end refl))
              (pools_wake refl refl))
            (double refl))
          (signal_end refl))
        (wake_end refl))
      (release_end refl)

doubling_lem_example :
    (grown.begun ≡ grown.ended)
    × (grown.size_pool ≡ doubled_times 2 grown.doublings)
    × (grown.ended ≤ grown.doublings + grown.main_spurious)
    × (grown.doublings ≤ grown.ended + grown.pools_spurious)
doubling_lem_example = doubling_lem grown_once refl

growth-Deadlocks_example : Deadlocks (quiet 2 0 0 0 0 0) 1 1 × Deadlocks (quiet 2 0 0 0 0 0) 2 1
growth-Deadlocks_example = growth-Deadlocks 2 0 0 0 0 0 (omega arith)

search_deadlocks_example :
    Search.Leads
      (search 1 (true ∷ true ∷ []) (Search.testing 0))
      (search 1 (false ∷ false ∷ []) full_waiting)
    × ((t : Search) → Search.Move (search 1 (false ∷ false ∷ []) full_waiting) t → ⊥)
search_deadlocks_example = search_deadlocks 1 2 (omega arith)

-- ===== src/Handoff/Exclusion.antt =====
-- Who holds the mutex of a dispatcher.
use image_app.Common.{◌≡◌, refl, Bool, true, false, arith, ◌&&◌}
use image_app.Handoff.{
  Owner, nobody, by_main, by_dispatcher, MainPc, main_locked, main_signalled, sd_written,
  addr_written, DispatcherPc, dispatcher_locked, reading, sd_read, both_read, before_lock, waiting,
  woken, Handoff, Move, write_addr, main_get, main_signal, main_release, dispatcher_get,
  dispatcher_wait, dispatcher_wake, read_sd, read_addr, dispatcher_release, dispatch, Reach, start,
  move, next, wake_spuriously, signal_cond,
}

-- Between `get_mutex` and `release_mutex`, or the wait.
abbrev pub main_holds : MainPc → Bool
main_holds main_locked = true
main_holds main_signalled = true
main_holds _ = false

abbrev pub dispatcher_holds : DispatcherPc → Bool
dispatcher_holds dispatcher_locked = true
dispatcher_holds reading = true
dispatcher_holds (sd_read _) = true
dispatcher_holds (both_read _) = true
dispatcher_holds _ = false

abbrev is_main : Owner → Bool
is_main by_main = true
is_main _ = false

abbrev is_dispatcher : Owner → Bool
is_dispatcher by_dispatcher = true
is_dispatcher _ = false

pub record Owned (s : Handoff) : Type 0 where
  pub of_main : main_holds s.main ≡ is_main s.owner
  pub of_dispatcher : dispatcher_holds s.dispatcher ≡ is_dispatcher s.owner

signal-holds : (pc : DispatcherPc) → dispatcher_holds (signal_cond pc) ≡ dispatcher_holds pc
signal-holds waiting = refl
signal-holds _ = refl

-- The premise of a move, for the clauses that stand for several moves.
abbrev pub Guard : {s t : Handoff} → Move s t → Type 0
Guard {s} (write_addr c _) = s.main ≡ sd_written c
Guard {s} (main_get _ _) = (s.main ≡ addr_written) × (s.owner ≡ nobody)
Guard {s} (main_signal _) = s.main ≡ main_locked
Guard {s} (main_release _) = s.main ≡ main_signalled
Guard {s} (dispatcher_get _ _) = (s.dispatcher ≡ before_lock) × (s.owner ≡ nobody)
Guard {s} (dispatcher_wait _) = s.dispatcher ≡ dispatcher_locked
Guard {s} (dispatcher_wake _ _) = (s.dispatcher ≡ woken) × (s.owner ≡ nobody)
Guard {s} (read_sd _) = s.dispatcher ≡ reading
Guard {s} (read_addr sd _) = s.dispatcher ≡ sd_read sd
Guard {s} (dispatcher_release c _) = s.dispatcher ≡ both_read c

pub guard : {s t : Handoff} (m : Move s t) → Guard m
guard (write_addr c e) = e
guard (main_get e free) = (e, free)
guard (main_signal e) = e
guard (main_release e) = e
guard (dispatcher_get e free) = (e, free)
guard (dispatcher_wait e) = e
guard (dispatcher_wake e free) = (e, free)
guard (read_sd e) = e
guard (read_addr sd e) = e
guard (dispatcher_release c e) = e

main-Owned : {s t : Handoff} → Move s t → Owned s → main_holds t.main ≡ is_main t.owner
main-Owned (write_addr c e) o = ground (arith, e, o.of_main)
main-Owned m o = ground (arith, guard m, o.of_main, o.of_dispatcher)

dispatcher-Owned :
    {s t : Handoff} → Move s t → Owned s → dispatcher_holds t.dispatcher ≡ is_dispatcher t.owner
dispatcher-Owned (write_addr c e) o = o.of_dispatcher
dispatcher-Owned {s} m o =
    ground (arith, guard m, o.of_main, o.of_dispatcher, signal-holds s.dispatcher)

pub Reach-Owned : {paced : Bool} {s : Handoff} → Reach paced s → Owned s
Reach-Owned start = record { of_main = refl; of_dispatcher = refl }
Reach-Owned (move r m) = record {
  of_main = main-Owned m (Reach-Owned r);
  of_dispatcher = dispatcher-Owned m (Reach-Owned r);
}
Reach-Owned (next {s} c r e may) = record {
  of_main = ground (arith, (Reach-Owned r).of_main);
  of_dispatcher = (Reach-Owned r).of_dispatcher;
}
Reach-Owned (dispatch c r e) = record {
  of_main = (Reach-Owned r).of_main;
  of_dispatcher = ground (arith, e, (Reach-Owned r).of_dispatcher);
}
Reach-Owned (wake_spuriously r unpaced e) = record {
  of_main = (Reach-Owned r).of_main;
  of_dispatcher = ground (arith, e, (Reach-Owned r).of_dispatcher);
}

-- In every state that can be reached, the main loop and the dispatcher are not both between
-- `get_mutex` and `release_mutex`.
pub mutual_exclusion :
    {paced : Bool} {s : Handoff}
    → Reach paced s
    → (main_holds s.main && dispatcher_holds s.dispatcher) ≡ false
mutual_exclusion {s} r = ground (arith, (Reach-Owned r).of_main, (Reach-Owned r).of_dispatcher)

-- ===== src/Wakeup/Exclusion.antt =====
-- The mutex of a slot, and the signals to its thread.
use image_app.Common.{◌≡◌, refl, Bool, true, false, not, arith, ◌&&◌}
use image_app.Wakeup.{
  Holder, unlocked, dispatcher_has, thread_has, DispatchPc, no_client, searching, found, sd_set,
  addr_set, flag_set, used_set, locked, signalled, ThreadPc, before_test, testing, asleep, awake,
  leaving, in_round, closing, used_cleared, flag_cleared, Slot, wake, Move, next_client, find,
  set_sd, set_addr, set_flag, set_used, dispatcher_get, dispatcher_signal, dispatcher_release,
  thread_get, thread_wait, thread_pass, thread_wake, wake_spuriously, thread_release, keep_client,
  end_client, clear_used, clear_flag, close_socket, Reach, start, move,
}

-- The premise of a move, for the clauses that stand for several moves.
abbrev pub Guard : {apart : Bool} {s t : Slot} → Move apart s t → Type 0
Guard {s} (next_client c _) = s.dispatcher ≡ no_client
Guard {s} (find c _ _ _) = (s.dispatcher ≡ searching c) × (s.free ≡ true)
Guard {s} (set_sd c _) = s.dispatcher ≡ found c
Guard {s} (set_addr c _) = s.dispatcher ≡ sd_set c
Guard {s} (set_flag _) = s.dispatcher ≡ addr_set
Guard {s} (set_used _) = s.dispatcher ≡ flag_set
Guard {s} (dispatcher_get _ _) = (s.dispatcher ≡ used_set) × (s.holder ≡ unlocked)
Guard {s} (dispatcher_signal _) = s.dispatcher ≡ locked
Guard {s} (dispatcher_release _) = s.dispatcher ≡ signalled
Guard {s} (thread_get _ _) = (s.thread ≡ before_test) × (s.holder ≡ unlocked)
Guard {s} (thread_wait _ _) = (s.thread ≡ testing) × (s.flag ≡ false)
Guard {s} (thread_pass _ _) = (s.thread ≡ testing) × (s.flag ≡ true)
Guard {s} (thread_wake _ _) = (s.thread ≡ awake) × (s.holder ≡ unlocked)
Guard {s} (wake_spuriously _ _) = s.thread ≡ asleep
Guard {s} (thread_release _) = s.thread ≡ leaving
Guard {s} (keep_client _) = s.thread ≡ in_round
Guard {s} (end_client _) = s.thread ≡ in_round
Guard {s} (clear_used _) = s.thread ≡ closing
Guard {s} (clear_flag _) = s.thread ≡ used_cleared
Guard {s} (close_socket _) = s.thread ≡ flag_cleared

pub guard : {apart : Bool} {s t : Slot} (m : Move apart s t) → Guard m
guard (next_client c e) = e
guard (find c e free may) = (e, free)
guard (set_sd c e) = e
guard (set_addr c e) = e
guard (set_flag e) = e
guard (set_used e) = e
guard (dispatcher_get e h) = (e, h)
guard (dispatcher_signal e) = e
guard (dispatcher_release e) = e
guard (thread_get e h) = (e, h)
guard (thread_wait e f) = (e, f)
guard (thread_pass e f) = (e, f)
guard (thread_wake e h) = (e, h)
guard (wake_spuriously u e) = e
guard (thread_release e) = e
guard (keep_client e) = e
guard (end_client e) = e
guard (clear_used e) = e
guard (clear_flag e) = e
guard (close_socket e) = e

-- Between `get_mutex` and `release_mutex`, or the wait.
abbrev pub dispatcher_in : DispatchPc → Bool
dispatcher_in locked = true
dispatcher_in signalled = true
dispatcher_in _ = false

abbrev pub thread_in : ThreadPc → Bool
thread_in testing = true
thread_in leaving = true
thread_in _ = false

abbrev pub is_dispatcher : Holder → Bool
is_dispatcher dispatcher_has = true
is_dispatcher _ = false

abbrev pub is_thread : Holder → Bool
is_thread thread_has = true
is_thread _ = false

-- The flag is written and the signal is still to come.
abbrev pub will_signal : DispatchPc → Bool
will_signal flag_set = true
will_signal used_set = true
will_signal locked = true
will_signal _ = false

abbrev pub is_asleep : ThreadPc → Bool
is_asleep asleep = true
is_asleep _ = false

pub record Orderly (s : Slot) : Type 0 where
  pub of_dispatcher : dispatcher_in s.dispatcher ≡ is_dispatcher s.holder
  pub of_thread : thread_in s.thread ≡ is_thread s.holder
  pub heard : (is_asleep s.thread && s.flag && not (will_signal s.dispatcher)) ≡ false

wake-in : (pc : ThreadPc) → thread_in (wake pc) ≡ thread_in pc
wake-in asleep = refl
wake-in _ = refl

wake-asleep : (pc : ThreadPc) → is_asleep (wake pc) ≡ false
wake-asleep asleep = refl
wake-asleep _ = refl

dispatcher-Orderly :
    {apart : Bool} {s t : Slot}
    → Move apart s t
    → Orderly s
    → dispatcher_in t.dispatcher ≡ is_dispatcher t.holder
dispatcher-Orderly (keep_client e) o = o.of_dispatcher
dispatcher-Orderly m o = ground (arith, guard m, o.of_dispatcher, o.of_thread)

thread-Orderly :
    {apart : Bool} {s t : Slot}
    → Move apart s t
    → Orderly s
    → thread_in t.thread ≡ is_thread t.holder
thread-Orderly (next_client c e) o = o.of_thread
thread-Orderly {s} m o = ground (arith, guard m, o.of_dispatcher, o.of_thread, wake-in s.thread)

heard-Orderly :
    {apart : Bool} {s t : Slot}
    → Move apart s t
    → Orderly s
    → (is_asleep t.thread && t.flag && not (will_signal t.dispatcher)) ≡ false
heard-Orderly (next_client c e) o = ground (arith, o.heard)
heard-Orderly {s} m o =
    ground (arith, guard m, o.of_dispatcher, o.of_thread, o.heard, wake-asleep s.thread)

pub Reach-Orderly : {apart : Bool} {s : Slot} → Reach apart s → Orderly s
Reach-Orderly start = record { of_dispatcher = refl; of_thread = refl; heard = refl }
Reach-Orderly (move r m) =
    let o = Reach-Orderly r in
    record {
      of_dispatcher = dispatcher-Orderly m o;
      of_thread = thread-Orderly m o;
      heard = heard-Orderly m o;
    }

-- In every state that can be reached, the dispatcher and the thread of a slot are not both between
-- `get_mutex` and `release_mutex`; and the thread never waits with its flag set unless the signal is
-- still to come: no signal of the dispatcher is lost between the test of the flag and the wait.
pub wakeups_lem :
    {apart : Bool} {s : Slot}
    → Reach apart s
    → ((dispatcher_in s.dispatcher && thread_in s.thread) ≡ false)
      × ((is_asleep s.thread && s.flag && not (will_signal s.dispatcher)) ≡ false)
wakeups_lem {s} r =
    let o = Reach-Orderly r in (ground (arith, o.of_dispatcher, o.of_thread), o.heard)

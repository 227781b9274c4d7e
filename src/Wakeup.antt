-- ===== src/Wakeup.antt =====
-- How `dispatch_job` and `get_E` of ThreadPool.c give a slot to a client, and how the thread of the slot
-- waits for it in `wait_for_connection` and gives the slot back in `close_client_with_status`: each access
-- to the fields that both use, to the mutex and to the condition variable is one step, and the steps
-- of the two threads interleave.
pub mod Exclusion
pub mod Apart
pub mod Races
use image_app.Common.{ℕ, ◌≡◌, refl, Bool, true, false, List, [], ◌∷◌, ◌++◌}
use image_app.Handoff.{Client}

-- Who has locked `mtx_new_request`.
pub data Holder : Type 0 where
  unlocked : Holder
  dispatcher_has : Holder
  thread_has : Holder

-- Where the dispatcher stands: it has no client, looks for a free slot in `get_E`, has found this one,
-- has written the socket, the address, the flag, and `used`, has got the mutex, and has signalled.
pub data DispatchPc : Type 0 where
  no_client : DispatchPc
  searching : Client → DispatchPc
  found : Client → DispatchPc
  sd_set : Client → DispatchPc
  addr_set : DispatchPc
  flag_set : DispatchPc
  used_set : DispatchPc
  locked : DispatchPc
  signalled : DispatchPc

-- Where the thread stands: before it gets the mutex, before its test of the flag, in `wait_cond`,
-- signalled but without the mutex, before it releases the mutex, in a round with its client, and
-- at the start of `close_client_with_status`, behind its write of `used`, and of the flag.
pub data ThreadPc : Type 0 where
  before_test : ThreadPc
  testing : ThreadPc
  asleep : ThreadPc
  awake : ThreadPc
  leaving : ThreadPc
  in_round : ThreadPc
  closing : ThreadPc
  used_cleared : ThreadPc
  flag_cleared : ThreadPc

-- The slot, where `free` is `used == -1` and `flag` is `msg_received == 1`, the two threads, and the
-- sockets of the clients that were given the slot, that had their last round, and that were closed.
pub record Slot : Type 0 where
  pub conn_sd : ℕ
  pub client_addr : ℕ
  pub free : Bool
  pub flag : Bool
  pub holder : Holder
  pub dispatcher : DispatchPc
  pub thread : ThreadPc
  pub given : List ℕ
  pub served : List ℕ
  pub closed : List ℕ

-- pthread_cond_signal wakes the thread if it waits, and is lost if it does not.
abbrev pub wake : ThreadPc → ThreadPc
wake asleep = awake
wake pc = pc

-- When the slot may be found: at any time, or only while its thread waits. In a history of the second
-- kind no wait of the thread comes back without a signal, which POSIX lets it.
abbrev pub MayFind : Bool → ThreadPc → Type 0
MayFind true pc = pc ≡ asleep
MayFind false pc = Unit

abbrev pub first_slot : Slot
first_slot = record {
  conn_sd = 0;
  client_addr = 0;
  free = true;
  flag = false;
  holder = unlocked;
  dispatcher = no_client;
  thread = before_test;
  given = [];
  served = [];
  closed = [];
}

-- A step of one of the two threads; `apart` says when the slot may be found.
pub data Move (apart : Bool) (s : Slot) : Slot → Type 0 where
  next_client :
      (c : Client) → s.dispatcher ≡ no_client → Move apart s (record s { dispatcher = searching c })
  find :
      (c : Client)
      → s.dispatcher ≡ searching c
      → s.free ≡ true
      → MayFind apart s.thread
      → Move apart s (record s { dispatcher = found c; given = s.given ++ c.conn_sd ∷ [] })
  set_sd :
      (c : Client)
      → s.dispatcher ≡ found c
      → Move apart s (record s { conn_sd = c.conn_sd; dispatcher = sd_set c })
  set_addr :
      (c : Client)
      → s.dispatcher ≡ sd_set c
      → Move apart s (record s { client_addr = c.client_addr; dispatcher = addr_set })
  set_flag :
      s.dispatcher ≡ addr_set → Move apart s (record s { flag = true; dispatcher = flag_set })
  set_used :
      s.dispatcher ≡ flag_set → Move apart s (record s { free = false; dispatcher = used_set })
  dispatcher_get :
      s.dispatcher ≡ used_set
      → s.holder ≡ unlocked
      → Move apart s (record s { holder = dispatcher_has; dispatcher = locked })
  dispatcher_signal :
      s.dispatcher ≡ locked
      → Move apart s (record s { thread = wake s.thread; dispatcher = signalled })
  dispatcher_release :
      s.dispatcher ≡ signalled
      → Move apart s (record s { holder = unlocked; dispatcher = no_client })
  thread_get :
      s.thread ≡ before_test
      → s.holder ≡ unlocked
      → Move apart s (record s { holder = thread_has; thread = testing })
  thread_wait :
      s.thread ≡ testing
      → s.flag ≡ false
      → Move apart s (record s { holder = unlocked; thread = asleep })
  thread_pass : s.thread ≡ testing → s.flag ≡ true → Move apart s (record s { thread = leaving })
  thread_wake :
      s.thread ≡ awake
      → s.holder ≡ unlocked
      → Move apart s (record s { holder = thread_has; thread = leaving })
  wake_spuriously : apart ≡ false → s.thread ≡ asleep → Move apart s (record s { thread = awake })
  thread_release :
      s.thread ≡ leaving → Move apart s (record s { holder = unlocked; thread = in_round })
  keep_client : s.thread ≡ in_round → Move apart s (record s { flag = true; thread = before_test })
  end_client :
      s.thread ≡ in_round
      → Move apart s (record s { thread = closing; served = s.served ++ s.conn_sd ∷ [] })
  clear_used : s.thread ≡ closing → Move apart s (record s { free = true; thread = used_cleared })
  clear_flag :
      s.thread ≡ used_cleared → Move apart s (record s { flag = false; thread = flag_cleared })
  close_socket :
      s.thread ≡ flag_cleared
      → Move apart s (record s { thread = before_test; closed = s.closed ++ s.conn_sd ∷ [] })

pub data Reach (apart : Bool) : Slot → Type 0 where
  start : Reach apart first_slot
  move : {s t : Slot} → Reach apart s → Move apart s t → Reach apart t

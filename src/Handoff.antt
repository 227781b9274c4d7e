-- ===== src/Handoff.antt =====
-- How the main loop of HttpServer.c hands a client to the dispatcher of a pool, `dispatch_job` of
-- ThreadPool.c, through `struct dispatcher`: each access to the shared fields, to the mutex and to the
-- condition variable is one step, and the steps of the two threads interleave.
pub mod Rest
pub mod Exclusion
pub mod Paced
pub mod Races
use image_app.Common.{ℕ, zero, suc, ◌≡◌, refl, Bool, true, false, List, [], ◌∷◌, ◌++◌}

pub record Client : Type 0 where
  pub conn_sd : ℕ
  pub client_addr : ℕ

-- Who has locked `mtx_dispatch`.
pub data Owner : Type 0 where
  nobody : Owner
  by_main : Owner
  by_dispatcher : Owner

-- Where the main loop stands: what it does next is to accept a client, to write its address, to get
-- the mutex, to signal, and to release the mutex.
pub data MainPc : Type 0 where
  accepting : MainPc
  sd_written : Client → MainPc
  addr_written : MainPc
  main_locked : MainPc
  main_signalled : MainPc

-- Where the dispatcher stands: before it gets the mutex, before and in `wait_cond`, signalled but
-- without the mutex, before each of the two reads, before it releases the mutex, and with a client
-- that it has to find a slot for.
pub data DispatcherPc : Type 0 where
  before_lock : DispatcherPc
  dispatcher_locked : DispatcherPc
  waiting : DispatcherPc
  woken : DispatcherPc
  reading : DispatcherPc
  sd_read : ℕ → DispatcherPc
  both_read : Client → DispatcherPc
  dispatching : Client → DispatcherPc

-- `struct dispatcher`, the two threads, and the clients that the main loop has begun to hand over
-- and that the dispatcher has put into a slot.
pub record Handoff : Type 0 where
  pub conn_sd : ℕ
  pub client_addr : ℕ
  pub owner : Owner
  pub main : MainPc
  pub dispatcher : DispatcherPc
  pub handed : List Client
  pub delivered : List Client

-- pthread_cond_signal wakes the dispatcher if it waits, and is lost if it does not.
abbrev pub signal_cond : DispatcherPc → DispatcherPc
signal_cond waiting = woken
signal_cond pc = pc

-- When a client may come: at any time, or only while the dispatcher waits. In a history of the second
-- kind no wait comes back without a signal, which POSIX lets it.
abbrev pub MayCome : Bool → DispatcherPc → Type 0
MayCome true pc = pc ≡ waiting
MayCome false pc = Unit

abbrev pub first_handoff : Handoff
first_handoff = record {
  conn_sd = 0;
  client_addr = 0;
  owner = nobody;
  main = accepting;
  dispatcher = before_lock;
  handed = [];
  delivered = [];
}

-- A step of one of the two threads, apart from those that wait for something else: the next client, and
-- the return of `get_E`, which may wait for a slot, and for good.
pub data Move (s : Handoff) : Handoff → Type 0 where
  write_addr :
      (c : Client)
      → s.main ≡ sd_written c
      → Move s (record s { client_addr = c.client_addr; main = addr_written })
  main_get :
      s.main ≡ addr_written
      → s.owner ≡ nobody
      → Move s (record s { owner = by_main; main = main_locked })
  main_signal :
      s.main ≡ main_locked
      → Move s (record s { dispatcher = signal_cond s.dispatcher; main = main_signalled })
  main_release : s.main ≡ main_signalled → Move s (record s { owner = nobody; main = accepting })
  dispatcher_get :
      s.dispatcher ≡ before_lock
      → s.owner ≡ nobody
      → Move s (record s { owner = by_dispatcher; dispatcher = dispatcher_locked })
  dispatcher_wait :
      s.dispatcher ≡ dispatcher_locked → Move s (record s { owner = nobody; dispatcher = waiting })
  dispatcher_wake :
      s.dispatcher ≡ woken
      → s.owner ≡ nobody
      → Move s (record s { owner = by_dispatcher; dispatcher = reading })
  read_sd : s.dispatcher ≡ reading → Move s (record s { dispatcher = sd_read s.conn_sd })
  read_addr :
      (sd : ℕ)
      → s.dispatcher ≡ sd_read sd
      → Move s (record s {
        dispatcher = both_read (record { conn_sd = sd; client_addr = s.client_addr });
      })
  dispatcher_release :
      (c : Client)
      → s.dispatcher ≡ both_read c
      → Move s (record s { owner = nobody; dispatcher = dispatching c })

-- The main loop writes the socket of the next client.
abbrev pub come : Client → Handoff → Handoff
come c s = record s { conn_sd = c.conn_sd; main = sd_written c; handed = s.handed ++ c ∷ [] }

-- The dispatcher has a slot for its client.
abbrev pub give_slot : Client → Handoff → Handoff
give_slot c s = record s { dispatcher = before_lock; delivered = s.delivered ++ c ∷ [] }

-- The states that can be reached, where `paced` says when a client may come.
pub data Reach (paced : Bool) : Handoff → Type 0 where
  start : Reach paced first_handoff
  move : {s t : Handoff} → Reach paced s → Move s t → Reach paced t
  next :
      {s : Handoff} (c : Client)
      → Reach paced s
      → s.main ≡ accepting
      → MayCome paced s.dispatcher
      → Reach paced (come c s)
  dispatch :
      {s : Handoff} (c : Client)
      → Reach paced s
      → s.dispatcher ≡ dispatching c
      → Reach paced (give_slot c s)
  wake_spuriously :
      {s : Handoff}
      → Reach paced s
      → paced ≡ false
      → s.dispatcher ≡ waiting
      → Reach paced (record s { dispatcher = woken })

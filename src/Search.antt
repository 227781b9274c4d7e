-- ===== src/Search.antt =====
-- How `get_E` of ThreadPool.c looks for a free slot while the threads of the pool give slots back in
-- `close_client_with_status`: each test of a slot, each write of `used`, and each access to the mutex and
-- the condition variable of the pool is one step, and the steps interleave.
pub mod Found
pub mod Deadlock
use image_app.Common.{
  ℕ, zero, suc, ◌+◌, ◌%◌, ◌≤◌, ◌<◌, ◌≡◌, Bool, true, false, some, List, get_elem?, set, length,
}

-- Who has locked the mutex of the pool: `get_E`, or a thread, before or behind its signal.
pub data Keeper : Type 0 where
  no_keeper : Keeper
  by_search : Keeper
  by_closer : Keeper
  by_notifier : Keeper

-- Where `get_E` stands: before the test with the counter `i`, with a slot that it has found, behind
-- a search that found none, before and in its wait, signalled but without the mutex, and with it.
pub data SearchPc : Type 0 where
  testing : ℕ → SearchPc
  found : ℕ → SearchPc
  none_free : SearchPc
  full_locked : SearchPc
  full_waiting : SearchPc
  full_woken : SearchPc
  full_held : SearchPc

-- `E` and `used` of the pool, where `true` is a slot in use, and the threads that have given back a slot
-- and have not locked the mutex yet.
pub record Search : Type 0 where
  pub end : ℕ
  pub used : List Bool
  pub keeper : Keeper
  pub pc : SearchPc
  pub closers : ℕ

-- pthread_cond_signal on `cb_not_full`, lost if `get_E` does not wait.
abbrev pub not_full : SearchPc → SearchPc
not_full full_waiting = full_woken
not_full pc = pc

abbrev pub tested : Search → ℕ → ℕ
tested s i = (s.end + i) % length s.used

pub data Move (s : Search) : Search → Type 0 where
  see_used :
      (i : ℕ)
      → s.pc ≡ testing i
      → i < length s.used
      → get_elem? s.used (tested s i) ≡ some true
      → Move s (record s { pc = testing (suc i) })
  see_free :
      (i : ℕ)
      → s.pc ≡ testing i
      → i < length s.used
      → get_elem? s.used (tested s i) ≡ some false
      → Move s (record s { end = (tested s i + 1) % length s.used; pc = found (tested s i) })
  see_all : (i : ℕ) → s.pc ≡ testing i → length s.used ≤ i → Move s (record s { pc = none_free })
  search_get :
      s.pc ≡ none_free
      → s.keeper ≡ no_keeper
      → Move s (record s { keeper = by_search; pc = full_locked })
  search_wait : s.pc ≡ full_locked → Move s (record s { keeper = no_keeper; pc = full_waiting })
  search_wake :
      s.pc ≡ full_woken
      → s.keeper ≡ no_keeper
      → Move s (record s { keeper = by_search; pc = full_held })
  search_again : s.pc ≡ full_held → Move s (record s { keeper = no_keeper; pc = testing 0 })
  fill :
      (nE : ℕ) → s.pc ≡ found nE → Move s (record s { used = set s.used nE true; pc = testing 0 })
  give_back :
      (j : ℕ)
      → get_elem? s.used j ≡ some true
      → Move s (record s { used = set s.used j false; closers = suc s.closers })
  closer_get :
      (k : ℕ)
      → s.closers ≡ suc k
      → s.keeper ≡ no_keeper
      → Move s (record s { keeper = by_closer; closers = k })
  closer_signal :
      s.keeper ≡ by_closer → Move s (record s { keeper = by_notifier; pc = not_full s.pc })
  closer_release : s.keeper ≡ by_notifier → Move s (record s { keeper = no_keeper })

-- The states that a state leads to, by moves and by waits that come back without a signal, as POSIX lets
-- them.
pub data Leads (s : Search) : Search → Type 0 where
  here : Leads s s
  then_move : {t u : Search} → Leads s t → Move t u → Leads s u
  wake_spuriously :
      {t : Search} → Leads s t → t.pc ≡ full_waiting → Leads s (record t { pc = full_woken })

-- ===== src/Growth.antt =====
-- How the main loop of HttpServer.c waits for `handle_pool` of ThreadPool.c to double the number of pools:
-- each access to a mutex or a condition variable is one step, and so is the doubling; the steps of the
-- two threads, and of the threads that lock `mtx_realloc` in `handle_timer`, interleave.
pub mod Doubling
pub mod Deadlock
use image_app.Common.{ℕ, zero, suc, ◌+◌, ◌<◌, ◌≡◌}

-- Who has locked `mtx_realloc`.
pub data Keeper : Type 0 where
  no_keeper : Keeper
  by_pools : Keeper
  by_timer : Keeper

-- Where the main loop stands: it does not grow, is about to signal `cond_realloc`, to get
-- `mtx_realloc_end`, which no other thread gets, and to wait; it waits for `cond_realloc_end`, is
-- signalled, and is about to release the mutex.
pub data GrowPc : Type 0 where
  calm : GrowPc
  asking : GrowPc
  asked : GrowPc
  end_locked : GrowPc
  end_waiting : GrowPc
  end_woken : GrowPc
  end_held : GrowPc

-- Where `handle_pool` stands: before it gets the mutex, before and in its wait, signalled but without
-- the mutex, before the doubling, before its signal, and before it releases the mutex.
pub data PoolsPc : Type 0 where
  pools_start : PoolsPc
  pools_locked : PoolsPc
  pools_waiting : PoolsPc
  pools_woken : PoolsPc
  allocating : PoolsPc
  doubled : PoolsPc
  pools_signalled : PoolsPc

-- `size_pool`, `s` of the main loop, which is `size_pool` when it last looked, the two threads, how many growths the main loop has begun and has come back from, how
-- often the number of pools was doubled, and how many waits of the main loop and of `handle_pool` came
-- back without a signal.
pub record Growth : Type 0 where
  pub size_pool : ℕ
  pub seen : ℕ
  pub keeper : Keeper
  pub main : GrowPc
  pub pools : PoolsPc
  pub begun : ℕ
  pub ended : ℕ
  pub doublings : ℕ
  pub main_spurious : ℕ
  pub pools_spurious : ℕ

-- pthread_cond_signal on `cond_realloc` and on `cond_realloc_end`: lost if the other thread does not
-- wait.
abbrev pub start_signal : PoolsPc → PoolsPc
start_signal pools_waiting = pools_woken
start_signal pc = pc

abbrev pub end_signal : GrowPc → GrowPc
end_signal end_waiting = end_woken
end_signal pc = pc

abbrev pub first_growth : ℕ → Growth
first_growth n = record {
  size_pool = n;
  seen = n;
  keeper = no_keeper;
  main = calm;
  pools = pools_start;
  begun = 0;
  ended = 0;
  doublings = 0;
  main_spurious = 0;
  pools_spurious = 0;
}

-- POSIX lets a wait come back without a signal: the two moves `…_spuriously`.
pub data Move (s : Growth) : Growth → Type 0 where
  grow : s.main ≡ calm → s.seen + s.seen < 32 → Move s (record s { main = asking })
  ask :
      s.main ≡ asking
      → Move s (record s { main = asked; pools = start_signal s.pools; begun = suc s.begun })
  get_end : s.main ≡ asked → Move s (record s { main = end_locked })
  wait_end : s.main ≡ end_locked → Move s (record s { main = end_waiting })
  end_spuriously :
      s.main ≡ end_waiting
      → Move s (record s { main = end_woken; main_spurious = suc s.main_spurious })
  wake_end : s.main ≡ end_woken → Move s (record s { main = end_held })
  release_end :
      s.main ≡ end_held → Move s (record s { main = calm; seen = s.size_pool; ended = suc s.ended })
  pools_get :
      s.pools ≡ pools_start
      → s.keeper ≡ no_keeper
      → Move s (record s { keeper = by_pools; pools = pools_locked })
  pools_wait :
      s.pools ≡ pools_locked → Move s (record s { keeper = no_keeper; pools = pools_waiting })
  pools_spuriously :
      s.pools ≡ pools_waiting
      → Move s (record s { pools = pools_woken; pools_spurious = suc s.pools_spurious })
  pools_wake :
      s.pools ≡ pools_woken
      → s.keeper ≡ no_keeper
      → Move s (record s { keeper = by_pools; pools = allocating })
  double :
      s.pools ≡ allocating
      → Move s (record s {
        size_pool = s.size_pool + s.size_pool;
        pools = doubled;
        doublings = suc s.doublings;
      })
  signal_end :
      s.pools ≡ doubled → Move s (record s { main = end_signal s.main; pools = pools_signalled })
  pools_release :
      s.pools ≡ pools_signalled → Move s (record s { keeper = no_keeper; pools = pools_start })
  timer_get : s.keeper ≡ no_keeper → Move s (record s { keeper = by_timer })
  timer_release : s.keeper ≡ by_timer → Move s (record s { keeper = no_keeper })

-- The states that a state leads to.
pub data Leads (s : Growth) : Growth → Type 0 where
  here : Leads s s
  then_move : {t u : Growth} → Leads s t → Move t u → Leads s u

-- ===== src/Server.antt =====
-- The table of pools: `init_server`, a client of the main loop of HttpServer.c, and `handle_pool` of
-- ThreadPool.c, which doubles the number of pools while the main loop waits for it.
pub mod Pools
pub mod Startup
pub mod Main
pub mod Signal
use image_app.Common.{
  ℕ, zero, suc, ◌+◌, ◌-◌, ◌*◌, ◌/◌, ◌%◌, ◌^◌, ◌≡◌, refl, Bool, true, false, Option, none, some,
  List, [], ◌∷◌, Outcome, ok, fault, ◌>>=◌, load, store, ltb, leb, if◌then◌else◌, replicate, length,
  set,
}
use image_app.ThreadPool.{Pool, allocate_pool}
use image_app.Setup.{Item, set_up_growth}

-- `pool`, an array of 32 pointers, `size_pool`, and `idx_pool` of the main loop, whose `s` is
-- `size_pool` whenever a round begins.
pub record Server : Type 0 where
  pub table : List (Option Pool)
  pub size_pool : ℕ
  pub idx_pool : ℕ

-- The loops over allocate_pool, from `i` on.
pub allocate_from : ℕ → ℕ → ℕ → List (Option Pool) → Outcome (List (Option Pool))
allocate_from num_threads i zero table = ok table
allocate_from num_threads i (suc left) table = do
  t ← store table i (some (allocate_pool num_threads i))
  allocate_from num_threads (i + 1) left t

-- One round of `handle_pool`, which ends the process at the first of its calls that fails.
handle_pool : (Item → Bool) → ℕ → Server → Outcome Server
handle_pool kernel num_threads s = do
  made ← set_up_growth kernel num_threads s.size_pool
  t ← allocate_from num_threads s.size_pool s.size_pool s.table
  ok (record s { table = t; size_pool = s.size_pool + s.size_pool })

-- (int)(num_thread_pool * s), which is then increased by one as an int.
to_index : ℕ → Outcome ℕ
to_index n = if ltb n (2 ^ 31 - 1) then ok n else fault

-- The main loop waits for the growth; how this wait can fail to end is in Growth.antt.
grow_pools : (Item → Bool) → ℕ → Server → Outcome Server
unfolding handle_pool
grow_pools kernel num_threads s =
    if ltb (s.size_pool + s.size_pool) 32 then handle_pool kernel num_threads s else ok s

-- The pool that a client is handed to: its dispatcher must have been started.
chosen : Option Pool → Outcome Pool
chosen none = fault
chosen (some p) = ok p

-- A round of the main loop that accepts a client and comes to its end, when `max_descriptor` is the
-- number given; `kernel` is what the calls of a growth answer.
unfoldable pub accept_round : (Item → Bool) → ℕ → ℕ → Server → Outcome Server
unfolding to_index grow_pools chosen
accept_round kernel num_threads max_descriptor s = do
  entry ← load s.table s.idx_pool
  p ← chosen entry
  r ←
      if leb (num_threads * s.size_pool / 2) max_descriptor
      then (grow_pools kernel num_threads s >>= λ g.
          to_index (num_threads * s.size_pool) >>= λ i. ok (record g { idx_pool = i }))
      else ok s
  ok (record r { idx_pool = (r.idx_pool + 1) % r.size_pool })

-- The pools that `init_server` makes, and the index the main loop starts with.
unfoldable pub init_server : ℕ → ℕ → Outcome Server
unfolding allocate_from
init_server num_threads size_pool =
    allocate_from num_threads 0 size_pool (replicate 32 none) >>= λ t.
    ok (record { table = t; size_pool = size_pool; idx_pool = 0 })

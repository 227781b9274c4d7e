-- ===== src/Setup.antt =====
-- What `init_server` of HttpServer.c and `allocate_pool` of ThreadPool.c set up with calls that end the
-- process when they fail, with `init_mtx_db` and `connect_DB` of HandleDB.c and the functions of Utils.c
-- around one call: connections, mutexes, condition variables and threads, in their order.
pub mod Order
use image_app.Common.{
  ℕ, zero, suc, ◌+◌, ◌≡◌, Bool, true, false, not, ◌&&◌, Option, none, some, List, [], ◌∷◌, ◌++◌,
  Bytes, Outcome, ok, exit, ◌>>=◌, replicate, if◌then◌else◌,
}

-- `socket`, with -1 as `none`.
pub create_socket : Option ℕ → Outcome ℕ
create_socket none = exit
create_socket (some sock_fd) = ok sock_fd

-- The options that are set; each is asked for by its argument, and has its own answer.
pub set_socket_options : Bool → Bool → Bool → Bool → Outcome (Unit {0})
set_socket_options keep_alive reuse_addr kept reused =
    if keep_alive && not kept then exit else if reuse_addr && not reused then exit else ok tt

pub bind_address : Bool → Outcome (Unit {0})
bind_address bound = if bound then ok tt else exit

-- calloc, with what it leaves in errno.
memory_alloc : ℕ → Bool → Bool → Outcome Bytes
memory_alloc size allocated errno_set =
    if allocated && not errno_set then ok (replicate size 0) else exit

-- The listening socket: what socket, setsockopt, bind and listen answer.
pub record ListenCalls : Type 0 where
  pub socket : Option ℕ
  pub reused : Bool
  pub bound : Bool
  pub heard : Bool

unfoldable pub open_listener : ListenCalls → Outcome ℕ
unfolding create_socket set_socket_options bind_address
open_listener calls = do
  listen_sock ← create_socket calls.socket
  options ← set_socket_options false true true calls.reused
  address ← bind_address calls.bound
  if calls.heard then ok listen_sock else exit

-- What is set up: for the slots of a pool, for a pool, for its dispatcher, and once. `pool_memory` stands
-- for all the blocks that are allocated for a pool and its dispatcher.
pub data Item : Type 0 where
  slot_db : ℕ → ℕ → Item
  slot_mutex : ℕ → ℕ → Item
  slot_cond : ℕ → ℕ → Item
  client_thread : ℕ → ℕ → Item
  pool_memory : ℕ → Item
  pool_mutex : ℕ → Item
  pool_cond : ℕ → Item
  dispatch_mutex : ℕ → Item
  dispatch_cond : ℕ → Item
  dispatch_thread : ℕ → Item
  db_mutex : ℕ → Item
  db_cache_mutex : Item
  accept_mutex : Item
  realloc_end_mutex : Item
  realloc_cond : Item
  realloc_end_cond : Item
  realloc_mutex : Item
  max_d_mutex : Item
  pools_thread : Item
  fd_cache_mutex : Item
  usr1_handler : Item

-- Both loops of `allocate_pool`, from the slot `i` on.
slot_items : ℕ → ℕ → ℕ → List Item
slot_items idx_pool i zero = []
slot_items idx_pool i (suc left) =
    slot_db idx_pool i
    ∷ slot_mutex idx_pool i
    ∷ slot_cond idx_pool i
    ∷ slot_items idx_pool (i + 1) left

thread_items : ℕ → ℕ → ℕ → List Item
thread_items idx_pool i zero = []
thread_items idx_pool i (suc left) = client_thread idx_pool i ∷ thread_items idx_pool (i + 1) left

pool_items : ℕ → ℕ → List Item
unfolding slot_items thread_items
pool_items num_threads idx_pool =
    pool_memory idx_pool ∷ slot_items idx_pool 0 num_threads
    ++ (thread_items idx_pool 0 num_threads ++ pool_mutex idx_pool ∷ pool_cond idx_pool ∷ [])

-- The loops of `init_server` over the pools and over the dispatchers, and that of `init_mtx_db`.
pools_items : ℕ → ℕ → ℕ → List Item
unfolding pool_items
pools_items num_threads p zero = []
pools_items num_threads p (suc left) =
    pool_items num_threads p ++ pools_items num_threads (p + 1) left

dispatch_items : ℕ → ℕ → List Item
dispatch_items counter zero = []
dispatch_items counter (suc left) =
    dispatch_mutex counter
    ∷ dispatch_cond counter
    ∷ dispatch_thread counter
    ∷ dispatch_items (counter + 1) left

db_items : ℕ → ℕ → List Item
db_items i zero = []
db_items i (suc left) = db_mutex i ∷ db_items (i + 1) left

-- What `init_server` sets up behind the cache of images, up to `init_mtx_db`, and all of it.
global_items : List Item
unfolding db_items
global_items =
    accept_mutex
      ∷ realloc_end_mutex
      ∷ realloc_cond
      ∷ realloc_end_cond
      ∷ realloc_mutex
      ∷ max_d_mutex
      ∷ db_items 0 16
    ++ db_cache_mutex ∷ []

late_items : ℕ → List Item
unfolding global_items dispatch_items
late_items size_pool =
    global_items
    ++ (dispatch_items 0 size_pool ++ pools_thread ∷ fd_cache_mutex ∷ usr1_handler ∷ [])

-- What `handle_pool` sets up for the new pools, from the pool `p` on.
growth_items : ℕ → ℕ → ℕ → List Item
unfolding pool_items
growth_items num_threads p zero = []
growth_items num_threads p (suc left) =
    pool_items num_threads p
    ++ dispatch_mutex p
      ∷ dispatch_cond p
      ∷ dispatch_thread p
      ∷ growth_items num_threads (p + 1) left

-- Each call, with what it answers, up to the first that fails.
perform : (Item → Bool) → List Item → Outcome (List Item)
perform kernel [] = ok []
perform kernel (x ∷ xs) =
    let rest = perform kernel xs >>= λ made. ok (x ∷ made) in if kernel x then rest else exit

pub set_up_growth : (Item → Bool) → ℕ → ℕ → Outcome (List Item)
unfolding growth_items
set_up_growth kernel num_threads size_pool =
    perform kernel (growth_items num_threads size_pool size_pool)

-- The loop over `allocate_pool`, and the rest, behind the cache of images.
pub set_up_pools : (Item → Bool) → ℕ → ℕ → Outcome (List Item)
set_up_pools kernel num_threads size_pool = perform kernel (pools_items num_threads 0 size_pool)

pub set_up_rest : (Item → Bool) → ℕ → Outcome (List Item)
set_up_rest kernel size_pool = perform kernel (late_items size_pool)

-- All that is set up at the start.
pub set_up : (Item → Bool) → ℕ → ℕ → Outcome (List Item)
unfolding set_up_pools set_up_rest
set_up kernel num_threads size_pool = do
  early ← set_up_pools kernel num_threads size_pool
  late ← set_up_rest kernel size_pool
  ok (early ++ late)

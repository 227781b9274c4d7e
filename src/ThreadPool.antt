-- ===== src/ThreadPool.antt =====
-- ThreadPool.c: pools of threads as ring buffers of slots, the dispatcher that finds a free slot, the
-- release of a slot, and the keep-alive timer. Only the dispatcher of a pool takes its slots; what
-- the other threads do to the pool falls between its steps, each of which is a function on the
-- state. A wait on a condition variable is a new look at a later state.
pub mod Ring
pub mod Slots
pub mod Counter
pub mod Timer
use image_app.Common.{
  ℕ, zero, suc, ◌+◌, ◌%◌, ◌≡◌, refl, Bool, true, false, Option, none, some, List, [], ◌∷◌, ◌++◌,
  Outcome, ok, exit, fault, ◌>>=◌, load, store, if◌then◌else◌, ◌==◌, length, set, replicate, ℤ, pos,
  negsuc, add_ℕ, decrement, decrement_u64, is_nat,
}

-- The fields of `struct thread_data` that the program reads. `used` is -1 for a free slot.
pub record ThreadData : Type 0 where
  pub conn_sd : ℕ
  pub client_addr : ℕ
  pub msg_received : ℤ
  pub timer : ℤ
  pub request : ℤ
  pub used : ℤ
  pub idx_pool : ℕ
  pub slot : ℕ

-- `struct pool_t`; `end` is its field E.
pub record Pool : Type 0 where
  pub end : ℕ
  pub arr : List ThreadData
  pub counter : ℤ

-- The slot `i` of a new pool. What `allocate_pool` does not set is 0, since the block is calloc's.
abbrev pub new_slot : ℕ → ℕ → ThreadData
new_slot idx_pool i = record {
  conn_sd = 0;
  client_addr = 0;
  msg_received = pos 0;
  timer = pos 0;
  request = pos 0;
  used = negsuc 0;
  idx_pool = idx_pool;
  slot = i;
}

-- `while (i < num_threads)`, with `left` slots to go.
new_slots : ℕ → ℕ → ℕ → List ThreadData
new_slots idx_pool i zero = []
new_slots idx_pool i (suc left) = new_slot idx_pool i ∷ new_slots idx_pool (i + 1) left

-- The pool that `allocate_pool` puts at `pool[idx_pool]`.
unfoldable pub allocate_pool : ℕ → ℕ → Pool
unfolding new_slots
allocate_pool num_threads idx_pool = record {
  end = 0;
  arr = new_slots idx_pool 0 num_threads;
  counter = pos 0;
}

-- `arr[nE].used == -1`
unfoldable pub is_free : ThreadData → Bool
is_free td = elim td.used [ pos n ↦ false | negsuc n ↦ n == 0 ]

-- The inner loop of `get_E`, with `left` rounds to go: the first free slot from `end + i` on.
unfoldable pub find_free : ℕ → Pool → ℕ → ℕ → Outcome (Option ℕ)
find_free n p i zero = ok none
find_free n p i (suc left) =
    let nE = (p.end + i) % n in
    let next = find_free n p (i + 1) left in
    load p.arr nE >>= λ td. if is_free td then ok (some nE) else next

-- One round of the outer loop: `none` stands for the wait on `cb_not_full`.
unfoldable pub get_E_round : ℕ → Pool → Outcome (Option (ℕ × Pool))
get_E_round n p = find_free n p 0 n >>= λ found. ok (elim found [
  | none ↦ none
  | some nE ↦ some (nE, record p { end = (nE + 1) % n; counter = add_ℕ p.counter 1 })
])

-- `get_E`, on the states of the pool that it finds at the start and each time it is woken.
unfoldable pub get_E : ℕ → List Pool → Outcome (Option (ℕ × Pool))
get_E n [] = ok none
get_E n (p ∷ woken) =
    let again = get_E n woken in
    get_E_round n p >>= λ r. elim r [ none ↦ again | some found ↦ ok (some found) ]

-- What `dispatch_job` writes to the slot of a client.
abbrev pub occupied : ℕ → ℕ → ThreadData → ThreadData
occupied conn_sd client_addr td = record td {
  conn_sd = conn_sd;
  client_addr = client_addr;
  timer = pos 5;
  request = pos 1000;
  msg_received = pos 1;
  used = pos 1;
}

-- A round of `dispatch_job`, behind the wait for a client: the slot is found and filled.
unfoldable pub dispatch_job : ℕ → List Pool → ℕ → ℕ → Outcome (Option (ℕ × Pool))
dispatch_job n states conn_sd client_addr = do
  found ← get_E n states
  elim found [
    | none ↦ ok none
    | some (nE, p) ↦ load p.arr nE >>= λ td.
        store p.arr nE (occupied conn_sd client_addr td) >>= λ arr.
        ok (some (nE, record p { arr = arr; counter = add_ℕ p.counter 1 }))
  ]

abbrev pub freed : ThreadData → ThreadData
freed td = record td { used = negsuc 0; timer = pos 5; msg_received = pos 0; request = pos 1000 }

-- `close_client_with_status` for a slot of the pool, on the pool and on `max_descriptor`,
-- an nfds_t. Its callers pass the status CONNECTION_CLOSED, for which the socket is closed and the counter falls.
unfoldable pub close_client : Pool → ℕ → ℕ → Bool → Outcome (Pool × ℕ)
close_client p max_descriptor nE connection_closed = do
  td ← load p.arr nE
  arr ← store p.arr nE (freed td)
  ok (
    record p { arr = arr; counter = if connection_closed then decrement p.counter else p.counter },
    decrement_u64 max_descriptor,
  )

-- ===== src/Server/Signal.antt =====
-- `sig_hndl` of HttpServer.c, which prints what every slot of every pool has in `used`.
use image_app.Common.{
  ℕ, zero, suc, ◌+◌, ◌*◌, ◌≤◌, ◌≡◌, refl, ◌∙◌, some, List, [], ◌∷◌, ◌++◌, Bytes, codes, Outcome, ok,
  ◌>>=◌, load, load-in, load-some, length, length-append, get_elem?, arith, ℤ, Option,
}
use image_app.Log.{percent_d}
use image_app.ThreadPool.{Pool, ThreadData}
use image_app.Server.{Server, chosen}
use image_app.Server.Pools.{Sound, Filled}
use image_app.Server.Startup.{signed}

used_line : ℕ → ℕ → ℤ → Bytes
used_line i j used =
    codes "pool "
    ++ (percent_d i
        ++ (codes " thread " ++ (percent_d j ++ (codes " used " ++ (signed used ++ codes "\n")))))

-- The inner loop, from the slot `j` on.
print_slots : ℕ → List ThreadData → ℕ → ℕ → Outcome (List Bytes)
unfolding used_line
print_slots i arr j zero = ok []
print_slots i arr j (suc left) = do
  td ← load arr j
  lines ← print_slots i arr (j + 1) left
  ok (used_line i j td.used ∷ lines)

-- The outer loop, from the pool `i` on.
print_pools : ℕ → List (Option Pool) → ℕ → ℕ → Outcome (List Bytes)
unfolding print_slots
print_pools num_threads table i zero = ok []
print_pools num_threads table i (suc left) = do
  entry ← load table i
  p ← chosen entry
  slots ← print_slots i p.arr 0 num_threads
  lines ← print_pools num_threads table (i + 1) left
  ok (slots ++ lines)

-- The texts of the calls of fprintf, in their order.
unfoldable pub sig_hndl : ℕ → Server → Outcome (List Bytes)
unfolding print_pools chosen
sig_hndl num_threads s = print_pools num_threads s.table 0 s.size_pool

-- Every pool of the table has so many slots.
abbrev pub Sized : ℕ → List (Option Pool) → Type 0
Sized n table = (i : ℕ) (p : Pool) → get_elem? table i ≡ some (some p) → length p.arr ≡ n

print_slots-ok :
    (i : ℕ) (arr : List ThreadData) (j left : ℕ)
    → j + left ≤ length arr
    → (lines : List Bytes) × (print_slots i arr j left ≡ ok lines) × (length lines ≡ left)
unfolding print_slots
print_slots-ok i arr j zero h = ([], refl, refl)
print_slots-ok i arr j (suc left) h =
    let (td, e) = load-in arr j (omega arith) in
    let (lines, e', l) = print_slots-ok i arr (j + 1) left (omega arith) in
    (used_line i j td.used ∷ lines, rw (e, e') refl, omega (arith, l))

print_pools-ok :
    (num_threads : ℕ) (table : List (Option Pool)) (i left : ℕ)
    → Filled (i + left) table
    → Sized num_threads table
    → (lines : List Bytes) × (print_pools num_threads table i left ≡ ok lines)
      × (length lines ≡ left * num_threads)
unfolding print_pools chosen
print_pools-ok n table i zero filled sized = ([], refl, omega arith)
print_pools-ok n table i (suc left) filled sized =
    let (p, there) = filled i (omega arith) in
    let (slots, e, l) = print_slots-ok i p.arr 0 n (omega (arith, sized i p there)) in
    let (lines, e', l') =
      print_pools-ok n table (i + 1) left (λ k h. filled k (omega arith)) sized in
    (
      slots ++ lines,
      rw (load-some table i there, e, e') refl,
      length-append slots lines ∙ omega (arith, l, l'),
    )

-- On the pools that the main loop keeps, each with its slots, the handler reads inside the blocks,
-- and prints one line for every slot.
pub sig_hndl_lem :
    (num_threads : ℕ) (s : Server)
    → Sound s
    → Sized num_threads s.table
    → (lines : List Bytes) × (sig_hndl num_threads s ≡ ok lines)
      × (length lines ≡ s.size_pool * num_threads)
unfolding sig_hndl
sig_hndl_lem n s sound sized =
    print_pools-ok n s.table 0 s.size_pool (λ i h. sound.filled i (omega arith)) sized

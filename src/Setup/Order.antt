-- ===== src/Setup/Order.antt =====
-- Which of the calls at the start come before which.
use native.Mathlib.Decide.{dec_lt}
use image_app.Common.{
  ℕ, zero, suc, ◌+◌, ◌<◌, ◌≤◌, ◌≡◌, refl, ap, subst, Bool, true, inl, inr, List, [], ◌∷◌, ◌++◌, ok,
  arith, Bool-cases, first_of,
}
use image_app.Setup.{
  Item, slot_mutex, slot_cond, client_thread, pool_mutex, pool_cond, dispatch_mutex, dispatch_cond,
  dispatch_thread, realloc_cond, realloc_mutex, pools_thread, fd_cache_mutex, usr1_handler,
  slot_items, thread_items, pool_items, pools_items, dispatch_items, global_items, late_items,
  growth_items, perform, set_up_growth, set_up_pools, set_up_rest, set_up,
}

-- `x` is in the list, and it is in the list in front of `y`.
pub data Occurs (x : Item) : List Item → Type 0 where
  first : {xs : List Item} → Occurs x (x ∷ xs)
  later : {y : Item} {xs : List Item} → Occurs x xs → Occurs x (y ∷ xs)

pub data Before (x y : Item) : List Item → Type 0 where
  first_then : {xs : List Item} → Occurs y xs → Before x y (x ∷ xs)
  behind : {z : Item} {xs : List Item} → Before x y xs → Before x y (z ∷ xs)

Occurs-front : {x : Item} (xs : List Item) {ys : List Item} → Occurs x ys → Occurs x (xs ++ ys)
Occurs-front [] o = o
Occurs-front (z ∷ xs) o = later (Occurs-front xs o)

Occurs-back : {x : Item} {xs : List Item} (ys : List Item) → Occurs x xs → Occurs x (xs ++ ys)
Occurs-back ys first = first
Occurs-back ys (later o) = later (Occurs-back ys o)

Before-front :
    {x y : Item} (xs : List Item) {ys : List Item} → Before x y ys → Before x y (xs ++ ys)
Before-front [] b = b
Before-front (z ∷ xs) b = behind (Before-front xs b)

Before-back : {x y : Item} {xs : List Item} (ys : List Item) → Before x y xs → Before x y (xs ++ ys)
Before-back ys (first_then o) = first_then (Occurs-back ys o)
Before-back ys (behind b) = behind (Before-back ys b)

Before-both : {x y : Item} {xs ys : List Item} → Occurs x xs → Occurs y ys → Before x y (xs ++ ys)
Before-both {xs = z ∷ xs} first o = first_then (Occurs-front xs o)
Before-both (later p) o = behind (Before-both p o)

Occurs-same : {x y : Item} {xs : List Item} → x ≡ y → Occurs x xs → Occurs y xs
Occurs-same {xs = xs} e o = subst (λ z. Occurs z xs) e o

Before-same : {x y u v : Item} {xs : List Item} → x ≡ u → y ≡ v → Before x y xs → Before u v xs
Before-same {x = x} {v = v} {xs = xs} e f b =
    subst (λ z. Before z v xs) e (subst (λ z. Before x z xs) f b)

-- A slot of the pool has its mutex, its condition variable and its thread.
slot-there :
    (p i j left : ℕ)
    → i ≤ j
    → j < i + left
    → Occurs (slot_mutex p j) (slot_items p i left) × Occurs (slot_cond p j) (slot_items p i left)
unfolding slot_items
slot-there p i j zero h l = absurd (omega arith)
slot-there p i j (suc left) h l = elim (dec_lt i j) [
  | yes past ↦
      let (m, c) = slot-there p (i + 1) j left (omega arith) (omega arith) in
      (later (later (later m)), later (later (later c)))
  | no last ↦
      let same : i ≡ j = omega arith in
      (
        Occurs-same (ap (slot_mutex p) same) (later first),
        Occurs-same (ap (slot_cond p) same) (later (later first)),
      )
]

thread-there :
    (p i j left : ℕ) → i ≤ j → j < i + left → Occurs (client_thread p j) (thread_items p i left)
unfolding thread_items
thread-there p i j zero h l = absurd (omega arith)
thread-there p i j (suc left) h l = elim (dec_lt i j) [
  | yes past ↦ later (thread-there p (i + 1) j left (omega arith) (omega arith))
  | no last ↦ let same : i ≡ j = omega arith in Occurs-same (ap (client_thread p) same) first
]

-- What a pool has, and what stands before what in it.
pool-order :
    (n p j : ℕ)
    → j < n
    → Before (slot_mutex p j) (client_thread p j) (pool_items n p)
      × Before (slot_cond p j) (client_thread p j) (pool_items n p)
unfolding pool_items
pool-order n p j h =
    let (m, c) = slot-there p 0 j n (omega arith) (omega arith) in
    let thread =
      Occurs-back (pool_mutex p ∷ pool_cond p ∷ [])
        (thread-there p 0 j n (omega arith) (omega arith)) in
    (behind (Before-both m thread), behind (Before-both c thread))

pool-there :
    (n p : ℕ) → Occurs (pool_mutex p) (pool_items n p) × Occurs (pool_cond p) (pool_items n p)
unfolding pool_items
pool-there n p = (
  later (Occurs-front (slot_items p 0 n) (Occurs-front (thread_items p 0 n) first)),
  later (Occurs-front (slot_items p 0 n) (Occurs-front (thread_items p 0 n) (later first))),
)

-- The threads of the slots come before what they lock and signal when a client is released.
threads-early :
    (n p j : ℕ)
    → j < n
    → Before (client_thread p j) (pool_mutex p) (pool_items n p)
      × Before (client_thread p j) (pool_cond p) (pool_items n p)
unfolding pool_items
threads-early n p j h =
    let thread = thread-there p 0 j n (omega arith) (omega arith) in
    (
      behind (Before-front (slot_items p 0 n) (Before-both thread first)),
      behind (Before-front (slot_items p 0 n) (Before-both thread (later first))),
    )

-- A pool is among all pools.
among :
    (P : List Item → Type 0) (n p q left : ℕ)
    → ((xs ys : List Item) → P ys → P (xs ++ ys))
    → ((xs ys : List Item) → P xs → P (xs ++ ys))
    → q ≤ p
    → p < q + left
    → P (pool_items n p)
    → P (pools_items n q left)
unfolding pools_items
among P n p q zero front back h l there = absurd (omega arith)
among P n p q (suc left) front back h l there = elim (dec_lt q p) [
  | yes past ↦
      front (pool_items n q) _
        (among P n p (q + 1) left front back (omega arith) (omega arith) there)
  | no last ↦
      let same : p ≡ q = omega arith in
      back (pool_items n q) _ (subst (λ k. P (pool_items n k)) same there)
]

dispatch-order :
    (c p left : ℕ)
    → c ≤ p
    → p < c + left
    → Before (dispatch_mutex p) (dispatch_thread p) (dispatch_items c left)
      × Before (dispatch_cond p) (dispatch_thread p) (dispatch_items c left)
      × Occurs (dispatch_thread p) (dispatch_items c left)
unfolding dispatch_items
dispatch-order c p zero h l = absurd (omega arith)
dispatch-order c p (suc left) h l = elim (dec_lt c p) [
  | yes past ↦
      let (m, v, t) = dispatch-order (c + 1) p left (omega arith) (omega arith) in
      (behind (behind (behind m)), behind (behind (behind v)), later (later (later t)))
  | no last ↦
      let same : c ≡ p = omega arith in
      (
        Before-same (ap dispatch_mutex same) (ap dispatch_thread same) (first_then (later first)),
        Before-same (ap dispatch_cond same) (ap dispatch_thread same) (behind (first_then first)),
        Occurs-same (ap dispatch_thread same) (later (later first)),
      )
]

performed :
    (kernel : Item → Bool) (xs : List Item) {made : List Item}
    → perform kernel xs ≡ ok made
    → xs ≡ made
unfolding perform
performed kernel [] e = ground (arith, e)
performed kernel (x ∷ xs) {made} e = elim (Bool-cases (kernel x)) [
  | inr failed ↦ absurd (ground (arith, failed, e))
  | inl succeeded ↦
      let (rest, there, whole) =
        first_of (perform kernel xs) (λ made. ok (x ∷ made)) (rw (succeeded) at e) in
      let same = performed kernel xs there in ground (arith, same, whole)
]

-- The order of the start, for the pool `p` and its slot `j`.
abbrev pub Ordered : ℕ → ℕ → List Item → Type 0
Ordered p j made =
    Before (slot_mutex p j) (client_thread p j) made
    × Before (slot_cond p j) (client_thread p j) made
    × Before (dispatch_mutex p) (dispatch_thread p) made
    × Before (dispatch_cond p) (dispatch_thread p) made
    × Before (pool_mutex p) (dispatch_thread p) made
    × Before (pool_cond p) (dispatch_thread p) made
    × Before (client_thread p j) (pool_mutex p) made
    × Before (client_thread p j) (pool_cond p) made
    × Before realloc_mutex pools_thread made
    × Before realloc_cond pools_thread made

late-dispatch :
    (p k : ℕ)
    → p < k
    → Before (dispatch_mutex p) (dispatch_thread p) (late_items k)
      × Before (dispatch_cond p) (dispatch_thread p) (late_items k)
      × Occurs (dispatch_thread p) (late_items k)
unfolding late_items
late-dispatch p k h =
    let (m, v, t) = dispatch-order 0 p k (omega arith) (omega arith) in
    (
      front (Before-back end m),
      front (Before-back end v),
      Occurs-front global_items (Occurs-back end t),
    )
  where
    end : List Item
    end = pools_thread ∷ fd_cache_mutex ∷ usr1_handler ∷ []

    front :
        {x y : Item}
        → Before x y (dispatch_items 0 k ++ end)
        → Before x y (global_items ++ (dispatch_items 0 k ++ end))
    front = Before-front global_items

globals-there : Occurs realloc_mutex global_items × Occurs realloc_cond global_items
unfolding global_items
globals-there = (later (later (later (later first))), later (later first))

late-pools :
    (k : ℕ)
    → Before realloc_mutex pools_thread (late_items k)
      × Before realloc_cond pools_thread (late_items k)
unfolding late_items
late-pools k =
    let thread : Occurs pools_thread
        (dispatch_items 0 k ++ pools_thread ∷ fd_cache_mutex ∷ usr1_handler ∷ []) =
      Occurs-front (dispatch_items 0 k) first in
    (Before-both globals-there.0 thread, Before-both globals-there.1 thread)

-- When everything at the start can be set up, the thread of each slot is created behind the mutex and
-- the condition variable of its slot, each dispatcher behind its own and behind those of its pool,
-- and `handle_pool` behind the mutex and the condition variable that it waits on. But the threads of
-- the slots are created in front of the mutex and the condition variable of their pool, which they
-- lock and signal when they release a client.
pub set_up-Ordered :
    (kernel : Item → Bool) (num_threads size_pool p j : ℕ) {made : List Item}
    → set_up kernel num_threads size_pool ≡ ok made
    → p < size_pool
    → j < num_threads
    → Ordered p j made
unfolding set_up set_up_pools set_up_rest
set_up-Ordered kernel n k p j {made} e h l =
    let (early, e1, more) = first_of (set_up_pools kernel n k) _ e in
    let (late, e2, whole) = first_of (set_up_rest kernel k) _ more in
    let all : pools_items n 0 k ++ late_items k ≡ made =
      ground (
        arith,
        performed kernel (pools_items n 0 k) e1,
        performed kernel (late_items k) e2,
        whole,
      ) in
    let pool = pool-order n p j l in
    let (mutex, cond, thread) = late-dispatch p k h in
    let (grows, waits) = late-pools k in
    subst (Ordered p j) all (
      Before-back (late_items k) (in_pool pool.0),
      Before-back (late_items k) (in_pool pool.1),
      Before-front (pools_items n 0 k) mutex,
      Before-front (pools_items n 0 k) cond,
      Before-both (has (pool_mutex p) (pool-there n p).0) thread,
      Before-both (has (pool_cond p) (pool-there n p).1) thread,
      Before-back (late_items k) (in_pool (threads-early n p j l).0),
      Before-back (late_items k) (in_pool (threads-early n p j l).1),
      Before-front (pools_items n 0 k) grows,
      Before-front (pools_items n 0 k) waits,
    )
  where
    in_pool : {x y : Item} → Before x y (pool_items n p) → Before x y (pools_items n 0 k)
    in_pool {x} {y} =
        among (Before x y) n p 0 k (λ xs ys. Before-front xs) (λ xs ys. Before-back ys)
          (omega arith) (omega arith)

    has : (x : Item) → Occurs x (pool_items n p) → Occurs x (pools_items n 0 k)
    has x =
        among (Occurs x) n p 0 k (λ xs ys. Occurs-front xs) (λ xs ys. Occurs-back ys) (omega arith)
          (omega arith)

-- When every call is successful, all is set up.
perform-all :
    (kernel : Item → Bool) (xs : List Item)
    → ((x : Item) → kernel x ≡ true)
    → perform kernel xs ≡ ok xs
unfolding perform
perform-all kernel [] h = refl
perform-all kernel (x ∷ xs) h = rw (h x, perform-all kernel xs h) refl

pub set_up_growth-all :
    (kernel : Item → Bool) (num_threads size_pool : ℕ)
    → ((x : Item) → kernel x ≡ true)
    → (made : List Item) × (set_up_growth kernel num_threads size_pool ≡ ok made)
unfolding set_up_growth
set_up_growth-all kernel n k h = (growth_items n k k, perform-all kernel (growth_items n k k) h)

pub set_up-all :
    (kernel : Item → Bool) (num_threads size_pool : ℕ)
    → ((x : Item) → kernel x ≡ true)
    → (early : List Item) × (late : List Item) × (set_up_pools kernel num_threads size_pool
        ≡ ok early)
      × (set_up_rest kernel size_pool ≡ ok late)
      × (set_up kernel num_threads size_pool ≡ ok (early ++ late))
unfolding set_up set_up_pools set_up_rest
set_up-all kernel n k h =
    let early = perform-all kernel (pools_items n 0 k) h in
    let late = perform-all kernel (late_items k) h in
    (pools_items n 0 k, late_items k, early, late, rw (early, late) refl)

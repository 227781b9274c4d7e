-- ===== src/ThreadPool/Slots.antt =====
-- Slots taken by `dispatch_job` and given back by `close_client_with_status`, and the pool's counter.
use native.Mathlib.Nat.{mod-lt}
use image_app.Common.{
  ℕ, zero, suc, ◌+◌, ◌%◌, ◌<◌, ◌≡◌, ◌≢◌, ◌⊎◌, inl, inr, refl, true, false, none, some, List, [],
  ◌∷◌, ok, load-some, store, length-set, get_elem?-set_self, get_elem?-set_ne, if◌then◌else◌,
  length, get_elem?, set, add_ℕ, decrement, decrement_u64, arith,
}
use image_app.ThreadPool.{
  ThreadData, Pool, is_free, get_E_round, get_E, dispatch_job, close_client, occupied, freed,
}
use image_app.ThreadPool.Ring.{SlotIs, get_E_round_lem}

abbrev pub weight : ThreadData → ℕ
weight td = if is_free td then 0 else 1

-- The number of slots in use.
unfoldable pub busy : List ThreadData → ℕ
busy [] = 0
busy (td ∷ arr) = weight td + busy arr

-- A slot that is there can be written, and only its own weight changes.
store-busy :
    (arr : List ThreadData) (k : ℕ) (td new : ThreadData)
    → get_elem? arr k ≡ some td
    → (store arr k new ≡ ok (set arr k new))
      × (busy (set arr k new) + weight td ≡ busy arr + weight new)
unfolding busy
store-busy [] k td new e = cc
store-busy (x ∷ arr) zero td new e = (refl, ground arith)
store-busy (x ∷ arr) (suc k) td new e =
    let (s, b) = store-busy arr k td new e in (rw s, omega (arith, b))

occupied-busy : (c a : ℕ) (td : ThreadData) → is_free (occupied c a td) ≡ false
unfolding is_free
occupied-busy c a td = refl

freed-free : (td : ThreadData) → is_free (freed td) ≡ true
unfolding is_free
freed-free td = refl

-- What `dispatch_job` does once the search has found the slot `k`.
dispatch-found :
    (n : ℕ) (p q : Pool) (k c a : ℕ) (td : ThreadData)
    → get_E_round n p ≡ ok (some (k, q))
    → get_elem? q.arr k ≡ some td
    → dispatch_job n (p ∷ []) c a
      ≡ ok (some (k, record q { arr = set q.arr k (occupied c a td); counter = add_ℕ q.counter 1 }))
unfolding dispatch_job get_E
dispatch-found n p q k c a td e there =
    rw (e, load-some q.arr k there, (store-busy q.arr k td (occupied c a td) there).0)

pub close-there :
    (p : Pool) (m : ℕ) (k : ℕ) (td : ThreadData)
    → get_elem? p.arr k ≡ some td
    → close_client p m k true
      ≡ ok (
        record p { arr = set p.arr k (freed td); counter = decrement p.counter },
        decrement_u64 m,
      )
unfolding close_client
close-there p m k td there =
    rw (load-some p.arr k there, (store-busy p.arr k td (freed td) there).0)

pub get_elem?-lt {ℓ} :
    {A : Type ℓ} (xs : List A) (i : ℕ) {a : A} → get_elem? xs i ≡ some a → i < length xs
get_elem?-lt [] i e = cc
get_elem?-lt (x ∷ xs) zero e = omega arith
get_elem?-lt (x ∷ xs) (suc i) e = omega (arith, get_elem?-lt xs i e)

-- What a dispatch does to the pool `p`, if it finds a slot.
pub record Dispatched (p : Pool) (c a k : ℕ) (q : Pool) : Type 0 where
  pub slot_was_free : SlotIs true p k
  pub slot_is_taken :
      (td : ThreadData) × (get_elem? p.arr k ≡ some td)
      × (get_elem? q.arr k ≡ some (occupied c a td))
  pub others : (i : ℕ) → k ≢ i → get_elem? q.arr i ≡ get_elem? p.arr i
  pub one_more : busy q.arr ≡ suc (busy p.arr)
  pub counted : q.counter ≡ add_ℕ (add_ℕ p.counter 1) 1
  pub same_size : length q.arr ≡ length p.arr
  pub end_inside : q.end < length p.arr

-- In a pool of `n` slots, one or more, whose end is one of them, a client waits only if every
-- slot is in use. Otherwise it gets a slot that was free: its connection is stored there with a
-- timer of 5 and 1000 requests to go, every other slot stays as it was, one more slot is in use,
-- and the pool's counter has grown by two.
pub dispatch_job_lem :
    (n : ℕ) (p : Pool) (c a : ℕ)
    → length p.arr ≡ n
    → 0 < n
    → p.end < n
    → ((dispatch_job n (p ∷ []) c a ≡ ok none) × ((k : ℕ) → k < n → SlotIs false p k))
      ⊎ ((k : ℕ) × (q : Pool) × (dispatch_job n (p ∷ []) c a ≡ ok (some (k, q)))
          × Dispatched p c a k q)
dispatch_job_lem n p c a full some_slot inside = given (get_E_round_lem n p full some_slot inside)
  where
    k_of : ℕ → ℕ
    k_of j = (p.end + j) % n

    moved : ℕ → Pool
    moved j = record p { end = (k_of j + 1) % n; counter = add_ℕ p.counter 1 }

    given :
        ((get_E_round n p ≡ ok none) × ((k : ℕ) → k < n → SlotIs false p k))
          ⊎ ((j : ℕ) × (j < n)
              × SlotIs true p (k_of j)
              × ((m : ℕ) → m < j → SlotIs false p (k_of m))
              × (get_E_round n p ≡ ok (some (k_of j, moved j))))
        → ((dispatch_job n (p ∷ []) c a ≡ ok none) × ((k : ℕ) → k < n → SlotIs false p k))
          ⊎ ((k : ℕ) × (q : Pool) × (dispatch_job n (p ∷ []) c a ≡ ok (some (k, q)))
              × Dispatched p c a k q)
    given (inl (none_left, all)) = inl (unfold dispatch_job get_E in rw none_left, all)
    given (inr (j, lt, (td, there, free), passed, e)) =
        let k = k_of j in
        inr (
          k,
          _,
          dispatch-found n p (moved j) k c a td e there,
          record {
            slot_was_free = (td, there, free);
            slot_is_taken = (
              td,
              there,
              get_elem?-set_self p.arr k (occupied c a td) (get_elem?-lt p.arr k there),
            );
            others = λ i ne. get_elem?-set_ne p.arr k i (occupied c a td) ne;
            one_more = ground (
              arith,
              (store-busy p.arr k td (occupied c a td) there).1,
              free,
              occupied-busy c a td,
            );
            counted = refl;
            same_size = length-set p.arr k (occupied c a td);
            end_inside = omega (arith, mod-lt (k + 1) some_slot);
          },
        )

-- What the release of the slot `k`, in use until then, does to the pool `p`.
pub record Closed (p : Pool) (k : ℕ) (q : Pool) : Type 0 where
  pub slot_is_free : SlotIs true q k
  pub others : (i : ℕ) → k ≢ i → get_elem? q.arr i ≡ get_elem? p.arr i
  pub one_less : suc (busy q.arr) ≡ busy p.arr
  pub counted : q.counter ≡ decrement p.counter
  pub same_end : q.end ≡ p.end
  pub same_size : length q.arr ≡ length p.arr

-- Closing the client of a slot in use always succeeds: the slot is free again, every other slot
-- stays as it was, one slot less is in use, the pool's counter falls by
-- one, and so does `max_descriptor`, an unsigned number of 64 bits that wraps around at 0.
pub close_client_lem :
    (p : Pool) (m : ℕ) (k : ℕ)
    → SlotIs false p k
    → (q : Pool) × (close_client p m k true ≡ ok (q, decrement_u64 m)) × Closed p k q
close_client_lem p m k (td, there, in_use) = (
  record p { arr = set p.arr k (freed td); counter = decrement p.counter },
  close-there p m k td there,
  record {
    slot_is_free = (
      freed td,
      get_elem?-set_self p.arr k (freed td) (get_elem?-lt p.arr k there),
      freed-free td,
    );
    others = λ i ne. get_elem?-set_ne p.arr k i (freed td) ne;
    one_less = ground (arith, (store-busy p.arr k td (freed td) there).1, in_use, freed-free td);
    counted = refl;
    same_end = refl;
    same_size = length-set p.arr k (freed td);
  },
)

-- ===== src/ThreadPool/Counter.antt =====
-- `pool_t.counter`, documented as the number of slots occupied, over a whole history of a pool.
use image_app.Common.{
  ℕ, zero, suc, ◌+◌, ◌<◌, ◌≡◌, ◌⊎◌, inl, inr, refl, true, false, none, some, get_elem?, [], ◌∷◌, ok,
  length, pos, arith, subst,
}
use image_app.ThreadPool.{
  ThreadData, Pool, is_free, new_slots, allocate_pool, dispatch_job, close_client,
}
use image_app.ThreadPool.Ring.{SlotIs}
use image_app.ThreadPool.Slots.{busy, Dispatched, dispatch_job_lem, close_client_lem}

-- The states of a pool of `n` slots after `d` dispatches, each slot in use given back at will.
pub data Reach (n idx : ℕ) : ℕ → Pool → Type 0 where
  start : {d : ℕ} {p : Pool} → d ≡ 0 → p ≡ allocate_pool n idx → Reach n idx d p
  dispatch :
      {d : ℕ} {p q : Pool} (c a k : ℕ)
      → Reach n idx d p
      → dispatch_job n (p ∷ []) c a ≡ ok (some (k, q))
      → Reach n idx (suc d) q
  close :
      {d : ℕ} {p q : Pool} (k : ℕ) (m m' : ℕ)
      → Reach n idx d p
      → SlotIs false p k
      → close_client p m k true ≡ ok (q, m')
      → Reach n idx d q

pub record Inv (n d : ℕ) (p : Pool) : Type 0 where
  pub size : length p.arr ≡ n
  pub inside : p.end < n
  pub drift : p.counter ≡ pos (busy p.arr + d)

length-new_slots : (idx i left : ℕ) → length (new_slots idx i left) ≡ left
unfolding new_slots
length-new_slots idx i zero = refl
length-new_slots idx i (suc left) = omega (arith, length-new_slots idx (i + 1) left)

busy-new_slots : (idx i left : ℕ) → busy (new_slots idx i left) ≡ 0
unfolding new_slots busy is_free
busy-new_slots idx i zero = refl
busy-new_slots idx i (suc left) = omega (arith, busy-new_slots idx (i + 1) left)

pub start-Inv : (n idx : ℕ) → 0 < n → Inv n 0 (allocate_pool n idx)
unfolding allocate_pool
start-Inv n idx h = record {
  size = length-new_slots idx 0 n;
  inside = h;
  drift = rw (busy-new_slots idx 0 n);
}

pub dispatch-Inv :
    (n d : ℕ) (p q : Pool) (c a k : ℕ)
    → Inv n d p
    → dispatch_job n (p ∷ []) c a ≡ ok (some (k, q))
    → Inv n (suc d) q
dispatch-Inv n d p q c a k v e = given (dispatch_job_lem n p c a v.size (omega arith) v.inside)
  where
    given :
        ((dispatch_job n (p ∷ []) c a ≡ ok none) × ((k : ℕ) → k < n → SlotIs false p k))
          ⊎ ((k : ℕ) × (q : Pool) × (dispatch_job n (p ∷ []) c a ≡ ok (some (k, q)))
              × Dispatched p c a k q)
        → Inv n (suc d) q
    given (inl (none_left, all)) = absurd (ground arith)
    given (inr (k', q', e', done)) =
        let same : q' ≡ q = ground arith in
        subst (Inv n (suc d)) same (record {
          size = omega (arith, done.same_size, v.size);
          inside = omega (arith, done.end_inside, v.size);
          drift = ground (arith, v.drift, done.counted, done.one_more);
        })

close-Inv :
    (n d : ℕ) (p q : Pool) (k : ℕ) (m m' : ℕ)
    → Inv n d p
    → SlotIs false p k
    → close_client p m k true ≡ ok (q, m')
    → Inv n d q
close-Inv n d p q k m m' v s e =
    let (q', e', done) = close_client_lem p m k s in
    let same : q' ≡ q = ground arith in
    subst (Inv n d) same (record {
      size = omega (arith, done.same_size, v.size);
      inside = ground (arith, done.same_end, v.inside);
      drift = ground (arith, v.drift, done.counted, done.one_less);
    })

Reach-Inv : {n idx d : ℕ} {p : Pool} → 0 < n → Reach n idx d p → Inv n d p
Reach-Inv {n} {idx} {p = p} h (start none_yet fresh) = rw (none_yet, fresh) (start-Inv n idx h)
Reach-Inv {n} h (dispatch {d} {p} {q} c a k r e) = dispatch-Inv n d p q c a k (Reach-Inv h r) e
Reach-Inv {n} h (close {d} {p} {q} k m m' r s e) = close-Inv n d p q k m m' (Reach-Inv h r) s e

-- In every state that a pool can reach, its counter is the number of slots in use plus the number of
-- all dispatches so far: it is right only before the first dispatch, and never comes back.
pub counter_drift :
    {n idx d : ℕ} {p : Pool} → 0 < n → Reach n idx d p → p.counter ≡ pos (busy p.arr + d)
counter_drift h r = (Reach-Inv h r).drift

new_slots-idle :
    (idx i left j : ℕ) {td : ThreadData}
    → get_elem? (new_slots idx i left) j ≡ some td
    → td.msg_received ≡ pos 0
unfolding new_slots
new_slots-idle idx i zero j e = absurd (cc)
new_slots-idle idx i (suc left) zero e = ground arith
new_slots-idle idx i (suc left) (suc j) e = new_slots-idle idx (i + 1) left j e

-- A new pool has no slot in use.
pub allocate_pool-busy : (n idx : ℕ) → busy (allocate_pool n idx).arr ≡ 0
unfolding allocate_pool
allocate_pool-busy n idx = busy-new_slots idx 0 n

-- No thread of a new pool has a message.
pub allocate_pool-idle :
    (n idx j : ℕ) {td : ThreadData}
    → get_elem? (allocate_pool n idx).arr j ≡ some td
    → td.msg_received ≡ pos 0
unfolding allocate_pool
allocate_pool-idle n idx j = new_slots-idle idx 0 n j

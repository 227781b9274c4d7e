-- ===== src/System/Balance.antt =====
-- The two counters against the number of slots in use, in every state that can be reached.
use image_app.Common.{
  ℕ, zero, suc, ◌+◌, ◌<◌, ◌≤◌, ◌≡◌, ◌≢◌, ◌⊎◌, inl, inr, refl, ◌∙◌, sym, subst, true, false, none,
  some, List, [], ◌∷◌, ok, get_elem?, length, pos, increment_u64, ◌%◌, ◌^◌, arith, Bool-cases, ◌==◌,
}
use image_app.ThreadPool.{ThreadData, Pool, is_free, allocate_pool, dispatch_job, occupied}
use image_app.ThreadPool.Ring.{SlotIs}
use image_app.ThreadPool.Slots.{busy, weight, Dispatched, dispatch_job_lem}
use image_app.ThreadPool.Counter.{
  Inv, start-Inv, dispatch-Inv, allocate_pool-idle, allocate_pool-busy,
}
use image_app.ThreadPool.Timer.{wait_for_connection}

-- Lists that agree everywhere have as many slots in use.
busy-same :
    (xs ys : List ThreadData)
    → length ys ≡ length xs
    → ((i : ℕ) → get_elem? ys i ≡ get_elem? xs i)
    → busy ys ≡ busy xs
unfolding busy
busy-same [] [] e h = refl
busy-same [] (y ∷ ys) e h = absurd (omega (arith, e))
busy-same (x ∷ xs) [] e h = absurd (omega (arith, e))
busy-same (x ∷ xs) (y ∷ ys) e h =
    let rest = busy-same xs ys (omega (arith, e)) (λ i. h (suc i)) in
    let first : y ≡ x = ground (arith, h 0) in rw first (omega (arith, rest))

-- Lists that agree but at one place differ by what that slot counts.
pub busy-apart :
    (xs ys : List ThreadData) (k : ℕ) (x y : ThreadData)
    → length ys ≡ length xs
    → ((i : ℕ) → k ≢ i → get_elem? ys i ≡ get_elem? xs i)
    → get_elem? xs k ≡ some x
    → get_elem? ys k ≡ some y
    → busy ys + weight x ≡ busy xs + weight y
unfolding busy
busy-apart [] ys k x y e h there here = absurd (cc)
busy-apart (x0 ∷ xs) [] k x y e h there here = absurd (cc)
busy-apart (x0 ∷ xs) (y0 ∷ ys) zero x y e h there here =
    let rest =
      busy-same xs ys (omega (arith, e)) (λ i. h (suc i) (λ z. absurd (omega (arith, z)))) in
    let same_x : x0 ≡ x = ground arith in
    let same_y : y0 ≡ y = ground arith in rw (same_x, same_y) (omega (arith, rest))
busy-apart (x0 ∷ xs) (y0 ∷ ys) (suc k) x y e h there here =
    let rest =
      busy-apart xs ys k x y (omega (arith, e)) (λ i ne. h (suc i) (λ z. ne (omega (arith, z))))
        there here in
    let first : y0 ≡ x0 = ground (arith, h 0 (λ z. absurd (omega (arith, z)))) in
    rw first (omega (arith, rest))

-- The invariant: the counter of the pool, the threads that have a message, and `max_descriptor`.
pub record Balanced (n a d r : ℕ) (p : Pool) (m : ℕ) : Type 0 where
  pub pool : Inv n d p
  pub running :
      (i : ℕ) (td : ThreadData)
      → get_elem? p.arr i ≡ some td
      → wait_for_connection td ≡ false
      → is_free td ≡ false
  pub lowered : ℕ
  pub few : lowered ≤ r
  pub descriptors : (m + d + lowered) % 2 ^ 64 ≡ (busy p.arr + a + 1) % 2 ^ 64

idle-waits : (td : ThreadData) → td.msg_received ≡ pos 0 → wait_for_connection td ≡ true
unfolding wait_for_connection
idle-waits td e = rw e

pub start-Balanced : (n idx : ℕ) → 0 < n → Balanced n 0 0 0 (allocate_pool n idx) 1
start-Balanced n idx h = record {
  pool = start-Inv n idx h;
  running = λ i td there runs. absurd (cc (runs, idle-waits td (allocate_pool-idle n idx i there)));
  lowered = 0;
  few = omega arith;
  descriptors = rw (allocate_pool-busy n idx) refl;
}

occupied-busy : (c a : ℕ) (td : ThreadData) → is_free (occupied c a td) ≡ false
unfolding is_free
occupied-busy c a td = refl

pub accept-Balanced :
    (n a d r : ℕ) (p : Pool) (m : ℕ)
    → Balanced n a d r p m
    → Balanced n (suc a) d r p (increment_u64 m)
accept-Balanced n a d r p m b = record {
  pool = b.pool;
  running = b.running;
  lowered = b.lowered;
  few = b.few;
  descriptors = omega (arith, b.descriptors);
}

pub dispatch-Balanced :
    (n x d r : ℕ) (p q : Pool) (m : ℕ) (c a k : ℕ)
    → Balanced n x d r p m
    → dispatch_job n (p ∷ []) c a ≡ ok (some (k, q))
    → Balanced n x (suc d) r q m
dispatch-Balanced n x d r p q m c a k b e =
    given (dispatch_job_lem n p c a b.pool.size (omega (arith, b.pool.inside)) b.pool.inside)
  where
    taken : Dispatched p c a k q → Balanced n x (suc d) r q m
    taken done = record {
      pool = dispatch-Inv n d p q c a k b.pool e;
      running = λ i td there runs. elim (Bool-cases (k == i)) [
        | inl same ↦
            let k≡i : k ≡ i = ground arith in
            let (old, was, here) = done.slot_is_taken in
            let occupied_td : occupied c a old ≡ td =
              ground (arith, here, subst (λ j. get_elem? q.arr j ≡ some td) (sym k≡i) there) in
            subst (λ t. is_free t ≡ false) occupied_td (occupied-busy c a old)
        | inr other ↦ b.running i td (sym (done.others i (ground arith)) ∙ there) runs
      ];
      lowered = b.lowered;
      few = b.few;
      descriptors = omega (arith, done.one_more, b.descriptors);
    }

    given :
        ((dispatch_job n (p ∷ []) c a ≡ ok none) × ((k : ℕ) → k < n → SlotIs false p k))
          ⊎ ((k : ℕ) × (q : Pool) × (dispatch_job n (p ∷ []) c a ≡ ok (some (k, q)))
              × Dispatched p c a k q)
        → Balanced n x (suc d) r q m
    given (inl (none_left, all)) = absurd (ground arith)
    given (inr (k', q', e', done)) =
        let same_q : q' ≡ q = ground arith in
        let same_k : k' ≡ k = ground arith in
        taken (
          subst (λ x. Dispatched p c a x q) same_k (subst (λ x. Dispatched p c a k' x) same_q done))

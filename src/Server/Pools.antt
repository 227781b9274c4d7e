-- ===== src/Server/Pools.antt =====
-- What a sound table of pools is, and that `init_server` and a turn of the main loop keep it.
use native.Mathlib.Nat.{mod-lt, mul-le-mul_left, zero-add}
use native.Mathlib.Decide.{dec_lt}
use image_app.Common.{
  Bool, true, store-in, ℕ, zero, suc, ◌+◌, ◌-◌, ◌*◌, ◌/◌, ◌%◌, ◌^◌, ◌<◌, ◌≤◌, ◌≡◌, refl, ◌∙◌, subst,
  Option, none, some, List, ok, load-some, ltb, leb, lt→ltb, replicate, length, set, length-set,
  get_elem?, get_elem?-set_self, get_elem?-set_ne, arith, Bool-cases, inl, inr,
}
use image_app.ThreadPool.{Pool, allocate_pool}
use image_app.Setup.{Item}
use image_app.Setup.Order.{set_up_growth-all}
use image_app.Server.{
  Server, allocate_from, handle_pool, to_index, grow_pools, chosen, accept_round, init_server,
}

-- The entries below `n` are pools.
abbrev pub Filled : ℕ → List (Option Pool) → Type 0
Filled n table = (i : ℕ) → i < n → (p : Pool) × (get_elem? table i ≡ some (some p))

-- The table has 32 entries, `size_pool` of them in use, and the next client goes to one of these.
pub record Sound (s : Server) : Type 0 where
  pub whole : length s.table ≡ 32
  pub some_pool : 0 < s.size_pool
  pub inside : s.size_pool ≤ 32
  pub filled : Filled s.size_pool s.table
  pub next_inside : s.idx_pool < s.size_pool

Filled-set :
    (n : ℕ) (p : Pool) (table : List (Option Pool))
    → n < length table
    → Filled n table
    → Filled (suc n) (set table n (some p))
Filled-set n p table h f i l = elim (dec_lt i n) [
  | yes below ↦
      let (q, e) = f i below in
      (q, get_elem?-set_ne table n i (some p) (λ same. absurd (omega (arith, same))) ∙ e)
  | no above ↦
      let last : n ≡ i = omega arith in
      (
        p,
        subst (λ j. get_elem? (set table n (some p)) j ≡ some (some p)) last
            (get_elem?-set_self table n (some p) h),
      )
]

allocate-Filled :
    (num_threads i left : ℕ) (table : List (Option Pool))
    → length table ≡ 32
    → i + left ≤ 32
    → Filled i table
    → (t : List (Option Pool)) × (allocate_from num_threads i left table ≡ ok t)
      × (length t ≡ 32)
      × Filled (i + left) t
unfolding allocate_from
allocate-Filled n i zero table size h f =
    (table, refl, size, subst (λ k. Filled k table) (omega arith) f)
allocate-Filled n i (suc left) table size h f =
    let t1 = set table i (some (allocate_pool n i)) in
    let (t, e, l, g) =
      allocate-Filled n (i + 1) left t1
        (omega (arith, length-set table i (some (allocate_pool n i)), size)) (omega arith)
        (subst (λ k. Filled k t1) (omega arith)
          (Filled-set i (allocate_pool n i) table (omega (arith, size)) f)) in
    (
      t,
      rw (store-in table i (some (allocate_pool n i)) (omega (arith, size))) e,
      l,
      subst (λ k. Filled k t) (omega arith) g,
    )

pub init_server-Sound :
    (num_threads k : ℕ)
    → 0 < k
    → k ≤ 32
    → (s : Server) × (init_server num_threads k ≡ ok s) × Sound s × (s.size_pool ≡ k)
unfolding init_server
init_server-Sound n k some_pool inside =
    let (t, e, l, f) =
      allocate-Filled n 0 k (replicate 32 none) refl (omega arith) (λ i h. absurd (omega arith)) in
    (
      record { table = t; size_pool = k; idx_pool = 0 },
      rw e,
      record {
        whole = l;
        some_pool = some_pool;
        inside = inside;
        filled = subst (λ j. Filled j t) (zero-add k) f;
        next_inside = some_pool;
      },
      refl,
    )

-- What the growth of the pools gives, whether they grow_pools or not.
grow_pools-Sound :
    (kernel : Item → Bool) (num_threads : ℕ) (s : Server)
    → ((x : Item) → kernel x ≡ true)
    → Sound s
    → (g : Server) × (grow_pools kernel num_threads s ≡ ok g)
      × Sound g
      × (s.size_pool ≤ g.size_pool)
unfolding grow_pools handle_pool
grow_pools-Sound kernel n s willing v = elim (Bool-cases (ltb (s.size_pool + s.size_pool) 32)) [
  | inr full ↦ (s, rw full, v, omega arith)
  | inl room ↦
      let k = s.size_pool in
      let (made, set) = set_up_growth-all kernel n k willing in
      let (t, e, l, f) = allocate-Filled n k k s.table v.whole (ground arith) v.filled in
      (
        record s { table = t; size_pool = k + k },
        rw (room, set, e),
        record {
          whole = l;
          some_pool = omega (arith, v.some_pool);
          inside = ground arith;
          filled = f;
          next_inside = omega (arith, v.next_inside);
        },
        omega arith,
      )
]

-- The index of the next round is inside the pools that are there.
advanced-Sound : (s : Server) (i : ℕ) → Sound s → Sound (record s { idx_pool = i % s.size_pool })
advanced-Sound s i v = record {
  whole = v.whole;
  some_pool = v.some_pool;
  inside = v.inside;
  filled = v.filled;
  next_inside = mod-lt i v.some_pool;
}

index-small : (n k : ℕ) → n * 32 < 2 ^ 31 - 1 → k ≤ 32 → n * k < 2 ^ 31 - 1
index-small n k h l = omega (arith, mul-le-mul_left n l)

pub accept_round-Sound :
    (kernel : Item → Bool) (num_threads d : ℕ) (s : Server)
    → num_threads * 32 < 2 ^ 31 - 1
    → ((x : Item) → kernel x ≡ true)
    → Sound s
    → (r : Server) × (accept_round kernel num_threads d s ≡ ok r)
      × Sound r
      × (s.size_pool ≤ r.size_pool)
unfolding accept_round chosen
accept_round-Sound kernel n d s small willing v =
    let (p, there) = v.filled s.idx_pool v.next_inside in
    let entry = load-some s.table s.idx_pool there in
    elim (Bool-cases (leb (n * s.size_pool / 2) d)) [
      | inr quiet ↦ (_, rw (entry, quiet), advanced-Sound s (s.idx_pool + 1) v, omega arith)
      | inl busy ↦
          let (g, e, w, l) = grow_pools-Sound kernel n s willing v in
          let index : to_index (n * s.size_pool) ≡ ok (n * s.size_pool) =
            unfold to_index in
            rw (lt→ltb (n * s.size_pool) (2 ^ 31 - 1) (index-small n s.size_pool small v.inside)) in
          (_, rw (entry, busy, e, index), advanced-Sound g (n * s.size_pool + 1) w, l)
    ]

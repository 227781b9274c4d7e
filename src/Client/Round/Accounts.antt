-- ===== src/Client/Round/Accounts.antt =====
-- What a completed round of `handle_client` leaves of its slot, its pool and `max_descriptor`.
use image_app.Common.{
  ℕ, ◌≡◌, ◌≢◌, ◌⊎◌, inl, inr, refl, ◌∙◌, ap, true, some, length, length-set, get_elem?,
  get_elem?-set_ne, set, ℤ, decrement, decrement_u64,
}
use image_app.ThreadPool.{ThreadData, Pool, is_free, freed}
use image_app.ThreadPool.Timer.{wait_for_connection}
use image_app.Client.{dangling, Thread}
use image_app.Client.Ending.{Renewed}

-- The unsigned number is what it was, or one less, where 2^64 - 1 is one less than 0.
abbrev pub Lowered : ℕ → ℕ → Type 0
Lowered m m' = (m' ≡ m) ⊎ (m' ≡ decrement_u64 m)

-- The part of the pool that is not the slot is as it was.
pub record Apart (nE : ℕ) (p q : Pool) : Type 0 where
  pub others : (i : ℕ) → nE ≢ i → get_elem? q.arr i ≡ get_elem? p.arr i
  pub same_size : length q.arr ≡ length p.arr
  pub same_end : q.end ≡ p.end

-- The client keeps its slot: it has sent again, one request is used up, and no counter of the pool
-- has changed.
pub record Kept (nE : ℕ) (td : ThreadData) (t t' : Thread) : Type 0 where
  pub slot : (td' : ThreadData) × (get_elem? t'.pool.arr nE ≡ some td') × Renewed td td'
  pub same_counter : t'.pool.counter ≡ t.pool.counter
  pub descriptors : Lowered t.max_descriptor t'.max_descriptor

-- The client has been given up: its slot is free, the counter of the pool has fallen by one, and the
-- thread holds no block any more.
pub record Left (nE : ℕ) (t t' : Thread) : Type 0 where
  pub slot :
      (td' : ThreadData) × (get_elem? t'.pool.arr nE ≡ some td')
      × (is_free td' ≡ true)
      × (wait_for_connection td' ≡ true)
  pub one_less : t'.pool.counter ≡ decrement t.pool.counter
  pub descriptors : Lowered (decrement_u64 t.max_descriptor) t'.max_descriptor
  pub no_request : t'.request ≡ dangling
  pub no_image : t'.image_info ≡ dangling

abbrev pub Finished : ℕ → ThreadData → Thread → Thread → Type 0
Finished nE td t t' = Apart nE t.pool t'.pool × (Kept nE td t t' ⊎ Left nE t t')

-- In the middle of a round: only the flag of the slot may have changed.
pub record Steady (nE : ℕ) (td : ThreadData) (t : Thread) (p : Pool) (m : ℕ) : Type 0 where
  pub slot :
      (td' : ThreadData) × (get_elem? p.arr nE ≡ some td')
      × (td'.used ≡ td.used)
      × (td'.conn_sd ≡ td.conn_sd)
      × (td'.request ≡ td.request)
  pub apart : Apart nE t.pool p
  pub same_counter : p.counter ≡ t.pool.counter
  pub descriptors : Lowered t.max_descriptor m

pub set-Apart :
    (nE : ℕ) (p q : Pool) (td : ThreadData) (counter : ℤ)
    → Apart nE p q
    → Apart nE p (record q { arr = set q.arr nE td; counter = counter })
set-Apart nE p q td counter a = record {
  others = λ i other. get_elem?-set_ne q.arr nE i td other ∙ a.others i other;
  same_size = length-set q.arr nE td ∙ a.same_size;
  same_end = a.same_end;
}

pub freed-free : (td : ThreadData) → is_free (freed td) ≡ true
unfolding is_free
freed-free td = refl

pub freed-waits : (td : ThreadData) → wait_for_connection (freed td) ≡ true
unfolding wait_for_connection
freed-waits td = refl

pub Lowered-decrement : (m n : ℕ) → Lowered m n → Lowered (decrement_u64 m) (decrement_u64 n)
Lowered-decrement m n (inl e) = inl (ap decrement_u64 e)
Lowered-decrement m n (inr e) = inr (ap decrement_u64 e)

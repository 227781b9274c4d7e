-- ===== src/ThreadPool/Ring.antt =====
-- The search of `get_E` for a free slot, once around the ring.
use native.Mathlib.Nat.{add-mod_right, mod-eq_of_lt, mod-lt}
use native.Mathlib.Decide.{dec_le}
use image_app.Common.{
  ℕ, zero, suc, ◌+◌, ◌-◌, ◌%◌, ◌≤◌, ◌<◌, ◌≡◌, ◌⊎◌, inl, inr, refl, ◌∙◌, Bool, true, false, none,
  some, List, [], ◌∷◌, ok, length, get_elem?, add_ℕ, arith, Bool-cases, subst,
}
use image_app.ThreadPool.{ThreadData, Pool, is_free, find_free, get_E_round}

-- The slot with index `k` is there, and is free or not.
abbrev pub SlotIs : Bool → Pool → ℕ → Type 0
SlotIs b p k = (td : ThreadData) × (get_elem? p.arr k ≡ some td) × (is_free td ≡ b)

get_elem?-some {ℓ} :
    {A : Type ℓ} (xs : List A) (i : ℕ) → i < length xs → (a : A) × (get_elem? xs i ≡ some a)
get_elem?-some [] i h = absurd (omega arith)
get_elem?-some (x ∷ xs) zero h = (x, refl)
get_elem?-some (x ∷ xs) (suc i) h = get_elem?-some xs i (omega arith)

-- The outcome of the search from place `i` of the ring on, for `left` places.
abbrev Searched : ℕ → Pool → ℕ → ℕ → Type 0
Searched n p i left =
    (find_free n p i left ≡ ok none)
      × ((m : ℕ) → i ≤ m → m < i + left → SlotIs false p ((p.end + m) % n))
    ⊎ ((j : ℕ) × (find_free n p i left ≡ ok (some ((p.end + j) % n)))
        × (i ≤ j)
        × (j < i + left)
        × SlotIs true p ((p.end + j) % n)
        × ((m : ℕ) → i ≤ m → m < j → SlotIs false p ((p.end + m) % n)))

module _ (n : ℕ) (p : Pool) (full : length p.arr ≡ n) (some_slot : 0 < n) where
  here : (i : ℕ) → (td : ThreadData) × (get_elem? p.arr ((p.end + i) % n) ≡ some td)
  here i = get_elem?-some p.arr ((p.end + i) % n) (omega (arith, mod-lt (p.end + i) some_slot))

  -- A busy slot in front of places that hold `P`.
  extend :
      (P : ℕ → Type 0) (i k : ℕ)
      → P i
      → ((m : ℕ) → i + 1 ≤ m → m < k → P m)
      → (m : ℕ) → i ≤ m
      → m < k
      → P m
  extend P i k first later m l h = elim (dec_le (i + 1) m) [
    | yes on ↦ later m on h
    | no at ↦ subst P (omega arith) first
  ]

  find_free-free :
      (i left : ℕ) (td : ThreadData)
      → get_elem? p.arr ((p.end + i) % n) ≡ some td
      → is_free td ≡ true
      → find_free n p i (suc left) ≡ ok (some ((p.end + i) % n))
  unfolding find_free
  find_free-free i left td e free = ground arith

  find_free-busy :
      (i left : ℕ) (td : ThreadData)
      → get_elem? p.arr ((p.end + i) % n) ≡ some td
      → is_free td ≡ false
      → find_free n p i (suc left) ≡ find_free n p (i + 1) left
  unfolding find_free
  find_free-busy i left td e busy = ground arith

  Searched-next :
      (i left : ℕ) (td : ThreadData)
      → get_elem? p.arr ((p.end + i) % n) ≡ some td
      → is_free td ≡ false
      → Searched n p (i + 1) left
      → Searched n p i (suc left)
  Searched-next i left td e busy (inl (none_left, all)) = inl (
    find_free-busy i left td e busy ∙ none_left,
    λ m l h.
        extend (λ m. SlotIs false p ((p.end + m) % n)) i (i + suc left) (td, e, busy)
          (λ m l h. all m l (omega arith)) m l h,
  )
  Searched-next i left td e busy (inr (j, found, lo, hi, free, passed)) = inr (
    j,
    find_free-busy i left td e busy ∙ found,
    omega arith,
    omega arith,
    free,
    extend (λ m. SlotIs false p ((p.end + m) % n)) i j (td, e, busy) passed,
  )

  searched : (i left : ℕ) → Searched n p i left
  unfolding find_free
  searched i zero = inl (refl, λ m l h. absurd (omega arith))
  searched i (suc left) =
      let (td, e) = here i in
      elim (Bool-cases (is_free td)) [
        | inl free ↦ inr (
          i,
          find_free-free i left td e free,
          omega arith,
          omega arith,
          (td, e, free),
          λ m l h. absurd (omega arith),
        )
        | inr busy ↦ Searched-next i left td e busy (searched (i + 1) left)
      ]

  -- Every slot has its place on the ring.
  place : p.end < n → (k : ℕ) → k < n → (m : ℕ) × (m < n) × ((p.end + m) % n ≡ k)
  place inside k h = elim (dec_le p.end k) [
    | yes on ↦
        let reach : p.end + (k - p.end) ≡ k = omega arith in
        (k - p.end, omega arith, rw reach (mod-eq_of_lt h))
    | no wrapped ↦
        let around : p.end + (k + n - p.end) ≡ k + n = omega arith in
        (k + n - p.end, omega arith, rw around (add-mod_right k n ∙ mod-eq_of_lt h))
  ]

  -- In a pool of `n` slots, one or more, whose end is one of them, a round of `get_E` finds
  -- nothing only if every slot is in use. Otherwise it takes the first free slot from the end of
  -- the ring on: the slots before it on the ring are in use, the ring's end moves behind it, the
  -- counter grows by one, and nothing else of the pool changes.
  pub get_E_round_lem :
      p.end < n
      → ((get_E_round n p ≡ ok none) × ((k : ℕ) → k < n → SlotIs false p k))
        ⊎ ((j : ℕ) × (j < n)
            × SlotIs true p ((p.end + j) % n)
            × ((m : ℕ) → m < j → SlotIs false p ((p.end + m) % n))
            × (get_E_round n p
                ≡ ok (
                    some (
                      (p.end + j) % n,
                      record p { end = ((p.end + j) % n + 1) % n; counter = add_ℕ p.counter 1 },
                    ))))
  unfolding get_E_round
  get_E_round_lem inside = given (searched 0 n)
    where
      given :
          Searched n p 0 n
          → ((get_E_round n p ≡ ok none) × ((k : ℕ) → k < n → SlotIs false p k))
            ⊎ ((j : ℕ) × (j < n)
                × SlotIs true p ((p.end + j) % n)
                × ((m : ℕ) → m < j → SlotIs false p ((p.end + m) % n))
                × (get_E_round n p
                    ≡ ok (
                        some (
                          (p.end + j) % n,
                          record p { end = ((p.end + j) % n + 1) % n; counter = add_ℕ p.counter 1 },
                        ))))
      given (inl (none_left, all)) = inl (
        rw none_left,
        λ k h.
            let (m, l, e) = place inside k h in
            subst (SlotIs false p) e (all m (omega arith) (omega arith)),
      )
      given (inr (j, found, lo, hi, free, passed)) =
          inr (j, omega arith, free, (λ m l. passed m (omega arith) l), rw found)

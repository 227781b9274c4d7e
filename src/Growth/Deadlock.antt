-- ===== src/Growth/Deadlock.antt =====
-- Growths from which the main loop does not come back.
use image_app.Common.{ℕ, suc, ◌+◌, ◌≤◌, ◌<◌, ◌≡◌, ◌⊎◌, inl, inr, refl, arith}
use image_app.Growth.{
  no_keeper, by_pools, calm, asked, end_waiting, pools_waiting, pools_signalled, Growth, Move, grow,
  ask, get_end, wait_end, end_spuriously, wake_end, release_end, pools_get, pools_wait,
  pools_spuriously, pools_wake, double, signal_end, pools_release, timer_get, timer_release, Leads,
  here, then_move,
}
use image_app.Growth.Doubling.{guard}

-- The main loop does not grow, and `handle_pool` waits.
abbrev pub quiet : ℕ → ℕ → ℕ → ℕ → ℕ → ℕ → Growth
quiet size_pool begun ended doublings main_spurious pools_spurious = record {
  size_pool = size_pool;
  seen = size_pool;
  keeper = no_keeper;
  main = calm;
  pools = pools_waiting;
  begun = begun;
  ended = ended;
  doublings = doublings;
  main_spurious = main_spurious;
  pools_spurious = pools_spurious;
}

-- Each of the two waits for a signal of the other.
pub record Stuck (s : Growth) : Type 0 where
  pub main_waits : s.main ≡ end_waiting
  pub handler_waits : s.pools ≡ pools_waiting

-- The waits that came back without a signal.
abbrev pub spurious : Growth → ℕ
spurious s = s.main_spurious + s.pools_spurious

Move-Stuck : {s t : Growth} → Move s t → Stuck s → Stuck t ⊎ (spurious s < spurious t)
Move-Stuck (timer_get e) k =
    inl (record { main_waits = k.main_waits; handler_waits = k.handler_waits })
Move-Stuck (timer_release e) k =
    inl (record { main_waits = k.main_waits; handler_waits = k.handler_waits })
Move-Stuck (end_spuriously e) k = inr (omega arith)
Move-Stuck (pools_spuriously e) k = inr (omega arith)
Move-Stuck m k = absurd (ground (arith, guard m, k.main_waits, k.handler_waits))

Move-spurious : {s t : Growth} → Move s t → spurious s ≤ spurious t
Move-spurious (end_spuriously e) = omega arith
Move-spurious (pools_spuriously e) = omega arith
Move-spurious m = omega arith

Leads-spurious : {s t : Growth} → Leads s t → spurious s ≤ spurious t
Leads-spurious here = omega arith
Leads-spurious (then_move r m) = omega (arith, Leads-spurious r, Move-spurious m)

Leads-Stuck : {s t : Growth} → Stuck s → Leads s t → Stuck t ⊎ (spurious s < spurious t)
Leads-Stuck k here = inl k
Leads-Stuck k (then_move r m) = elim (Leads-Stuck k r) [
  | inl still ↦ elim (Move-Stuck m still) [
    | inl after ↦ inl after
    | inr woken ↦ inr (omega (arith, woken, Leads-spurious r))
  ]
  | inr woken ↦ inr (omega (arith, woken, Move-spurious m))
]

-- A state leads to one in which each of the two threads waits for the other, as long as no wait comes
-- back without a signal, with so many growths begun and doublings made.
abbrev pub Deadlocks : Growth → ℕ → ℕ → Type 0
Deadlocks s begun doublings =
    (t : Growth) × Leads s t
    × (t.begun ≡ begun)
    × (t.doublings ≡ doublings)
    × ((u : Growth) → Leads t u → Stuck u ⊎ (spurious t < spurious u))

-- The main loop goes on to its wait while `handle_pool` goes on to its own.
both_wait :
    {s t : Growth}
    → Leads s t
    → t.main ≡ asked
    → t.pools ≡ pools_signalled
    → Deadlocks s t.begun t.doublings
both_wait {s} {t} r main_at pools_at = (
  record t { keeper = no_keeper; main = end_waiting; pools = pools_waiting },
  then_move
      (then_move
        (then_move (then_move (then_move r (get_end main_at)) (wait_end refl))
          (pools_release pools_at))
        (pools_get refl refl))
      (pools_wait refl),
  refl,
  refl,
  λ u l. Leads-Stuck (record { main_waits = refl; handler_waits = refl }) l,
)

module _ (size_pool begun ended doublings main_spurious pools_spurious : ℕ)
    (few : (size_pool + size_pool) + (size_pool + size_pool) < 32) where
  abbrev from : Growth
  from = quiet size_pool begun ended doublings main_spurious pools_spurious

  -- The signal of `handle_pool` comes before the main loop waits for it.
  end_missed : Deadlocks from (suc begun) (suc doublings)
  end_missed =
      both_wait
        (then_move
          (then_move
            (then_move (then_move (then_move here (grow refl (omega arith))) (ask refl))
              (pools_wake refl refl))
            (double refl))
          (signal_end refl))
        refl refl

  -- A growth that ends, after which the main loop asks again before `handle_pool` waits again.
  start_missed : Deadlocks from (suc (suc begun)) (suc doublings)
  start_missed =
      both_wait (then_move (then_move once (grow refl (omega arith))) (ask refl)) refl refl
    where
      once : Leads from (record from {
        size_pool = size_pool + size_pool;
        seen = size_pool + size_pool;
        keeper = by_pools;
        pools = pools_signalled;
        begun = suc begun;
        ended = suc ended;
        doublings = suc doublings;
      })
      once =
          then_move
            (then_move
              (then_move
                (then_move
                  (then_move
                    (then_move
                      (then_move (then_move (then_move here (grow refl (omega arith))) (ask refl))
                        (pools_wake refl refl))
                      (get_end refl))
                    (wait_end refl))
                  (double refl))
                (signal_end refl))
              (wake_end refl))
            (release_end refl)

-- From every state with fewer than 8 pools, whose number the main loop has seen, in which the main loop
-- does not grow and `handle_pool` waits, both deadlocks can be reached. In the first the main loop asks for a growth, the pools are
-- doubled, and it does not come back. In the second it comes back once and asks again, and the pools
-- are not doubled again. From then on, whatever moves are made, the main loop waits for
-- `handle_pool` and `handle_pool` for the main loop, unless a wait comes back without a signal.
pub growth-Deadlocks :
    (size_pool begun ended doublings x y : ℕ)
    → (size_pool + size_pool) + (size_pool + size_pool) < 32
    → Deadlocks (quiet size_pool begun ended doublings x y) (suc begun) (suc doublings)
      × Deadlocks (quiet size_pool begun ended doublings x y) (suc (suc begun)) (suc doublings)
growth-Deadlocks size_pool begun ended doublings x y few = (
  end_missed size_pool begun ended doublings x y few,
  start_missed size_pool begun ended doublings x y few,
)

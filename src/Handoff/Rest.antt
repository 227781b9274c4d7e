-- ===== src/Handoff/Rest.antt =====
-- The moves between two clients: whether there is one, and how many there are.
use image_app.Common.{
  ◌&&◌, ℕ, zero, suc, ◌+◌, ◌≤◌, ◌<◌, ◌≡◌, ◌⊎◌, inl, inr, refl, Bool, false, arith,
}
use image_app.Handoff.{
  Owner, nobody, by_main, by_dispatcher, MainPc, accepting, sd_written, addr_written, main_locked,
  main_signalled, DispatcherPc, before_lock, dispatcher_locked, waiting, woken, reading, sd_read,
  both_read, dispatching, signal_cond, Handoff, Move, write_addr, main_get, main_signal,
  main_release, dispatcher_get, dispatcher_wait, dispatcher_wake, read_sd, read_addr,
  dispatcher_release, Client, Reach, move,
}
use image_app.Handoff.Exclusion.{
  mutual_exclusion, main_holds, dispatcher_holds, guard, Owned, Reach-Owned,
}

-- The main loop is ready for a client, and the dispatcher for a signal.
pub record AtRest (s : Handoff) : Type 0 where
  pub ready : s.main ≡ accepting
  pub listening : s.dispatcher ≡ waiting

-- The main loop is ready for a client, and the dispatcher waits for one, or in `get_E` for a slot.
abbrev pub Pausing : Handoff → Type 0
Pausing s = AtRest s ⊎ (s.main ≡ accepting) × ((c : Client) × (s.dispatcher ≡ dispatching c))

-- A sequence of moves, with their number.
pub data Moves (s : Handoff) : ℕ → Handoff → Type 0 where
  none_yet : Moves s 0 s
  then_move : {k : ℕ} {t u : Handoff} → Moves s k t → Move t u → Moves s (suc k) u

-- How many moves can follow: a signal may wake the dispatcher, which then has four to make.
abbrev main_rank : MainPc → ℕ
main_rank accepting = 0
main_rank main_signalled = 1
main_rank main_locked = 6
main_rank addr_written = 7
main_rank (sd_written _) = 8

abbrev dispatcher_rank : DispatcherPc → ℕ
dispatcher_rank waiting = 0
dispatcher_rank dispatcher_locked = 1
dispatcher_rank before_lock = 2
dispatcher_rank (dispatching _) = 0
dispatcher_rank (both_read _) = 1
dispatcher_rank (sd_read _) = 2
dispatcher_rank reading = 3
dispatcher_rank woken = 4

rank : Handoff → ℕ
rank s = main_rank s.main + dispatcher_rank s.dispatcher

signal-rank : (pc : DispatcherPc) → dispatcher_rank (signal_cond pc) ≤ dispatcher_rank pc + 4
signal-rank waiting = omega arith
signal-rank _ = omega arith

Move-rank : {s t : Handoff} → Move s t → rank t < rank s
unfolding rank
Move-rank {s} (main_signal e) = ground (arith, e, signal-rank s.dispatcher)
Move-rank m = ground (arith, guard m)

Moves-rank : {s t : Handoff} {k : ℕ} → Moves s k t → k + rank t ≤ rank s
Moves-rank none_yet = omega arith
Moves-rank (then_move ms m) = omega (arith, Moves-rank ms, Move-rank m)

rank-le : (s : Handoff) → rank s ≤ 12
unfolding rank
rank-le s = omega (arith, main-le s.main, dispatcher-le s.dispatcher)
  where
    main-le : (pc : MainPc) → main_rank pc ≤ 8
    main-le accepting = omega arith
    main-le _ = omega arith

    dispatcher-le : (pc : DispatcherPc) → dispatcher_rank pc ≤ 4
    dispatcher-le waiting = omega arith
    dispatcher-le _ = omega arith

abbrev Able : Handoff → Type 0
Able s = Pausing s ⊎ ((t : Handoff) × Move s t)

able :
    (s : Handoff) (main : MainPc) (dispatcher : DispatcherPc) (owner : Owner)
    → s.main ≡ main
    → s.dispatcher ≡ dispatcher
    → s.owner ≡ owner
    → Owned s
    → Able s
able s (sd_written c) pc owner e f g o = inr (_, write_addr c e)
able s main_locked pc owner e f g o = inr (_, main_signal e)
able s main_signalled pc owner e f g o = inr (_, main_release e)
able s _ dispatcher_locked owner e f g o = inr (_, dispatcher_wait f)
able s _ reading owner e f g o = inr (_, read_sd f)
able s _ (sd_read sd) owner e f g o = inr (_, read_addr sd f)
able s _ (both_read c) owner e f g o = inr (_, dispatcher_release c f)
able s _ before_lock nobody e f g o = inr (_, dispatcher_get f g)
able s _ woken nobody e f g o = inr (_, dispatcher_wake f g)
able s accepting waiting owner e f g o = inl (inl (record { ready = e; listening = f }))
able s accepting (dispatching c) owner e f g o = inl (inr (e, (c, f)))
able s addr_written waiting nobody e f g o = inr (_, main_get e g)
able s addr_written (dispatching c) nobody e f g o = inr (_, main_get e g)
able s _ _ by_main e f g o = absurd (ground (arith, o.of_main))
able s _ _ by_dispatcher e f g o = absurd (ground (arith, o.of_dispatcher))

first_move : {s t u : Handoff} {k : ℕ} → Move s t → Moves t k u → Moves s (suc k) u
first_move m none_yet = then_move none_yet m
first_move m (then_move ms n) = then_move (first_move m ms) n

comes_to_rest :
    {paced : Bool} (fuel : ℕ) (s : Handoff)
    → Reach paced s
    → rank s ≤ fuel
    → (k : ℕ) × ((t : Handoff) × Moves s k t × Pausing t)
comes_to_rest zero s r h =
    elim (able s s.main s.dispatcher s.owner refl refl refl (Reach-Owned r)) [
      | inl rest ↦ (0, (s, none_yet, rest))
      | inr (t, m) ↦ absurd (omega (arith, Move-rank m))
    ]
comes_to_rest (suc fuel) s r h =
    elim (able s s.main s.dispatcher s.owner refl refl refl (Reach-Owned r)) [
      | inl rest ↦ (0, (s, none_yet, rest))
      | inr (t, m) ↦
          let (k, (u, ms, rest)) = comes_to_rest fuel t (move r m) (omega (arith, Move-rank m)) in
          (suc k, (u, first_move m ms, rest))
    ]

Moves-Reach : {paced : Bool} {s t : Handoff} {k : ℕ} → Reach paced s → Moves s k t → Reach paced t
Moves-Reach r none_yet = r
Moves-Reach r (then_move ms m) = move (Moves-Reach r ms) m

-- From every state that can be reached, until a further client comes, the dispatcher gets a slot for
-- its client or a wait comes back without a signal, the two threads make at most 12 moves, in
-- whatever order. After any moves they can go on, to 12 at most, until the main loop is ready for a
-- client and the dispatcher waits for a signal, or waits in `get_E` for a slot. Before that one of
-- them can move, so that there is no deadlock between the two, and they are never both between
-- `get_mutex` and `release_mutex`.
pub settles :
    {paced : Bool} {s t : Handoff} {k : ℕ}
    → Reach paced s
    → Moves s k t
    → (k ≤ 12)
      × ((j : ℕ) × ((u : Handoff) × Moves t j u × Pausing u × (k + j ≤ 12)))
      × (Pausing t ⊎ ((u : Handoff) × Move t u))
      × ((main_holds t.main && dispatcher_holds t.dispatcher) ≡ false)
settles {s} {t} {k} r ms =
    let reached = Moves-Reach r ms in
    let (j, (u, more, rest)) = comes_to_rest (rank t) t reached (omega arith) in
    (
      omega (arith, Moves-rank ms, rank-le s),
      (j, (u, more, rest, omega (arith, Moves-rank ms, Moves-rank more, rank-le s))),
      able t t.main t.dispatcher t.owner refl refl refl (Reach-Owned reached),
      mutual_exclusion reached,
    )

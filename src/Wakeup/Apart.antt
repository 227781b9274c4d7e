-- ===== src/Wakeup/Apart.antt =====
-- A slot that is found only while its thread waits.
use image_app.Common.{
  ◌⊎◌, inl, inr, ◌≡◌, ◌≤◌, refl, ℕ, Bool, true, false, not, List, [], ◌∷◌, ◌++◌, append-nil, length,
  arith,
}
use image_app.Wakeup.{
  DispatchPc, no_client, searching, found, sd_set, used_set, locked, signalled, ThreadPc,
  before_test, testing, asleep, awake, closing, used_cleared, flag_cleared, Slot, Move, next_client,
  find, end_client, wake_spuriously, close_socket, Reach, start, move,
}
use image_app.Wakeup.Exclusion.{guard, will_signal, Orderly, Reach-Orderly}

-- Where the thread stands while the dispatcher fills the slot.
abbrev in_step : DispatchPc → ThreadPc → Bool
in_step no_client pc = true
in_step (searching _) pc = true
in_step signalled awake = true
in_step signalled _ = false
in_step _ asleep = true
in_step _ _ = false

-- What the flag and `used` are, where the thread stands.
abbrev flag_of : ThreadPc → DispatchPc → Bool → Bool
flag_of asleep pc flag = will_signal pc
flag_of before_test pc flag = flag
flag_of testing pc flag = flag
flag_of flag_cleared pc flag = false
flag_of _ pc flag = true

abbrev is_set : DispatchPc → Bool
is_set used_set = true
is_set locked = true
is_set _ = false

abbrev free_of : ThreadPc → DispatchPc → Bool → Bool
free_of asleep pc flag = not (is_set pc)
free_of before_test pc flag = not flag
free_of testing pc flag = not flag
free_of used_cleared pc flag = true
free_of flag_cleared pc flag = true
free_of _ pc flag = false

-- The socket of the client that has the slot: still with the dispatcher, or in the slot.
abbrev held_by_dispatcher : DispatchPc → ℕ → List ℕ
held_by_dispatcher no_client sd = []
held_by_dispatcher (searching c) sd = []
held_by_dispatcher (found c) sd = c.conn_sd ∷ []
held_by_dispatcher (sd_set c) sd = sd ∷ []
held_by_dispatcher _ sd = sd ∷ []

abbrev tested : Bool → ℕ → List ℕ
tested true sd = sd ∷ []
tested false sd = []

abbrev in_slot : ThreadPc → DispatchPc → Bool → ℕ → List ℕ
in_slot asleep pc flag sd = held_by_dispatcher pc sd
in_slot before_test pc flag sd = tested flag sd
in_slot testing pc flag sd = tested flag sd
in_slot _ pc flag sd = sd ∷ []

-- The socket of a client that is being given up.
abbrev given_up : ThreadPc → ℕ → List ℕ
given_up closing sd = sd ∷ []
given_up used_cleared sd = sd ∷ []
given_up flag_cleared sd = sd ∷ []
given_up _ sd = []

record Proper (s : Slot) : Type 0 where
  turns : in_step s.dispatcher s.thread ≡ true
  flagged : flag_of s.thread s.dispatcher s.flag ≡ s.flag
  freed : free_of s.thread s.dispatcher s.flag ≡ s.free
  all : s.given ≡ s.closed ++ in_slot s.thread s.dispatcher s.flag s.conn_sd
  ended : s.served ≡ s.closed ++ given_up s.thread s.conn_sd

module _ {s : Slot} (p : Proper s) where
  Move-turns : {t : Slot} → Move true s t → Orderly s → in_step t.dispatcher t.thread ≡ true
  Move-turns (wake_spuriously unset e) o = absurd (cc (unset))
  Move-turns (next_client c e) o = refl
  Move-turns (find c e free may) o = ground (arith, may)
  Move-turns m o =
      ground (arith, guard m, p.turns, p.flagged, p.freed, o.of_dispatcher, o.of_thread)

  Move-flagged :
      {t : Slot} → Move true s t → Orderly s → flag_of t.thread t.dispatcher t.flag ≡ t.flag
  Move-flagged (wake_spuriously unset e) o = absurd (cc (unset))
  Move-flagged (next_client c e) o = ground (arith, e, p.flagged)
  Move-flagged (find c e free may) o = ground (arith, e, may, p.flagged)
  Move-flagged m o = ground (arith, guard m, p.turns, p.flagged, o.of_dispatcher, o.of_thread)

  Move-freed :
      {t : Slot} → Move true s t → Orderly s → free_of t.thread t.dispatcher t.flag ≡ t.free
  Move-freed (wake_spuriously unset e) o = absurd (cc (unset))
  Move-freed (next_client c e) o = ground (arith, e, p.freed)
  Move-freed (find c e free may) o = ground (arith, e, may, p.freed)
  Move-freed m o =
      ground (arith, guard m, p.turns, p.flagged, p.freed, o.of_dispatcher, o.of_thread)

  Move-all :
      {t : Slot}
      → Move true s t
      → Orderly s
      → t.given ≡ t.closed ++ in_slot t.thread t.dispatcher t.flag t.conn_sd
  Move-all (wake_spuriously unset e) o = absurd (cc (unset))
  Move-all (next_client c e) o = ground (arith, e, p.all)
  Move-all (find c e free may) o = ground (arith, e, may, p.all, append-nil s.closed)
  Move-all (close_socket e) o =
      ground (arith, e, p.flagged, p.all, append-nil (s.closed ++ s.conn_sd ∷ []))
  Move-all m o = ground (arith, guard m, p.turns, p.flagged, p.all, o.of_dispatcher, o.of_thread)

  Move-ended :
      {t : Slot} → Move true s t → Orderly s → t.served ≡ t.closed ++ given_up t.thread t.conn_sd
  Move-ended (wake_spuriously unset e) o = absurd (cc (unset))
  Move-ended (next_client c e) o = p.ended
  Move-ended (end_client e) o = ground (arith, e, p.ended, append-nil s.closed)
  Move-ended (close_socket e) o =
      ground (arith, e, p.ended, append-nil (s.closed ++ s.conn_sd ∷ []))
  Move-ended m o = ground (arith, guard m, p.turns, p.ended)

Reach-Proper : {s : Slot} → Reach true s → Proper s
Reach-Proper start = record { turns = refl; flagged = refl; freed = refl; all = refl; ended = refl }
Reach-Proper (move r m) =
    let p = Reach-Proper r in
    let o = Reach-Orderly r in
    record {
      turns = Move-turns p m o;
      flagged = Move-flagged p m o;
      freed = Move-freed p m o;
      all = Move-all p m o;
      ended = Move-ended p m o;
    }

-- Whether the thread waits and the dispatcher is not filling the slot.
abbrev pub is_idle : ThreadPc → DispatchPc → Bool
is_idle asleep no_client = true
is_idle asleep (searching _) = true
is_idle _ _ = false

-- What is known of a slot whose thread and dispatcher are idle.
abbrev pub Settled : Slot → Type 0
Settled s = (s.closed ≡ s.given) × (s.served ≡ s.given) × (s.free ≡ true) × (s.flag ≡ false)

idle-Settled :
    (s : Slot) (pc : ThreadPc) (d : DispatchPc)
    → s.thread ≡ pc
    → s.dispatcher ≡ d
    → Proper s
    → (is_idle pc d ≡ false) ⊎ Settled s
idle-Settled s asleep no_client e f p =
    inr (ground (arith, p.flagged, p.freed, p.all, p.ended, append-nil s.closed))
idle-Settled s asleep (searching c) e f p =
    inr (ground (arith, p.flagged, p.freed, p.all, p.ended, append-nil s.closed))
idle-Settled s asleep _ e f p = inl refl
idle-Settled s _ d e f p = inl refl

one_socket :
    (pc : ThreadPc) (d : DispatchPc) (flag : Bool) (sd : ℕ) → length (in_slot pc d flag sd) ≤ 1
one_socket asleep no_client flag sd = omega arith
one_socket asleep _ flag sd = omega arith
one_socket before_test d flag sd = ground arith
one_socket testing d flag sd = ground arith
one_socket _ d flag sd = omega arith

-- If the slot is found only while its thread waits, and no wait of the thread comes back without a
-- signal, every client gets its round: in every state that
-- can be reached, the clients that were closed are those that were given the slot, in their order,
-- but for the last one at most, and those that had their last round are either these or all that
-- were given it. Whenever the thread waits and the dispatcher is not filling the slot, all clients that were given the slot have
-- had their rounds and were closed, the slot is free, and its flag is not set.
pub apart_lem :
    {s : Slot}
    → Reach true s
    → ((rest : List ℕ) × (s.given ≡ s.closed ++ rest) × (length rest ≤ 1))
      × ((s.served ≡ s.closed) ⊎ (s.served ≡ s.given))
      × ((is_idle s.thread s.dispatcher ≡ false) ⊎ Settled s)
apart_lem {s} r =
    let p = Reach-Proper r in
    (
      (
        in_slot s.thread s.dispatcher s.flag s.conn_sd,
        p.all,
        one_socket s.thread s.dispatcher s.flag s.conn_sd,
      ),
      between s s.thread refl p,
      idle-Settled s s.thread s.dispatcher refl refl p,
    )
  where
    between :
        (s : Slot) (pc : ThreadPc)
        → s.thread ≡ pc
        → Proper s
        → (s.served ≡ s.closed) ⊎ (s.served ≡ s.given)
    between s closing e p = inr (ground (arith, p.all, p.ended))
    between s used_cleared e p = inr (ground (arith, p.all, p.ended))
    between s flag_cleared e p = inr (ground (arith, p.all, p.ended))
    between s _ e p = inl (ground (arith, p.ended, append-nil s.closed))

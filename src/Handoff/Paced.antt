-- ===== src/Handoff/Paced.antt =====
-- What is handed over when each client comes while the dispatcher waits.
use image_app.Common.{
  ◌⊎◌, inl, inr, length, ◌≤◌, ◌≡◌, refl, true, Bool, false, ℕ, List, [], ◌∷◌, ◌++◌, append-nil,
  arith,
}
use image_app.Handoff.{
  accepting, sd_written, addr_written, main_locked, main_signalled, MainPc, DispatcherPc, waiting,
  woken, reading, sd_read, both_read, dispatching, Client, Handoff, Move, write_addr, dispatch,
  Reach, start, move, next, wake_spuriously,
}
use image_app.Handoff.Exclusion.{guard}

-- Until it has signalled, the main loop has the dispatcher waiting.
abbrev in_step : MainPc → DispatcherPc → Bool
in_step accepting pc = true
in_step main_signalled pc = true
in_step _ waiting = true
in_step _ _ = false

-- The client on its way: as the main loop has it, in the shared fields, or as the dispatcher has
-- read it.
abbrev on_way : MainPc → DispatcherPc → ℕ → ℕ → List Client
on_way (sd_written c) pc sd a = c ∷ []
on_way addr_written pc sd a = record { conn_sd = sd; client_addr = a } ∷ []
on_way main_locked pc sd a = record { conn_sd = sd; client_addr = a } ∷ []
on_way _ woken sd a = record { conn_sd = sd; client_addr = a } ∷ []
on_way _ reading sd a = record { conn_sd = sd; client_addr = a } ∷ []
on_way _ (sd_read x) sd a = record { conn_sd = x; client_addr = a } ∷ []
on_way _ (both_read c) sd a = c ∷ []
on_way _ (dispatching c) sd a = c ∷ []
on_way _ _ sd a = []

-- The socket that the main loop has written.
abbrev written : MainPc → ℕ → ℕ
written (sd_written c) sd = c.conn_sd
written _ sd = sd

record InStep (s : Handoff) : Type 0 where
  turns : in_step s.main s.dispatcher ≡ true
  socket : written s.main s.conn_sd ≡ s.conn_sd
  all : s.handed ≡ s.delivered ++ on_way s.main s.dispatcher s.conn_sd s.client_addr

Move-turns : {s t : Handoff} → Move s t → InStep s → in_step t.main t.dispatcher ≡ true
Move-turns (write_addr c e) i = ground (arith, i.turns)
Move-turns m i = ground (arith, guard m, i.turns)

Move-socket : {s t : Handoff} → Move s t → InStep s → written t.main t.conn_sd ≡ t.conn_sd
Move-socket (write_addr c e) i = refl
Move-socket m i = ground (arith, guard m, i.socket)

Move-all :
    {s t : Handoff}
    → Move s t
    → InStep s
    → t.handed ≡ t.delivered ++ on_way t.main t.dispatcher t.conn_sd t.client_addr
Move-all (write_addr c e) i = ground (arith, e, i.turns, i.socket, i.all)
Move-all m i = ground (arith, guard m, i.turns, i.socket, i.all)

Reach-InStep : {s : Handoff} → Reach true s → InStep s
Reach-InStep start = record { turns = refl; socket = refl; all = refl }
Reach-InStep (move r m) =
    let i = Reach-InStep r in
    record { turns = Move-turns m i; socket = Move-socket m i; all = Move-all m i }
Reach-InStep (next {s} c r e may) =
    let i = Reach-InStep r in
    record {
      turns = ground (arith, may);
      socket = refl;
      all = ground (arith, e, may, i.all, append-nil s.delivered);
    }
Reach-InStep (dispatch {s} c r e) =
    let i = Reach-InStep r in
    record {
      turns = ground (arith, e, i.turns);
      socket = i.socket;
      all = ground (arith, e, i.turns, i.all, append-nil (s.delivered ++ c ∷ []));
    }
Reach-InStep (wake_spuriously r unpaced e) = absurd (cc (unpaced))

-- Whether the main loop is ready for a client and the dispatcher for a signal.
abbrev pub at_rest : MainPc → DispatcherPc → Bool
at_rest accepting waiting = true
at_rest _ _ = false

few :
    (main : MainPc) (pc : DispatcherPc) (sd a : ℕ)
    → (length (on_way main pc sd a) ≤ 1) × ((on_way main pc sd a ≡ []) ⊎ (at_rest main pc ≡ false))
few (sd_written c) pc sd a = (omega arith, inr refl)
few addr_written pc sd a = (omega arith, inr refl)
few main_locked pc sd a = (omega arith, inr refl)
few accepting waiting sd a = (omega arith, inl refl)
few main_signalled waiting sd a = (omega arith, inl refl)
few accepting woken sd a = (omega arith, inr refl)
few accepting _ sd a = (omega arith, inr refl)
few main_signalled woken sd a = (omega arith, inr refl)
few main_signalled _ sd a = (omega arith, inr refl)

-- If each client comes while the dispatcher waits, and no wait of the dispatcher comes back without a
-- signal, the pool gets what it is handed: in every state
-- that can be reached, the clients handed over are those that have been put into a slot, in their
-- order, each with its own socket and address, and behind them at most one that is on its way.
-- Whenever the two threads are at rest, none is on its way.
pub paced_lem :
    {s : Handoff}
    → Reach true s
    → (rest : List Client) × (s.handed ≡ s.delivered ++ rest)
      × (length rest ≤ 1)
      × ((rest ≡ []) ⊎ (at_rest s.main s.dispatcher ≡ false))
paced_lem {s} r =
    let (short, quiet) = few s.main s.dispatcher s.conn_sd s.client_addr in
    (on_way s.main s.dispatcher s.conn_sd s.client_addr, (Reach-InStep r).all, short, quiet)

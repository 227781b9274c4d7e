-- ===== src/Handoff/Races.antt =====
-- Two clients one of which comes while the dispatcher does not wait.
use image_app.Common.{ℕ, ◌++◌, ◌≡◌, refl, false, List, [], ◌∷◌}
use image_app.Handoff.{
  nobody, accepting, waiting, dispatching, woken, Client, Handoff, dispatcher_get, dispatcher_wait,
  dispatcher_wake, read_sd, read_addr, dispatcher_release, dispatch, wake_spuriously, Reach, move,
}
use image_app.Handoff.Rest.{AtRest}

-- The socket of one client and the address of another.
abbrev pub mixed : Client → Client → Client
mixed x y = record { conn_sd = x.conn_sd; client_addr = y.client_addr }

-- A state at rest.
abbrev pub rested : ℕ → ℕ → List Client → List Client → Handoff
rested sd a handed delivered = record {
  conn_sd = sd;
  client_addr = a;
  owner = nobody;
  main = accepting;
  dispatcher = waiting;
  handed = handed;
  delivered = delivered;
}

rested-AtRest : (sd a : ℕ) (handed delivered : List Client) → AtRest (rested sd a handed delivered)
rested-AtRest sd a handed delivered = record { ready = refl; listening = refl }

-- The dispatcher puts the client that it has read into a slot, and waits again.
filled :
    {s : Handoff} (c : Client)
    → Reach false s
    → s.dispatcher ≡ dispatching c
    → s.owner ≡ nobody
    → Reach false
        (record s { owner = nobody; dispatcher = waiting; delivered = s.delivered ++ c ∷ [] })
filled c r there free =
    move (move (dispatch c r there) (dispatcher_get refl free)) (dispatcher_wait refl)

-- The dispatcher is woken and reads a client whole.
read_through :
    {s : Handoff}
    → Reach false s
    → s.dispatcher ≡ woken
    → s.owner ≡ nobody
    → Reach false (record s {
      owner = nobody;
      dispatcher = dispatching (record { conn_sd = s.conn_sd; client_addr = s.client_addr });
    })
read_through {s} r there free =
    move
      (move (move (move r (dispatcher_wake there free)) (read_sd refl)) (read_addr s.conn_sd refl))
      (dispatcher_release (record { conn_sd = s.conn_sd; client_addr = s.client_addr }) refl)

-- What can become of two clients: the state at rest, with the clients that have a slot.
abbrev pub Ends : List Client → List Client → Type 0
Ends handed delivered =
    (s : Handoff) × Reach false s × AtRest s × (s.handed ≡ handed) × (s.delivered ≡ delivered)

module _ (sd a : ℕ) (handed delivered : List Client) (x y : Client)
    (r : Reach false (rested sd a handed delivered)) where
  abbrev both : List Client
  both = (handed ++ x ∷ []) ++ y ∷ []

-- From every state at rest, if the dispatcher's wait comes back without a signal, a slot is filled for the
-- client that was handed over last, once more, although none has come.
pub phantom_client :
    (sd a : ℕ) (handed delivered : List Client)
    → Reach false (rested sd a handed delivered)
    → Ends handed (delivered ++ record { conn_sd = sd; client_addr = a } ∷ [])
phantom_client sd a handed delivered r =
    let c : Client = record { conn_sd = sd; client_addr = a } in
    (
      rested sd a handed (delivered ++ c ∷ []),
      filled c (read_through (wake_spuriously r refl refl) refl refl) refl refl,
      record { ready = refl; listening = refl },
      refl,
      refl,
    )

-- ===== src/Server/Main/Clients.antt =====
-- The clients of the main loop, as the answers of poll and accept give them, and what becomes of them.
use image_app.Common.{
  ◌<◌, ◌≤◌, ◌≡◌, Bool, true, false, ◌||◌, Option, none, some, List, [], ◌∷◌, ◌++◌, Bytes, map,
  codes, All, ℕ, arith,
}
use image_app.Log.{percent_d, inet_ntoa, ntohs}
use image_app.Server.Pools.{Sound}
use image_app.Server.Main.{Poll, poll_failed, poll_silent, poll_ready, Arrival, Turn, Main}

-- The line of a client in the log.
abbrev pub connected_line : Arrival → Bytes
connected_line a =
    codes "<<"
    ++ (a.time_buf
        ++ (codes ">> : "
            ++ (codes "a client has connected. Its address is "
                ++ (inet_ntoa a.client_addr
                    ++ (codes " and was given "
                        ++ (percent_d (ntohs a.client_addr) ++ codes " port\n"))))))

-- What poll leaves in `revents`.
abbrev pub seen : Bool → Poll → Bool
seen revents (poll_failed out_of_memory) = revents
seen revents poll_silent = false
seen revents (poll_ready pollin) = pollin

-- Whether accept is called and fails, and the client that it returns.
abbrev pub refused : Bool → Option Arrival → Bool
refused false accepted = false
refused true none = true
refused true (some a) = false

abbrev pub came : Bool → Option Arrival → List Arrival
came false accepted = []
came true none = []
came true (some a) = a ∷ []

-- Whether a turn ends the process: there is no memory for poll, or accept fails.
abbrev pub fails : Bool → Turn → Bool
fails revents turn = elim turn.ready [
  | poll_failed true ↦ true
  | _ ↦ refused (seen revents turn.ready) turn.accepted
]

-- Over all turns.
unfoldable pub some_fails : Bool → List Turn → Bool
some_fails revents [] = false
some_fails revents (turn ∷ turns) = fails revents turn || some_fails (seen revents turn.ready) turns

unfoldable pub arrivals : Bool → List Turn → List Arrival
arrivals revents [] = []
arrivals revents (turn ∷ turns) =
    came (seen revents turn.ready) turn.accepted ++ arrivals (seen revents turn.ready) turns

-- Every client was handed to a pool below `size_pool`, all of which are there.
abbrev pub Led : ℕ → List (ℕ × Arrival) → Type 0
Led size_pool handed = All (λ h. h.0 < size_pool) handed

pub Led-larger : (n k : ℕ) (handed : List (ℕ × Arrival)) → n ≤ k → Led n handed → Led k handed
Led-larger n k [] h led = tt
Led-larger n k (a ∷ handed) h led = (omega (arith, h, led.0), Led-larger n k handed h led.1)

pub record Good (m : Main) : Type 0 where
  pub sound : Sound m.server
  pub led : Led m.server.size_pool m.handed

-- What is added between two states.
pub record Adds (m : Main) (clients : List Arrival) (m' : Main) : Type 0 where
  pub good : Good m'
  pub lines : m'.log ≡ m.log ++ map connected_line clients
  pub once : map (λ h. h.1) m'.handed ≡ map (λ h. h.1) m.handed ++ clients

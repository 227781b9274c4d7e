-- ===== src/Server/Main.antt =====
-- The main loop of HttpServer.c with its calls of poll and accept and its line in the log.
pub mod Clients
pub mod Turns
use image_app.Common.{
  ℕ, zero, suc, ◌+◌, ◌≡◌, Bool, true, false, Option, none, some, List, [], ◌∷◌, ◌++◌, Bytes, codes,
  Outcome, ok, exit, fault, ◌>>=◌, load, ℤ, pos, negsuc, if◌then◌else◌,
}
use image_app.Log.{connection_accepted, write_event_log, percent_d}
use image_app.ThreadPool.{Pool}
use image_app.Setup.{Item}
use image_app.Server.{Server, accept_round, chosen}

-- What poll answers: -1, where errno is ENOMEM or another error, 0, or 1, where POLLIN is among the
-- events or not.
pub data Poll : Type 0 where
  poll_failed : Bool → Poll
  poll_silent : Poll
  poll_ready : Bool → Poll

-- A client that accept returns, with the text that strftime gives for the time.
pub record Arrival : Type 0 where
  pub conn_sd : ℕ
  pub client_addr : ℕ
  pub time_buf : Bytes

-- What the calls of one turn that comes to its end answer, `max_descriptor` at its test, and what the
-- calls of `handle_pool` answer where the turn waits for a growth.
pub record Turn : Type 0 where
  pub ready : Poll
  pub accepted : Option Arrival
  pub max_descriptor : ℕ
  pub kernel : Item → Bool

-- The state of the loop. `revents` is whether `pfd->revents` holds POLLIN; `log` has the lines of
-- the accepted clients, and `handed` these clients with the pools that they were handed to.
pub record Main : Type 0 where
  pub server : Server
  pub revents : Bool
  pub log : List Bytes
  pub handed : List (ℕ × Arrival)

-- The block of `pfd` is filled with zeros.
abbrev pub first_main : Server → Main
first_main server = record { server = server; revents = false; log = []; handed = [] }

hand_over : (Item → Bool) → ℕ → ℕ → Option Arrival → Main → Outcome Main
hand_over kernel num_threads max_descriptor none m = exit
hand_over kernel num_threads max_descriptor (some a) m = do
  line ← write_event_log a.time_buf connection_accepted a.client_addr none
  server ← accept_round kernel num_threads max_descriptor m.server
  ok (record m {
    server = server;
    log = m.log ++ line ∷ [];
    handed = m.handed ++ (m.server.idx_pool, a) ∷ [];
  })

if_ready : ℕ → Turn → Main → Outcome Main
unfolding hand_over
if_ready num_threads turn m =
    let next = hand_over turn.kernel num_threads turn.max_descriptor turn.accepted m in
    if m.revents then next else ok m

-- poll leaves `revents` as it was where it fails, and the turn goes on.
unfoldable pub main_turn : ℕ → Turn → Main → Outcome Main
unfolding if_ready
main_turn num_threads turn m = elim turn.ready [
  | poll_failed true ↦ exit
  | poll_failed false ↦ if_ready num_threads turn m
  | poll_silent ↦ ok (record m { revents = false })
  | poll_ready pollin ↦ if_ready num_threads turn (record m { revents = pollin })
]

unfoldable pub main_turns : ℕ → List Turn → Main → Outcome Main
main_turns num_threads [] m = ok m
main_turns num_threads (turn ∷ turns) m =
    main_turn num_threads turn m >>= main_turns num_threads turns

-- ===== src/Wakeup/Races.antt =====
-- A slot that is found while its thread is giving it back.
use image_app.Common.{Bool, ℕ, ◌≡◌, refl, true, false, List, [], ◌∷◌, ◌++◌}
use image_app.Handoff.{Client}
use image_app.Wakeup.{
  unlocked, no_client, used_set, used_cleared, asleep, awake, Slot, wake, next_client, find, set_sd,
  set_addr, set_flag, set_used, dispatcher_get, dispatcher_signal, dispatcher_release, thread_get,
  thread_wait, thread_wake, wake_spuriously, thread_release, end_client, clear_used, clear_flag,
  close_socket, Reach, move,
}

-- The thread waits and the dispatcher has no client.
abbrev pub waiting_slot : Client → Bool → List ℕ → List ℕ → List ℕ → Slot
waiting_slot c free given served closed = record {
  conn_sd = c.conn_sd;
  client_addr = c.client_addr;
  free = free;
  flag = false;
  holder = unlocked;
  dispatcher = no_client;
  thread = asleep;
  given = given;
  served = served;
  closed = closed;
}

-- The dispatcher fills the slot with a client, all steps in a row.
fill :
    {s : Slot} (c : Client)
    → Reach false s
    → s.dispatcher ≡ no_client
    → s.free ≡ true
    → s.holder ≡ unlocked
    → Reach false (record s {
      conn_sd = c.conn_sd;
      client_addr = c.client_addr;
      free = false;
      flag = true;
      holder = unlocked;
      dispatcher = no_client;
      thread = wake s.thread;
      given = s.given ++ c.conn_sd ∷ [];
    })
fill {s} c r idle free ready =
    move (move (move seen_flag (dispatcher_get refl ready)) (dispatcher_signal refl))
      (dispatcher_release refl)
  where
    seen_flag : Reach false (record s {
      conn_sd = c.conn_sd;
      client_addr = c.client_addr;
      free = false;
      flag = true;
      dispatcher = used_set;
      given = s.given ++ c.conn_sd ∷ [];
    })
    seen_flag =
        move
          (move
            (move (move (move (move r (next_client c idle)) (find c refl free tt)) (set_sd c refl))
              (set_addr c refl))
            (set_flag refl))
          (set_used refl)

-- The thread, once woken, has its last round with the client and begins to give the slot back.
round_ends :
    {s : Slot}
    → Reach false s
    → s.thread ≡ awake
    → s.holder ≡ unlocked
    → Reach false (record s {
      free = true;
      holder = unlocked;
      thread = used_cleared;
      served = s.served ++ s.conn_sd ∷ [];
    })
round_ends r there ready =
    move (move (move (move r (thread_wake there ready)) (thread_release refl)) (end_client refl))
      (clear_used refl)

-- It goes on to the end, and waits.
gives_back :
    {s : Slot}
    → Reach false s
    → s.thread ≡ used_cleared
    → s.holder ≡ unlocked
    → Reach false (record s {
      flag = false;
      holder = unlocked;
      thread = asleep;
      closed = s.closed ++ s.conn_sd ∷ [];
    })
gives_back r there ready =
    move (move (move (move r (clear_flag there)) (close_socket refl)) (thread_get refl ready))
      (thread_wait refl refl)

-- If the wait of the thread comes back without a signal, it has a round with the socket of its last
-- client, and closes this socket again.
pub round_without_client :
    (c : Client) (free : Bool) (given served closed : List ℕ)
    → Reach false (waiting_slot c free given served closed)
    → Reach false (waiting_slot c true given (served ++ c.conn_sd ∷ []) (closed ++ c.conn_sd ∷ []))
round_without_client c free given served closed r =
    gives_back (round_ends (move r (wake_spuriously refl refl)) refl refl) refl refl

-- From every state in which the thread waits, the dispatcher has no client and the slot is free, and
-- for any two clients, there is a history after which the first had its round but its socket was
-- never closed, while the socket of the second was closed without a round; the slot stays in use,
-- its flag is not set, and the thread waits.
pub close_races :
    (c : Client) (given served closed : List ℕ) (x y : Client)
    → Reach false (waiting_slot c true given served closed)
    → Reach false (
        waiting_slot y false
          ((given ++ x.conn_sd ∷ []) ++ y.conn_sd ∷ [])
          (served ++ x.conn_sd ∷ [])
          (closed ++ y.conn_sd ∷ []))
close_races c given served closed x y r =
    gives_back (fill y (round_ends (fill x r refl refl refl) refl refl) refl refl refl) refl refl

-- ===== src/Server/Main/Turns.antt =====
-- The main loop on any sequence of turns.
use image_app.Common.{
  ◌*◌, ◌^◌, ◌-◌, ◌<◌, ◌≡◌, ◌⊎◌, inl, inr, refl, sym, Bool, true, false, Option, none, some, List,
  [], ◌∷◌, ◌++◌, append_assoc, append-nil, map, map-append, All, All-append, Outcome, ok, exit, ℕ,
  arith,
}
use image_app.Log.{connection_accepted, write_event_log, stamp}
use image_app.Setup.{Item}
use image_app.Server.{Server}
use image_app.Server.Pools.{Sound, accept_round-Sound}
use image_app.Server.Main.Clients.{
  connected_line, seen, refused, came, fails, some_fails, arrivals, Led, Led-larger, Good, Adds,
}
use image_app.Server.Main.{
  Poll, poll_failed, poll_silent, poll_ready, Arrival, Turn, Main, first_main, hand_over, if_ready,
  main_turn, main_turns,
}

logged :
    (a : Arrival)
    → write_event_log a.time_buf connection_accepted a.client_addr none ≡ ok (connected_line a)
unfolding write_event_log stamp
logged a = refl

Adds-nil : (m : Main) (revents : Bool) → Good m → Adds m [] (record m { revents = revents })
Adds-nil m revents good = record {
  good = record { sound = good.sound; led = good.led };
  lines = sym (append-nil m.log);
  once = sym (append-nil (map (λ h. h.1) m.handed));
}

Adds-append :
    {m m1 m2 : Main} {xs ys : List Arrival} → Adds m xs m1 → Adds m1 ys m2 → Adds m (xs ++ ys) m2
Adds-append {m} {m1} {m2} {xs} {ys} s t = record {
  good = t.good;
  lines = rw (t.lines, s.lines, map-append connected_line xs ys) (append_assoc m.log _ _);
  once = rw (t.once, s.once) (append_assoc (map (λ h. h.1) m.handed) xs ys);
}

-- What a turn does from a good state: the end of the process, or a good state with its client.
abbrev Turned : Main → Bool → Bool → List Arrival → Outcome Main → Type 0
Turned m revents failing clients run =
    ((failing ≡ true) × (run ≡ exit))
    ⊎ (failing ≡ false) × ((m' : Main) × (run ≡ ok m') × (m'.revents ≡ revents) × Adds m clients m')

-- The calls of a growth are all successful.
abbrev pub AllMade : Turn → Type 0
AllMade turn = (x : Item) → turn.kernel x ≡ true

-- What becomes of the main loop: the end of the process, or what the clients have got.
abbrev pub Runs : ℕ → List Turn → Server → Type 0
Runs num_threads turns server =
    ((some_fails false turns ≡ true) × (main_turns num_threads turns (first_main server) ≡ exit))
    ⊎ (some_fails false turns ≡ false)
      × ((m : Main) × (main_turns num_threads turns (first_main server) ≡ ok m)
          × Sound m.server
          × Led m.server.size_pool m.handed
          × (map (λ h. h.1) m.handed ≡ arrivals false turns)
          × (m.log ≡ map connected_line (arrivals false turns)))

module _ (num_threads : ℕ) (small : num_threads * 32 < 2 ^ 31 - 1) where
  hand_over-Adds :
      (kernel : Item → Bool) (d : ℕ) (a : Arrival) (m : Main)
      → ((x : Item) → kernel x ≡ true)
      → Good m
      → (m' : Main) × (hand_over kernel num_threads d (some a) m ≡ ok m')
        × (m'.revents ≡ m.revents)
        × Adds m (a ∷ []) m'
  unfolding hand_over
  hand_over-Adds kernel d a m willing good =
      let (s, e, sound, larger) =
        accept_round-Sound kernel num_threads d m.server small willing good.sound in
      (
        record m {
          server = s;
          log = m.log ++ connected_line a ∷ [];
          handed = m.handed ++ (m.server.idx_pool, a) ∷ [];
        },
        rw (logged a, e) refl,
        refl,
        record {
          good = record {
            sound = sound;
            led =
                All-append (λ h. h.0 < s.size_pool) m.handed _
                  (Led-larger m.server.size_pool s.size_pool m.handed larger good.led)
                  (omega (arith, larger, good.sound.next_inside), tt);
          };
          lines = refl;
          once = map-append (λ h. h.1) m.handed ((m.server.idx_pool, a) ∷ []);
        },
      )

  if_ready-Turned :
      (revents : Bool) (ready : Poll) (accepted : Option Arrival) (d : ℕ) (kernel : Item → Bool)
      (m : Main)
      → ((x : Item) → kernel x ≡ true)
      → Good m
      → Turned m revents (refused revents accepted) (came revents accepted) (
          if_ready num_threads
            (record { ready = ready; accepted = accepted; max_descriptor = d; kernel = kernel })
            (record m { revents = revents }))
  unfolding if_ready hand_over
  if_ready-Turned false ready accepted d kernel m willing good =
      inr (refl, (_, refl, refl, Adds-nil m false good))
  if_ready-Turned true ready none d kernel m willing good = inl (refl, refl)
  if_ready-Turned true ready (some a) d kernel m willing good =
      let (m', e, same, adds) =
        hand_over-Adds kernel d a (record m { revents = true }) willing
          (record { sound = good.sound; led = good.led }) in
      inr (refl, (m', e, same, record { good = adds.good; lines = adds.lines; once = adds.once }))

  main_turn-Turned :
      (ready : Poll) (accepted : Option Arrival) (d : ℕ) (kernel : Item → Bool) (m : Main)
      → ((x : Item) → kernel x ≡ true)
      → Good m
      → Turned m
          (seen m.revents ready)
          (fails m.revents
            (record { ready = ready; accepted = accepted; max_descriptor = d; kernel = kernel }))
          (came (seen m.revents ready) accepted)
          (main_turn num_threads
            (record { ready = ready; accepted = accepted; max_descriptor = d; kernel = kernel })
            m)
  unfolding main_turn
  main_turn-Turned (poll_failed true) accepted d kernel m willing good = inl (refl, refl)
  main_turn-Turned (poll_failed false) accepted d kernel m willing good =
      if_ready-Turned m.revents (poll_failed false) accepted d kernel m willing good
  main_turn-Turned poll_silent accepted d kernel m willing good =
      inr (refl, (_, refl, refl, Adds-nil m false good))
  main_turn-Turned (poll_ready pollin) accepted d kernel m willing good =
      if_ready-Turned pollin (poll_ready pollin) accepted d kernel m willing good

  main_turns-Adds :
      (turns : List Turn) (m : Main)
      → All AllMade turns
      → Good m
      → ((some_fails m.revents turns ≡ true) × (main_turns num_threads turns m ≡ exit))
        ⊎ (some_fails m.revents turns ≡ false)
          × ((m' : Main) × (main_turns num_threads turns m ≡ ok m')
              × Adds m (arrivals m.revents turns) m')
  unfolding main_turns some_fails arrivals
  main_turns-Adds [] m willing good = inr (refl, (m, refl, Adds-nil m m.revents good))
  main_turns-Adds (turn ∷ turns) m willing good =
      elim (main_turn-Turned turn.ready turn.accepted turn.max_descriptor turn.kernel m willing.0
        good) [
          | inl (failing, ends) ↦ inl (rw failing refl, rw ends refl)
          | inr (going, (m1, e, same, adds)) ↦ elim (main_turns-Adds turns m1 willing.1 adds.good) [
            | inl (failing, ends) ↦ inl (rw (going, ← same) failing, rw e ends)
            | inr (still, (m2, later, more)) ↦ inr (
              rw (going, ← same) still,
              (m2, rw e later, rw (← same) (Adds-append (rw (← same) at adds) more)),
            )
          ]
        ]

  -- From a server whose table of 32 pools is sound, and with so few threads that 32 times their
  -- number is below 2^31 - 1, the main loop, on turns that come to their end and in which the calls of
  -- a growth, if there is one, are all successful, never does anything undefined. It ends the process
  -- exactly if in some turn poll has no memory, or accept fails where poll has seen a client.
  -- Otherwise the clients that were accepted, in their order, are those that have been handed over,
  -- each once and to a pool that is there, and the log has one line for each with its address and
  -- port. Where poll fails for another reason, what it saw before counts once more.
  pub main_turns_lem :
      (turns : List Turn) (server : Server)
      → All AllMade turns
      → Sound server
      → Runs num_threads turns server
  main_turns_lem turns server willing sound =
      elim (main_turns-Adds turns (first_main server) willing
        (record { sound = sound; led = tt })) [
          | inl ends ↦ inl ends
          | inr (going, (m, e, adds)) ↦
              inr (going, (m, e, adds.good.sound, adds.good.led, adds.once, adds.lines))
        ]

-- ===== src/Tests/Pools.antt =====
-- ThreadPool.c: a pool of two slots.
use image_app.Common.{
  All, List, codes, ◌++◌, ◌<◌, ℕ, ◌≡◌, ◌⊎◌, refl, true, false, some, none, [], ◌∷◌, ok, pos, arith,
}
use image_app.ThreadPool.{
  Pool, new_slot, occupied, is_free, find_free, get_E_round, get_E, dispatch_job, close_client,
  allocate_pool,
}
use image_app.Server.{Server, init_server}
use image_app.Config.{conf_number_thread, conf_max_conn, conf_size_pool, conf_port_serv}
use image_app.Config.Settings.{Setting, file_of, with_all, with_value}
use image_app.Files.{list_from}
use image_app.ImageCache.State.{Represents}
use image_app.Server.Startup.{no_globals, Environment, Started, start_server}
use image_app.Server.Startup.Ready.{Willing, start_server_lem}
use image_app.Setup.{Item, set_up_pools, set_up_rest, set_up}
use image_app.Setup.Order.{Ordered, set_up-Ordered, set_up-all}
use image_app.Server.Pools.{Sound, init_server-Sound}
use image_app.Server.Main.{poll_failed, poll_silent, poll_ready, Arrival, Turn}
use image_app.Server.Main.Clients.{some_fails, arrivals}
use image_app.Server.Main.Turns.{AllMade, Runs, main_turns_lem}
use image_app.ThreadPool.Ring.{SlotIs}
use image_app.ThreadPool.Slots.{Dispatched, dispatch_job_lem, Closed, close_client_lem}
use image_app.ThreadPool.Timer.{renewed, handle_timer}
use image_app.ThreadPool.Timer.Expiry.{handle_timer_reply}

-- The first slot is in use, the second is free.
abbrev two : Pool
two = record { end = 0; arr = occupied 3 4 (new_slot 0 0) ∷ new_slot 0 1 ∷ []; counter = pos 2 }

dispatch_job_lem_example :
    ((dispatch_job 2 (two ∷ []) 5 6 ≡ ok none) × ((k : ℕ) → k < 2 → SlotIs false two k))
    ⊎ ((k : ℕ) × (q : Pool) × (dispatch_job 2 (two ∷ []) 5 6 ≡ ok (some (k, q)))
        × Dispatched two 5 6 k q)
dispatch_job_lem_example = dispatch_job_lem 2 two 5 6 refl (omega arith) (omega arith)

close_client_lem_example :
    (q : Pool) × (close_client two 0 0 true ≡ ok (q, 18446744073709551615)) × Closed two 0 q
close_client_lem_example =
    close_client_lem two 0 0 (occupied 3 4 (new_slot 0 0), refl, unfold is_free in refl)

abbrev once : Pool
once = record { end = 1; arr = occupied 5 6 (new_slot 0 0) ∷ new_slot 0 1 ∷ []; counter = pos 2 }

one_client : dispatch_job 2 (allocate_pool 2 0 ∷ []) 5 6 ≡ ok (some (0, once))
unfolding dispatch_job get_E get_E_round find_free allocate_pool is_free
one_client = refl

handle_timer_reply_example :
    handle_timer (false ∷ true ∷ []) (occupied 3 4 (new_slot 0 0))
    ≡ some (pos 3, record (renewed (occupied 3 4 (new_slot 0 0))) { timer = pos 3 })
handle_timer_reply_example =
    handle_timer_reply 5 1 [] (occupied 3 4 (new_slot 0 0)) refl (omega arith)

abbrev one_pool : (s : Server) × (init_server 4 1 ≡ ok s) × Sound s × (s.size_pool ≡ 1)
one_pool = init_server-Sound 4 1 (omega arith) (omega arith)

abbrev client : ℕ → Arrival
client n = record { conn_sd = n; client_addr = n; time_buf = codes "12:00" }

-- A client, a silent second, a client, and an interrupted poll, behind which accept waits for a third
-- one. The second makes the pools grow from 1 to 2.
abbrev turns : List Turn
turns =
    record {
      ready = poll_ready true;
      accepted = some (client 5);
      max_descriptor = 1;
      kernel = λ x. true;
    }
    ∷ record { ready = poll_silent; accepted = none; max_descriptor = 1; kernel = λ x. true }
    ∷ record {
      ready = poll_ready true;
      accepted = some (client 6);
      max_descriptor = 2;
      kernel = λ x. true;
    }
    ∷ record {
      ready = poll_failed false;
      accepted = some (client 7);
      max_descriptor = 3;
      kernel = λ x. true;
    }
    ∷ []

turns_arrive : arrivals false turns ≡ client 5 ∷ client 6 ∷ client 7 ∷ []
unfolding arrivals
turns_arrive = refl

turns_end :
    (some_fails false turns ≡ false)
    × (some_fails false (
          record {
            ready = poll_ready true;
            accepted = none;
            max_descriptor = 1;
            kernel = λ x. true;
          }
          ∷ turns)
        ≡ true)
unfolding some_fails
turns_end = (refl, refl)

turns-AllMade : All AllMade turns
turns-AllMade = (λ x. refl, (λ x. refl, (λ x. refl, (λ x. refl, tt))))

main_turns_lem_example : Runs 4 turns one_pool.0
main_turns_lem_example = main_turns_lem 4 (omega arith) turns one_pool.0 turns-AllMade one_pool.2

abbrev two_settings : List Setting
two_settings =
    (conf_number_thread, 64)
    ∷ (conf_max_conn, 66)
    ∷ (conf_size_pool, 1)
    ∷ (conf_port_serv, 5193)
    ∷ []

abbrev first_day : Environment
first_day = record {
  settings = some (file_of two_settings);
  sockets = record { socket = some 3; reused = true; bound = true; heard = true };
  list_opened = true;
  names = some (codes "cat.jpg" ∷ []);
  list_closed = true;
  today = codes "2017-11-26";
  log_opened = true;
  connected = true;
  cache_calls = record {
    created = true;
    opened = true;
    sought = true;
    wrote = true;
    mapped = true;
  };
  icon_size = some 1150;
  icon_rewound = true;
  kernel = λ x. true;
}

max_set : (with_all no_globals two_settings).max_conn_db ≡ pos 66
unfolding with_value
max_set = refl

threads_set : (with_all no_globals two_settings).num_thread_pool ≡ pos 64
unfolding with_value
threads_set = refl

pools_set : (with_all no_globals two_settings).size_pool ≡ 1
unfolding with_value
pools_set = refl

first_day-Willing : Willing first_day two_settings (codes "cat.jpg" ∷ []) 1150 3
first_day-Willing = record {
  settings = refl;
  sockets = refl;
  list_opened = refl;
  directory = refl;
  list_closed = refl;
  clean = omega arith;
  log_opened = refl;
  connected = refl;
  cache_calls = refl;
  icon = refl;
  icon_rewound = refl;
  kernel = λ x. refl;
}

start_server_lem_example :
    (started : Started) × (start_server first_day no_globals ≡ ok started)
    × (started.globals ≡ with_all no_globals two_settings)
    × (started.list ≡ list_from 1 (codes "cat.jpg" ∷ []))
    × (started.log_path ≡ codes "../log/" ++ codes "2017-11-26")
    × (started.icon_size ≡ 1150)
    × (started.listen_sock ≡ 3)
    × (set_up (λ x. true) 64 1 ≡ ok started.made)
    × Represents started.images []
    × Sound started.server
    × Runs 64 turns started.server
start_server_lem_example =
    start_server_lem first_day two_settings (codes "cat.jpg" ∷ []) 66 64 0 1150 3 turns
      (ground arith) max_set threads_set pools_set (omega arith) (omega arith) first_day-Willing
      turns-AllMade

-- One pool of two slots.
abbrev all_made :
    (early : List Item) × (late : List Item) × (set_up_pools (λ x. true) 2 1 ≡ ok early)
    × (set_up_rest (λ x. true) 1 ≡ ok late)
    × (set_up (λ x. true) 2 1 ≡ ok (early ++ late))
all_made = set_up-all (λ x. true) 2 1 (λ x. refl)

set_up-Ordered_example : Ordered 0 1 (all_made.0 ++ all_made.1)
set_up-Ordered_example = set_up-Ordered (λ x. true) 2 1 0 1 all_made.4 (omega arith) (omega arith)

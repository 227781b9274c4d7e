-- ===== src/Server/Startup/Ready.antt =====
-- The state that `init_server` leaves, and the main loop behind it.
use image_app.Common.{
  ℕ, suc, ◌-◌, ◌*◌, ◌^◌, ◌<◌, ◌≤◌, ◌≡◌, ◌≢◌, refl, true, some, List, [], ◌++◌, Bytes, Lacks, All,
  All-append, codes, ok, replicate, pos, arith,
}
use image_app.Strings.CacheName.Shape.{catenate_strings-cstr}
use image_app.Config.Settings.{Setting, IsSetting, file_of, with_all, parse_config_file_lem}
use image_app.Setup.{Item, open_listener, set_up_pools, set_up_rest, set_up}
use image_app.Setup.Order.{set_up-all}
use image_app.Files.{
  abort_with_error, get_cache_file, get_log, get_file_size, image_list, list_from,
}
use image_app.ImageCache.{FileCache, size_file_listcache}
use image_app.ImageCache.State.{Represents}
use image_app.Server.{Server, init_server}
use image_app.Server.Main.{Turn}
use image_app.Server.Main.Turns.{AllMade, Runs, main_turns_lem}
use image_app.Server.Pools.{Sound, init_server-Sound}
use image_app.Server.Startup.{
  no_globals, Environment, less_two, set_number_of_connections, allocate_pools, Started,
  start_server,
}

-- Every call is successful, and the directory of the images has the names `names`.
pub record Willing (env : Environment) (ss : List Setting) (names : List Bytes)
    (icon_size listen_sock : ℕ) : Type 0 where
  pub settings : env.settings ≡ some (file_of ss)
  pub sockets :
      env.sockets ≡ record { socket = some listen_sock; reused = true; bound = true; heard = true }
  pub list_opened : env.list_opened ≡ true
  pub directory : env.names ≡ some names
  pub list_closed : env.list_closed ≡ true
  pub clean : Lacks 0 env.today
  pub log_opened : env.log_opened ≡ true
  pub connected : env.connected ≡ true
  pub cache_calls :
      env.cache_calls
      ≡ record { created = true; opened = true; sought = true; wrote = true; mapped = true }
  pub icon : env.icon_size ≡ some icon_size
  pub icon_rewound : env.icon_rewound ≡ true
  pub kernel : (x : Item) → env.kernel x ≡ true

-- The cache of images at the start.
abbrev first_images : FileCache
first_images = record {
  map = replicate size_file_listcache 0;
  seek = 0;
  fds = replicate 128 0;
  sizes = replicate 128 0;
  end = 0;
}

first_images-Represents : Represents first_images []
first_images-Represents = record {
  spare = 16384;
  file = refl;
  whole = refl;
  paths = tt;
  seek_end = refl;
  fd_end = refl;
  fd_table = (replicate 128 0, refl, refl);
  size_table = (replicate 128 0, refl, refl);
}

get_log_lem : (today : Bytes) → Lacks 0 today → get_log today true ≡ ok (codes "../log/" ++ today)
unfolding get_log abort_with_error
get_log_lem today clean =
    catenate_strings-cstr (codes "../log/") today _
      (All-append (λ b. b ≢ 0) (codes "../log/") today (ground arith) clean)

queries_made : (m : ℕ) → (qs : List Bytes) × (set_number_of_connections true (pos m) ≡ ok qs)
unfolding set_number_of_connections less_two
queries_made m = (_, refl)

-- Each step, for calls that are successful.
listed : (names : List Bytes) → image_list true (some names) true ≡ ok (list_from 1 names)
unfolding image_list abort_with_error
listed names = refl

mapped :
    get_cache_file
      (record { created = true; opened = true; sought = true; wrote = true; mapped = true })
    ≡ ok (replicate size_file_listcache 0)
unfolding get_cache_file abort_with_error
mapped = refl

listening :
    (listen_sock : ℕ)
    → open_listener
        (record { socket = some listen_sock; reused = true; bound = true; heard = true })
      ≡ ok listen_sock
unfolding open_listener
listening listen_sock = refl

measured : (size : ℕ) → get_file_size (some size) true ≡ ok size
unfolding get_file_size
measured size = refl

pools_made : (n k : ℕ) → allocate_pools (pos n) (suc k) ≡ init_server n (suc k)
unfolding allocate_pools
pools_made n k = refl

abbrev after_start :
    Environment → List Setting → List Bytes → List Bytes → List Item → Server → ℕ → ℕ → Started
after_start env ss names queries made server icon_size listen_sock = record {
  globals = with_all no_globals ss;
  listen_sock = listen_sock;
  made = made;
  list = list_from 1 names;
  log_path = codes "../log/" ++ env.today;
  queries = queries;
  server = server;
  images = first_images;
  icon_size = icon_size;
}

-- All steps of the start.
start_server-steps :
    (env : Environment) (ss : List Setting) (names queries : List Bytes) (early late : List Item)
    (m n k icon_size listen_sock : ℕ) (server : Server)
    → All IsSetting ss
    → (with_all no_globals ss).max_conn_db ≡ pos m
    → (with_all no_globals ss).num_thread_pool ≡ pos n
    → (with_all no_globals ss).size_pool ≡ suc k
    → set_number_of_connections true (pos m) ≡ ok queries
    → init_server n (suc k) ≡ ok server
    → set_up_pools env.kernel n (suc k) ≡ ok early
    → set_up_rest env.kernel (suc k) ≡ ok late
    → Willing env ss names icon_size listen_sock
    → start_server env no_globals
      ≡ ok (after_start env ss names queries (early ++ late) server icon_size listen_sock)
unfolding start_server
start_server-steps env ss names queries early late m n k icon_size listen_sock server settings conns
      threads pools asked made first_made rest_made w =
    rw (
      w.settings,
      parse_config_file_lem ss no_globals settings,
      w.sockets,
      listening listen_sock,
      w.list_opened,
      w.directory,
      w.list_closed,
      listed names,
      w.log_opened,
      get_log_lem env.today w.clean,
      w.connected,
      conns,
      asked,
      threads,
      pools,
      pools_made n k,
      made,
      first_made,
      w.cache_calls,
      mapped,
      w.icon,
      w.icon_rewound,
      measured icon_size,
      rest_made,
    )

-- With a file of settings whose lines set numbers (none of them negative, and below 2^31) with 1 to
-- 32 pools, and so few threads in a pool that 32 times their number is below 2^31 - 1, and with system
-- calls that are all successful, the server starts: its variables are those of the settings, its
-- log is the one of the day, and its cache of images holds none. It listens, all connections,
-- mutexes, condition variables and threads are set up, and the list of images has been written. The
-- main loop, on turns that come to their end and in which the calls of a growth are all successful,
-- then either ends the process, which it does exactly if in some turn poll
-- has no memory or accept fails, or has handed each client that was accepted, in their order and
-- once, to a pool that is there, with one line in the log for each.
pub start_server_lem :
    (env : Environment) (ss : List Setting) (names : List Bytes) (m n k icon_size listen_sock : ℕ)
    (turns : List Turn)
    → All IsSetting ss
    → (with_all no_globals ss).max_conn_db ≡ pos m
    → (with_all no_globals ss).num_thread_pool ≡ pos n
    → (with_all no_globals ss).size_pool ≡ suc k
    → suc k ≤ 32
    → n * 32 < 2 ^ 31 - 1
    → Willing env ss names icon_size listen_sock
    → All AllMade turns
    → (started : Started) × (start_server env no_globals ≡ ok started)
      × (started.globals ≡ with_all no_globals ss)
      × (started.list ≡ list_from 1 names)
      × (started.log_path ≡ codes "../log/" ++ env.today)
      × (started.icon_size ≡ icon_size)
      × (started.listen_sock ≡ listen_sock)
      × (set_up env.kernel n (suc k) ≡ ok started.made)
      × Represents started.images []
      × Sound started.server
      × Runs n turns started.server
start_server_lem env ss names m n k icon_size listen_sock turns settings conns threads pools few
      small w grows =
    let (server, made, sound, same) = init_server-Sound n (suc k) (omega arith) few in
    let (queries, asked) = queries_made m in
    let (early, late, first_made, rest_made, all_made) = set_up-all env.kernel n (suc k) w.kernel in
    (
      after_start env ss names queries (early ++ late) server icon_size listen_sock,
      start_server-steps env ss names queries early late m n k icon_size listen_sock server settings
          conns threads pools asked made first_made rest_made w,
      refl,
      refl,
      refl,
      refl,
      refl,
      all_made,
      first_images-Represents,
      sound,
      main_turns_lem n small turns server grows sound,
    )

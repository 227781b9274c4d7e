-- ===== src/Server/Startup.antt =====
-- The whole of `init_server` of HttpServer.c, with `set_number_of_connections` of HandleDB.c: from the
-- file of settings to the state that the main loop and the threads begin with.
pub mod Ready
use image_app.Common.{
  ℕ, zero, suc, ◌+◌, ◌-◌, ◌≡◌, refl, Bool, true, false, Option, none, some, List, [], ◌∷◌, ◌++◌,
  Bytes, codes, Outcome, ok, exit, fault, ◌>>=◌, ltb, ◌==◌, ◌^◌, if◌then◌else◌, replicate, ℤ, pos,
  negsuc, decrement, pos_part, ◌&&◌,
}
use image_app.Config.{Globals, parse_config_file}
use image_app.Log.{percent_d}
use image_app.Setup.{Item, ListenCalls, open_listener, set_up_pools, set_up_rest}
use image_app.Files.{CacheCalls, get_cache_file, get_log, get_file_size, image_list}
use image_app.ImageCache.{FileCache}
use image_app.Server.{Server, init_server}

-- The global variables before the file of settings is read.
abbrev pub no_globals : Globals
no_globals = record {
  num_thread_pool = pos 0;
  max_conn_db = pos 0;
  serv_port = pos 0;
  backlog = pos 0;
  size_pool = 0;
  size_arrfd = pos 0;
}

-- What the system calls answer: the file of settings, the calls for the socket, the directory of the
-- images with the file of their list, the date and the log, the database, the file of the cache, the
-- icon, and the calls of Setup.antt.
pub record Environment : Type 0 where
  pub settings : Option Bytes
  pub sockets : ListenCalls
  pub list_opened : Bool
  pub names : Option (List Bytes)
  pub list_closed : Bool
  pub today : Bytes
  pub log_opened : Bool
  pub connected : Bool
  pub cache_calls : CacheCalls
  pub icon_size : Option ℕ
  pub icon_rewound : Bool
  pub kernel : Item → Bool

-- %d of an int.
unfoldable pub signed : ℤ → Bytes
signed (pos n) = percent_d n
signed (negsuc n) = b'-' ∷ percent_d (suc n)

-- `max_conn_db - 2`, which may overflow.
less_two : ℤ → Outcome ℤ
less_two (pos n) = ok (decrement (decrement (pos n)))
less_two (negsuc n) = if ltb n (2 ^ 31 - 2) then ok (negsuc (n + 2)) else fault

-- The two queries, behind `connect_DB`, which ends the process if there is no connection.
unfoldable pub set_number_of_connections : Bool → ℤ → Outcome (List Bytes)
unfolding signed less_two
set_number_of_connections false max_conn_db = exit
set_number_of_connections true max_conn_db = do
  users ← less_two max_conn_db
  ok (
      (codes "set global max_connections = " ++ (signed max_conn_db ++ codes ";"))
      ∷ (codes "UPDATE mysql.user SET max_user_connections = "
          ++ (signed users ++ codes " WHERE user='root' AND host='localhost';"))
      ∷ [])

-- The loop over `allocate_pool`. The block of a negative number of threads cannot be had.
allocate_pools : ℤ → ℕ → Outcome Server
allocate_pools num_thread_pool zero = init_server 0 0
allocate_pools (pos n) (suc k) = init_server n (suc k)
allocate_pools (negsuc n) (suc k) = exit

-- What `init_server` leaves.
pub record Started : Type 0 where
  pub globals : Globals
  pub listen_sock : ℕ
  pub made : List Item
  pub list : Bytes
  pub log_path : Bytes
  pub queries : List Bytes
  pub server : Server
  pub images : FileCache
  pub icon_size : ℕ

pub start_server : Environment → Globals → Outcome Started
start_server env globals = do
  g ← parse_config_file env.settings globals
  listen_sock ← open_listener env.sockets
  list ← image_list env.list_opened env.names env.list_closed
  first_log ← get_log env.today env.log_opened
  queries ← set_number_of_connections env.connected g.max_conn_db
  server ← allocate_pools g.num_thread_pool g.size_pool
  early ← set_up_pools env.kernel (pos_part g.num_thread_pool) g.size_pool
  log_path ← get_log env.today env.log_opened
  map ← get_cache_file env.cache_calls
  icon_size ← get_file_size env.icon_size env.icon_rewound
  late ← set_up_rest env.kernel g.size_pool
  ok (record {
    globals = g;
    listen_sock = listen_sock;
    made = early ++ late;
    list = list;
    log_path = log_path;
    queries = queries;
    server = server;
    images = record {
      map = map;
      seek = 0;
      fds = replicate 128 0;
      sizes = replicate 128 0;
      end = 0;
    };
    icon_size = icon_size;
  })

-- ===== src/Lib.antt =====
-- The image server: a C program that answers HTTP requests for images, resized for the device
-- that asks. A main loop accepts connections and hands them to pools of threads; a thread
-- receives a request, parses it, asks a database for the display of the device, finds or makes
-- the resized image, and sends it. This library models the parts of it that decide something, and
-- proves what they do, where they are right and where they are not.
--
-- What C leaves undefined is a value here: Outcome (Common/Memory.antt) is a result, the end of
-- the process by exit(EXIT_FAILURE), or fault, for an access outside a block, a null pointer, or
-- a byte that was never written. A block of memory is the list of its bytes; a C string is the
-- bytes before the terminator (CString.antt, for the functions of <string.h>). Numbers are
-- natural ones, or the signed ones of Common/Int.antt; where an unsigned number wraps, the
-- remainder is written out, as in the increment and the decrement of max_descriptor, an nfds_t of
-- 64 bits.
--
-- The parts, by file of the repository:
--
-- Request.c, Request.h: Request/Status.antt has the statuses. Request/Lines.antt has
-- get_command_line, parse_command, get_accept_line and get_user_agent, with their theorems in
-- Request/Lines/Cuts.antt. Request/Name.antt has parse_name (theorems in Name/Lines.antt over
-- lemmas in Name/Paths.antt), Request/Accept.antt has get_list_accept_image (Accept/Sizes.antt),
-- and Request/Parse.antt has parse_request (Parse/Results.antt for what it can return,
-- Parse/Whole.antt for a whole message). Request/Receive.antt has receive_request
-- (Receive/Chunks.antt), on what the calls of recv find. destroy_request is in Client.antt.
-- Transfer.antt has send_file_fd and send_image against a script of the kernel's answers, with
-- Transfer/Whole.antt for complete and Transfer/Short.antt for short transfers.
-- Transfer/Block.antt has write_block of Utils.c, and send_bad_request and
-- send_service_unavailable as one function of the page (Block/Pages.antt); Transfer/Html.antt has
-- the two pages of HtmlResponse.h. Transfer/Ends.antt has the rules for what holds when such a
-- run returns.
--
-- Strings.c: Strings/Decimal.antt has convert_int_to_string and convert_long_to_string
-- (Decimal/Fill.antt), Strings/Message.antt has build_message (Message/Layout.antt for an image,
-- Message/ErrorPage.antt for a page), and Strings/CacheName.antt has convert_float_to_string,
-- catenate_strings and build_image_name_cache (CacheName/Shape.antt, CacheName/Quality.antt).
--
-- ThreadPool.c, ThreadPool.h: ThreadPool.antt has allocate_pool, get_E, dispatch_job and
-- close_client_with_status on one pool, as steps; get_E is given the states of the pool that it
-- finds each time it is woken. ThreadPool/Ring.antt is about the search of the ring,
-- ThreadPool/Slots.antt about a dispatch and a release, ThreadPool/Counter.antt about all
-- histories of a pool. ThreadPool/Timer.antt has handle_timer and wait_for_connection
-- (Timer/Expiry.antt).
--
-- HttpServer.c: Server.antt has the table of pools, as init_server, the main loop and handle_pool
-- of ThreadPool.c keep it (Server/Pools.antt). The numbers that max_descriptor has are given, and
-- what the calls of handle_pool answer. Server/Main.antt has the main loop around this, with
-- poll, accept and the log (Main/Turns.antt, on the clients as Main/Clients.antt describes them).
-- Server/Signal.antt has sig_hndl. Server/Startup.antt has the whole of init_server, with
-- set_number_of_connections of HandleDB.c, from the file of settings to the first state
-- (Startup/Ready.antt). Setup.antt has what it sets up with calls that may fail, with
-- allocate_pool and the functions of Utils.c and HandleDB.c for these calls, and Setup/Order.antt
-- the order; it has the same calls of a growth as well. Client.antt and Client/Round.antt have
-- handle_client: a thread is its variables with the global state, and a round takes what recv,
-- send, poll, the database and the file system answer. Of a pointer it is kept whether it is
-- null, live or dangling. Client/Ending.antt is about the release of a client, Round/Steps.antt
-- and Round/Bookkeeping.antt (over the predicates of Round/Accounts.antt) about what a round
-- leaves of the slot and the counters, Round/Sessions.antt about the number of rounds,
-- Round/Faults.antt about a client that sends nothing, and Round/Served.antt about one that gets
-- its image; Round/Whole.antt puts this together with the parser, the database and the caches,
-- whose names DeviceCache/Names.antt has. System.antt puts a pool, its dispatcher and its threads
-- together as a relation on states (System/Balance.antt, System/Rounds.antt).
--
-- Handoff.antt has the handing over of a client from the main loop to dispatch_job, and
-- Wakeup.antt that from dispatch_job to the thread of a slot with the release of the slot, both
-- with every access to a shared field, to a mutex and to a condition variable as a step of its
-- own. Handoff/Exclusion.antt and Wakeup/Exclusion.antt are about the mutexes, Handoff/Rest.antt
-- about the moves between two clients, Handoff/Paced.antt and Wakeup/Apart.antt about what is
-- kept where the threads do not overlap, and Handoff/Races.antt and Wakeup/Races.antt about what
-- is not where they do. In the same way Growth.antt has the main loop and handle_pool while the
-- number of pools grows (Growth/Doubling.antt, Growth/Deadlock.antt), and Search.antt has get_E
-- while slots are given back (Search/Found.antt, Search/Deadlock.antt). In all four a wait may
-- come back without a signal, as POSIX allows, except in the histories that the theorems on paced
-- clients and on slots apart are about. The writes of timer and request are left out.
--
-- HandleImage.c, and find_file_in_cache of Utils.c: ImageCache.antt has the file of paths with
-- the tables of descriptors and sizes, its search, and the two parts of get_image_to_send that
-- use them. ImageCache/Lookup.antt, ImageCache/State.antt and ImageCache/Contents.antt relate
-- this state to a list of entries. Image.antt has get_image_to_send (Image/Served.antt);
-- destroy_image is in Client.antt.
--
-- Log.c: Log.antt has write_event_log (Log/Line.antt). An address is one number, its four bytes
-- and the two of the port.
--
-- Utils.c: Files.antt has abort_with_error, get_cache_file, get_log, image_list
-- (Files/Listing.antt), get_file_size and read_block (Files/Blocks.antt).
--
-- HandleDB.c: DeviceCache.antt has retrieve_dim_from_DB with its cache of 256 queries.
-- DeviceCache/Query.antt tells when one query contains another, DeviceCache/Entries.antt which
-- entry is found, DeviceCache/Transparency.antt that the cache does not change the answers. The
-- database is a parameter, a function from a query to a row.
--
-- Config.c: Config.antt has check_parameter and parse_config_file with fgets (Config/Lines.antt,
-- Config/Settings.antt). parse_int of Utils.c, with strtol, is in ParseInt.antt
-- (ParseInt/RoundTrip.antt).
--
-- Tests.antt and its children apply the theorems to concrete inputs.
--
-- Parameters: the arithmetic of float (Floats in Strings/CacheName.antt, Quality in
-- Request/Accept.antt), ImageMagick (Magick in Image.antt), the database, what the kernel answers
-- to recv, send and sendfile, what poll reports, what opening, reading and measuring a file
-- gives, and the time. Where a function comes to its end without a return and its caller compares
-- the value (get_image_to_send, send_image), that value is an input; where a caller computes with
-- it (write_block), it is a fault.
--
-- Fuel: count_ciphers and fill_ciphers take the number itself, which falls in each round;
-- scan_map takes the size of the file, of which each round leaves at least a byte behind;
-- read_lines takes the length of the file, since each line has a byte. The lists of polls, of
-- answers and of states of a pool are the input of the loops that wait, which may stay unfinished
-- at their end.
--
-- Not modelled: open_file and open_fp, which hand on what one call answers, and the failure of a
-- call on a mutex or a condition variable once it is set up; set_thread_affinity and
-- create_mime_list, which nothing calls. The quality of a written image and the pixels are
-- ImageMagick's. Elsewhere what several threads do at the same time to one pool or to one cache
-- is modelled one step after the other.
pub mod Common
pub mod CString
pub mod Strings
pub mod Request
pub mod ThreadPool
pub mod ImageCache
pub mod ParseInt
pub mod DeviceCache
pub mod Transfer
pub mod Config
pub mod Tests
pub mod Server
pub mod Image
pub mod Log
pub mod Files
pub mod Handoff
pub mod Wakeup
pub mod Growth
pub mod Search
pub mod Setup
pub mod Client
pub mod System

-- ===== src/Client.antt =====
-- The state of a thread that runs `handle_client` of HttpServer.c, and how it gives up a client. Its
-- rounds are in Client/Round.antt.
pub mod Round
pub mod Ending
use image_app.Common.{
  ℕ, zero, suc, ◌+◌, ◌-◌, ◌≡◌, refl, Bool, true, false, not, ◌&&◌, Option, none, some, List, [],
  ◌∷◌, ◌++◌, Bytes, Outcome, ok, exit, fault, ◌>>=◌, load, if◌then◌else◌,
}
use image_app.Request.Status.{RequestStatus, message_not_correct}
use image_app.Request.Receive.{Arrival}
use image_app.ThreadPool.{ThreadData, Pool, close_client}
use image_app.DeviceCache.{DeviceCache, Database}
use image_app.ImageCache.{FileCache}
use image_app.Image.{Disk}
use image_app.Transfer.{Answer, Image}
use image_app.Log.{LoggedImage, write_event_log, log_connection_closed}

-- A pointer that was never set, one to a block that is there, and one to a block that was freed.
pub data Pointer (A : Type 0) : Type 0 where
  null : Pointer A
  live : A → Pointer A
  dangling : Pointer A

-- The variables of the thread, and the global state that it reads and writes. Of the block behind
-- `request` it is kept whether its `image_name` is a string literal.
pub record Thread : Type 0 where
  pub idx : ℕ
  pub messages : List Bytes
  pub request : Pointer Bool
  pub image_info : Pointer (Unit {0})
  pub pool : Pool
  pub max_descriptor : ℕ
  pub devices : DeviceCache
  pub images : FileCache
  pub log : Bytes

-- What the thread finds outside the program in one round: what recv, send, poll, the database and
-- the file system answer, the bytes behind the descriptor of the image, the icon, what is in `msg`
-- before a message is built, the time of each event, and the int that a call gives its caller where
-- the function came to its end without a return.
pub record Inputs : Type 0 where
  pub arrivals : List Arrival
  pub answers : List Answer
  pub polls : List Bool
  pub database : Database
  pub disk : Disk
  pub content : Bytes
  pub icon : Image
  pub stack : Bytes
  pub clock : ℕ → Bytes
  pub unreturned : ℕ

-- `free(request->image_name)` of a literal is undefined, and so is every access through a pointer
-- that is null or dangling.
unfoldable pub destroy_request : Pointer Bool → RequestStatus → Outcome (Pointer Bool)
destroy_request (live literal) message_not_correct = ok dangling
destroy_request (live true) status = fault
destroy_request (live false) status = ok dangling
destroy_request null status = fault
destroy_request dangling status = fault

unfoldable pub destroy_image : Pointer (Unit {0}) → Outcome (Pointer (Unit {0}))
destroy_image (live _) = ok dangling
destroy_image null = fault
destroy_image dangling = fault

pub log_event : Inputs → ℕ → ℕ → Option LoggedImage → Thread → Outcome Thread
log_event input event client_addr image t = do
  text ← write_event_log (input.clock event) event client_addr image
  ok (record t { log = t.log ++ text })

-- `close_client_with_status` with CONNECTION_CLOSED, for the slot `nE`.
pub close_slot : ℕ → Inputs → Thread → Outcome Thread
close_slot nE input t = do
  td ← load t.pool.arr nE
  closed ← close_client t.pool t.max_descriptor nE true
  log_event input log_connection_closed td.client_addr none
      (record t { pool = closed.0; max_descriptor = closed.1 })

-- What each end of a connection does: the slot is given back and both blocks are freed. The
-- pointers keep their values.
pub give_up : ℕ → Inputs → RequestStatus → Thread → Outcome Thread
give_up nE input status t = do
  t ← close_slot nE input t
  request ← destroy_request t.request status
  image_info ← destroy_image t.image_info
  ok (record t { request = request; image_info = image_info })

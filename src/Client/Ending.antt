-- ===== src/Client/Ending.antt =====
-- What the end of a round does to the slot of the thread: `handle_timer`, and the client given up.
use image_app.Common.{
  ℕ, ◌≡◌, refl, Bool, true, false, Option, none, some, List, [], ◌∷◌, ok, first_of, load-some,
  get_elem?, set, ℤ, pos, decrement, decrement_u64, is_nat, arith,
}
use image_app.Request.Status.{RequestStatus, message_not_correct}
use image_app.ThreadPool.{ThreadData, freed}
use image_app.ThreadPool.Slots.{close-there}
use image_app.ThreadPool.Timer.{handle_timer}
use image_app.Log.{LoggedImage, write_event_log, log_connection_closed}
use image_app.Client.{
  Pointer, null, live, dangling, Thread, Inputs, destroy_request, destroy_image, log_event,
  close_slot, give_up,
}

-- The slot once the timer has been told that the client sent again.
pub record Renewed (td td' : ThreadData) : Type 0 where
  pub same_user : td'.used ≡ td.used
  pub same_socket : td'.conn_sd ≡ td.conn_sd
  pub flagged : td'.msg_received ≡ pos 1
  pub one_less : td'.request ≡ decrement td.request

-- Unless it returns 0, `handle_timer` has seen the client send and counted a request.
pub handle_timer-Renewed :
    (polls : List Bool) (td : ThreadData) (v : ℤ) (td' : ThreadData)
    → handle_timer polls td ≡ some (v, td')
    → is_nat v 0 ≡ false
    → Renewed td td'
unfolding handle_timer
handle_timer-Renewed [] td v td' e h = cc
handle_timer-Renewed (true ∷ polls) td v td' e h = ground arith
handle_timer-Renewed (false ∷ polls) td v td' e h =
    ground (arith, handle_timer-Renewed polls (record td { timer = decrement td.timer }) v td')

-- The thread `s` has given up the client of its slot, which held `td`.
pub record GivenUp (nE : ℕ) (td : ThreadData) (s t : Thread) : Type 0 where
  pub slot_freed :
      t.pool
      ≡ record s.pool { arr = set s.pool.arr nE (freed td); counter = decrement s.pool.counter }
  pub descriptors : t.max_descriptor ≡ decrement_u64 s.max_descriptor
  pub request_freed : t.request ≡ dangling
  pub image_freed : t.image_info ≡ dangling
  pub had_request : (literal : Bool) × (s.request ≡ live literal)
  pub had_image : s.image_info ≡ live tt

-- Each block is freed only through a pointer to a block that is there.
pub destroy_request_lem :
    (p : Pointer Bool) (status : RequestStatus) {q : Pointer Bool}
    → destroy_request p status ≡ ok q
    → (q ≡ dangling) × ((literal : Bool) × (p ≡ live literal))
unfolding destroy_request
destroy_request_lem (live literal) message_not_correct e = (ground arith, (literal, refl))
destroy_request_lem (live true) status e = absurd (cc)
destroy_request_lem (live false) status e = (ground arith, (false, refl))
destroy_request_lem null status e = absurd (cc)
destroy_request_lem dangling status e = absurd (cc)

pub destroy_image_lem :
    (p : Pointer (Unit {0})) {q : Pointer (Unit {0})}
    → destroy_image p ≡ ok q
    → (q ≡ dangling) × (p ≡ live tt)
unfolding destroy_image
destroy_image_lem (live u) e = (ground arith, refl)
destroy_image_lem null e = absurd (cc)
destroy_image_lem dangling e = absurd (cc)

pub log_event_lem :
    (input : Inputs) (event a : ℕ) (image : Option LoggedImage) (t s : Thread)
    → log_event input event a image t ≡ ok s
    → s ≡ record t { log = s.log }
unfolding log_event
log_event_lem input event a image t s e =
    let (text, written, same) = first_of (write_event_log (input.clock event) event a image) _ e in
    ground arith

-- What `close_client_with_status` leaves.
abbrev released : ℕ → ThreadData → Thread → Thread
released nE td s = record s {
  pool = record s.pool { arr = set s.pool.arr nE (freed td); counter = decrement s.pool.counter };
  max_descriptor = decrement_u64 s.max_descriptor;
}

close_slot_lem :
    (nE : ℕ) (input : Inputs) (td : ThreadData) (s t : Thread)
    → get_elem? s.pool.arr nE ≡ some td
    → close_slot nE input s ≡ ok t
    → t ≡ record (released nE td s) { log = t.log }
unfolding close_slot
close_slot_lem nE input td s t there e =
    log_event_lem input log_connection_closed td.client_addr none (released nE td s) t
      (rw (load-some s.pool.arr nE there, close-there s.pool s.max_descriptor nE td there) at e)

pub give_up-GivenUp :
    (nE : ℕ) (input : Inputs) (status : RequestStatus) (td : ThreadData) (s t : Thread)
    → get_elem? s.pool.arr nE ≡ some td
    → give_up nE input status s ≡ ok t
    → GivenUp nE td s t
unfolding give_up
give_up-GivenUp nE input status td s t there e =
    let (t1, closed, e1) = first_of (close_slot nE input s) _ e in
    let (request, freed_request, e2) = first_of (destroy_request t1.request status) _ e1 in
    let (image_info, freed_image, e3) = first_of (destroy_image t1.image_info) _ e2 in
    let same = close_slot_lem nE input td s t1 there closed in
    let (gone_request, had_request) = destroy_request_lem t1.request status freed_request in
    let (gone_image, had_image) = destroy_image_lem t1.image_info freed_image in
    record {
      slot_freed = ground arith;
      descriptors = ground arith;
      request_freed = ground arith;
      image_freed = ground arith;
      had_request = (had_request.0, ground arith);
      had_image = ground arith;
    }

-- ===== src/Client/Round/Faults.antt =====
-- A client that closes its connection without a message: what becomes of the thread.
use image_app.Common.{
  ℕ, ◌+◌, ◌%◌, ◌≡◌, ◌⊎◌, inl, inr, refl, Bool, true, false, none, some, [], ◌++◌, Bytes, ok, fault,
  ◌>>=◌, load-some, store-in, set, get_elem?, pos, is_nat, decrement, decrement_u64,
}
use image_app.Request.Status.{empty_message, connection_closed}
use image_app.Request.Accept.{Quality}
use image_app.Request.Receive.{receive_request}
use image_app.ThreadPool.{ThreadData, freed}
use image_app.ThreadPool.Slots.{close-there, get_elem?-lt}
use image_app.ThreadPool.Timer.{wait_for_connection}
use image_app.Strings.CacheName.{Floats}
use image_app.Image.{Magick}
use image_app.Transfer.{done, broken, run}
use image_app.Log.{write_event_log, log_connection_closed}
use image_app.Client.{
  Pointer, null, live, dangling, Thread, Inputs, destroy_request, destroy_image, log_event,
  close_slot, give_up,
}
use image_app.Client.Ending.{give_up-GivenUp}
use image_app.Client.Round.{handle_client, received, switch}

-- Both blocks are there, and the name of the image is not a literal.
abbrev pub CanFree : Thread → Type 0
CanFree t = (t.request ≡ live false) × (t.image_info ≡ live tt)

-- The event that closes a connection is always written.
closed-logged :
    (input : Inputs) (a : ℕ) (t : Thread)
    → (text : Bytes) × (log_event input log_connection_closed a none t
        ≡ ok (record t { log = t.log ++ text }))
unfolding log_event write_event_log
closed-logged input a t = (_, refl)

freeing :
    (t : Thread) (request : Pointer Bool) (image_info : Pointer (Unit {0}))
    → (((request ≡ live false) × (image_info ≡ live tt))
        × (r : Thread) × ((destroy_request request connection_closed >>= λ r.
              destroy_image image_info >>= λ i. ok (record t { request = r; image_info = i }))
            ≡ ok r))
      ⊎ (((request ≡ live false) × (image_info ≡ live tt) → ⊥)
          × ((destroy_request request connection_closed >>= λ r.
                destroy_image image_info >>= λ i. ok (record t { request = r; image_info = i }))
              ≡ fault))
unfolding destroy_request destroy_image
freeing t (live false) (live u) = inl ((refl, refl), _, refl)
freeing t (live false) null = inr (λ h. cc (h.1), refl)
freeing t (live false) dangling = inr (λ h. cc (h.1), refl)
freeing t (live true) i = inr (λ h. cc (h.0), refl)
freeing t null i = inr (λ h. cc (h.0), refl)
freeing t dangling i = inr (λ h. cc (h.0), refl)

give_up_cases :
    (nE : ℕ) (input : Inputs) (td : ThreadData) (t : Thread)
    → get_elem? t.pool.arr nE ≡ some td
    → (CanFree t × (r : Thread) × (give_up nE input connection_closed t ≡ ok r))
      ⊎ ((CanFree t → ⊥) × (give_up nE input connection_closed t ≡ fault))
unfolding give_up close_slot
give_up_cases nE input td t there =
    let closed : Thread = record t {
      pool = record t.pool {
        arr = set t.pool.arr nE (freed td);
        counter = decrement t.pool.counter;
      };
      max_descriptor = decrement_u64 t.max_descriptor;
    } in
    let (text, logged) = closed-logged input td.client_addr closed in
    rw (load-some t.pool.arr nE there, close-there t.pool t.max_descriptor nE td there, logged)
      (freeing (record closed { log = t.log ++ text }) t.request t.image_info)

module _ (Q : Quality) (F : Floats) (as_float : Q.Float → F.Float) (M : Magick)
    (percent : Q.Float → ℕ) (nE : ℕ) where
  -- A client that has requests left and whose message is reported as empty (it has closed its
  -- connection, or resets it): if the thread has a live image and a live request whose image name is
  -- not a literal, the round ends, nothing is sent, and the client is given up: its slot is free, the
  -- other slots are as they were, the counter of the pool has fallen by one and `max_descriptor` by
  -- one as an unsigned number, and the pointers to both blocks dangle. In every other case,
  -- the first client of a thread, a client behind one that was given up, and a client whose
  -- last request was for the icon or not correct among them, the round is undefined behaviour.
  pub handle_client_empty :
      (input : Inputs) (t : Thread) (td : ThreadData) (buffer message : Bytes)
      → get_elem? t.pool.arr nE ≡ some td
      → td.msg_received ≡ pos 1
      → is_nat td.request 0 ≡ false
      → get_elem? t.messages ((t.idx + 1) % 5) ≡ some buffer
      → receive_request input.arrivals buffer ≡ ok (some (empty_message, message))
      → (CanFree t
          × ((t' : Thread) × (handle_client Q F as_float M percent nE input t
                ≡ done t' [] input.answers)
              × (t'.pool ≡ record t.pool {
                arr = set t.pool.arr nE (freed td);
                counter = decrement t.pool.counter;
              })
              × (t'.max_descriptor ≡ decrement_u64 t.max_descriptor)
              × (t'.request ≡ dangling)
              × (t'.image_info ≡ dangling)))
        ⊎ ((CanFree t → ⊥) × (handle_client Q F as_float M percent nE input t ≡ broken))
  unfolding handle_client received switch wait_for_connection
  handle_client_empty input t td buffer message there flagged requests slot empty =
      rw (ends) (elim (give_up_cases nE input td t1 there) [
        | inr (stuck, undefined) ↦ inr (stuck, rw undefined)
        | inl (free, r, given) ↦
            let g = give_up-GivenUp nE input connection_closed td t1 r there given in
            inl (free, (r, rw given, g.slot_freed, g.descriptors, g.request_freed, g.image_freed))
      ])
    where
      idx : ℕ
      idx = (t.idx + 1) % 5

      t1 : Thread
      t1 = record t { idx = idx; messages = set t.messages idx message }

      ends :
          handle_client Q F as_float M percent nE input t
          ≡ run (give_up nE input connection_closed t1) (λ left. done left [] input.answers)
      ends = rw (
        load-some t.pool.arr nE there,
        flagged,
        load-some t.messages idx slot,
        empty,
        store-in t.messages idx message (get_elem?-lt t.messages idx slot),
        requests,
      )

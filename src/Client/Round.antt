-- ===== src/Client/Round.antt =====
-- A round of the loop in `handle_client`: a message is received, parsed and answered, and the thread
-- waits for the next one or gives the client up.
pub mod Accounts
pub mod Steps
pub mod Bookkeeping
pub mod Sessions
pub mod Faults
pub mod Served
pub mod Whole
use image_app.Common.{
  ℕ, zero, suc, ◌+◌, ◌-◌, ◌%◌, ◌≡◌, refl, Bool, true, false, Option, none, some, List, [], ◌∷◌,
  ◌++◌, Bytes, codes, Outcome, ok, exit, fault, ◌>>=◌, load, store, ◌==◌, if◌then◌else◌, replicate,
  ℤ, pos, is_nat, decrement_u64,
}
use image_app.CString.{cstr}
use image_app.Request.Status.{
  RequestStatus, message_not_correct, empty_message, icon_requested, request_received, head_cmd,
  get_cmd, connection_closed,
}
use image_app.Request.Accept.{Quality}
use image_app.Request.Parse.{Request, parse_request}
use image_app.Request.Receive.{receive_request, http_message_size}
use image_app.ThreadPool.{ThreadData}
use image_app.ThreadPool.Timer.{handle_timer, wait_for_connection}
use image_app.Strings.CacheName.{Floats}
use image_app.DeviceCache.{retrieve_dim_from_db}
use image_app.ImageCache.{CacheFile, find_file_in_cache}
use image_app.Image.{Magick, ImageInfo, Found, get_image_to_send, image_dir, image_not_present_code}
use image_app.Transfer.{
  Answer, Run, done, waiting, broken, emit, then_run, run, send_image, connection_closed_code,
}
use image_app.Transfer.Block.{send_page}
use image_app.Transfer.Html.{bad_request, service_unavailable}
use image_app.Log.{LoggedImage, log_image_requested, log_image_not_present}
use image_app.Client.{Pointer, live, Thread, Inputs, give_up, log_event}

abbrev image_cache : Bytes
image_cache = codes "../cache/"

-- An access through a pointer that may be null.
pub present {ℓ} : {A : Type ℓ} → Option A → Outcome A
present none = fault
present (some a) = ok a

pub value_of : Inputs → Option ℕ → ℕ
value_of input none = input.unreturned
value_of input (some v) = v

pub is_literal : RequestStatus → Bool
is_literal request_received = false
is_literal status = true

-- What follows the wait of the keep-alive timer: the client is given up when it has run down.
pub settled :
    ℕ → Inputs → RequestStatus → Thread → List Answer → Option (ℤ × ThreadData) → Run Thread
settled nE input status t rest none = waiting []
settled nE input status t rest (some (timer, td')) = run (store t.pool.arr nE td') (λ arr.
    let kept = record t { pool = record t.pool { arr = arr } } in
    if is_nat timer 0
    then run (give_up nE input status kept) (λ left. done left [] rest)
    else done kept [] rest)

-- The end of a round.
pub await_next : ℕ → Inputs → RequestStatus → Thread → List Answer → Run Thread
unfolding settled
await_next nE input status t rest =
    run (load t.pool.arr nE) (λ td. settled nE input status t rest (handle_timer input.polls td))

-- The message has been answered: its buffer is cleared.
pub processed : ℕ → Inputs → Thread → List Answer → Run Thread
processed nE input t rest = run (load t.pool.arr nE) (λ td.
    run (store t.pool.arr nE (record td { msg_received = pos 0 })) (λ arr.
      run (store t.messages t.idx (replicate http_message_size 0)) (λ messages.
        await_next nE input request_received
          (record t { pool = record t.pool { arr = arr }; messages = messages }) rest)))

-- The client has disconnected before it had the image.
pub gone : ℕ → Inputs → Thread → List Answer → Run Thread
gone nE input t rest = run (give_up nE input connection_closed t) (λ left.
    run (store left.messages left.idx (replicate http_message_size 0))
      (λ messages. done (record left { messages = messages }) [] rest))

-- IMAGE_NOT_PRESENT: `max_descriptor` falls, and the slot stays in use.
pub not_present : ℕ → Inputs → ℕ → LoggedImage → Thread → Run Thread
not_present nE input client_addr image t =
    then_run (send_page bad_request input.stack input.answers) (λ _ rest.
      run
        (log_event input log_image_not_present client_addr (some image)
          (record t { max_descriptor = decrement_u64 t.max_descriptor }))
        (λ t. processed nE input t rest))

module _ (Q : Quality) (F : Floats) (as_float : Q.Float → F.Float) (M : Magick)
    (percent : Q.Float → ℕ) where
  -- The members of `image_info` that are set, once `retrieve_dim_from_DB` has set the cache name.
  unfoldable pub image_of : Request Q → Outcome (ImageInfo Q M percent)
  unfolding present
  image_of r = do
    block ← present r.cache_name
    cache_name ← cstr block
    image_name ← present r.image_name
    image_list ← present r.image_list
    ext ← present r.ext
    ok (record {
      width = r.width;
      height = r.height;
      colors = r.colors;
      image_name = image_name;
      ext = ext;
      image_list = image_list;
      cache_path = image_cache ++ (cache_name ++ ext);
      image_path = image_dir ++ (image_name ++ ext);
    })

  abbrev logged : ImageInfo Q M percent → LoggedImage
  logged image = record { cache_path = some image.cache_path; image_name = some image.image_name }

  -- What is done with the image that `get_image_to_send` has found or made.
  respond :
      ℕ
      → Inputs
      → ℕ
      → RequestStatus
      → ImageInfo Q M percent
      → Found Q M percent
      → Thread
      → Run Thread
  unfolding value_of
  respond nE input client_addr cmd image found t =
      if value_of input found.returned == image_not_present_code
      then not_present nE input client_addr (logged image) t
      else then_run
          (send_image input.stack
            (record { file_size = found.file_size; ext = image.ext; file = input.content }) cmd
            input.answers)
          (λ v rest.
            if value_of input v == connection_closed_code
            then gone nE input t rest
            else processed nE input t rest)

  -- A request for an image.
  serve : ℕ → Inputs → ℕ → Request Q → Thread → Run Thread
  unfolding respond
  serve nE input client_addr request t =
      run (retrieve_dim_from_db Q F as_float input.database t.devices request) (λ known.
        run (image_of known.1) (λ image.
          run (find_file_in_cache image.cache_path t.images.map) (λ cached.
            run
              (log_event input log_image_requested client_addr (some (logged image))
                (record t { devices = known.0; image_info = live tt }))
              (λ t. run (get_image_to_send Q M percent input.disk t.images image cached) (λ found.
                respond nE input client_addr known.1.cmd image found
                  (record t { images = found.cache }))))))

  -- The switch on what `parse_request` returned. HEAD_CMD would read a null image.
  answered : ℕ → Inputs → ℕ → Request Q → Thread → RequestStatus → Run Thread
  answered nE input a request t request_received = serve nE input a request t
  answered nE input a request t head_cmd = broken
  answered nE input a request t icon_requested =
      then_run (send_image input.stack input.icon get_cmd input.answers)
        (λ _ rest. processed nE input t rest)
  answered nE input a request t message_not_correct =
      then_run (send_page bad_request input.stack input.answers)
        (λ _ rest. processed nE input t rest)
  answered nE input a request t _ = processed nE input t input.answers

  -- The switch on `status_r`.
  switch : ℕ → Inputs → ℕ → Bytes → Thread → RequestStatus → List Answer → Run Thread
  switch nE input a message t request_received rest = run (parse_request Q message) (λ parsed.
      answered nE input a parsed.1 (record t { request = live (is_literal parsed.0) }) parsed.0)
  switch nE input a message t empty_message rest =
      run (give_up nE input connection_closed t) (λ left. done left [] rest)
  switch nE input a message t status rest = await_next nE input status t rest

  -- What follows `receive_request`. A client without requests left is told so, and its connection
  -- is closed.
  received : ℕ → Inputs → ThreadData → Thread → Option (RequestStatus × Bytes) → Run Thread
  unfolding switch
  received nE input td t none = waiting []
  received nE input td t (some (status_r, message)) =
      run (store t.messages t.idx message) (λ messages.
        let t' = record t { messages = messages } in
        if is_nat td.request 0
        then then_run (send_page service_unavailable input.stack input.answers)
            (λ _ rest. switch nE input td.client_addr message t' empty_message rest)
        else switch nE input td.client_addr message t' status_r input.answers)

  -- One round.
  pub handle_client : ℕ → Inputs → Thread → Run Thread
  unfolding received
  handle_client nE input t = run (load t.pool.arr nE) (λ td.
      let idx = (t.idx + 1) % 5 in
      let round = run (load t.messages idx) (λ buffer.
        run (receive_request input.arrivals buffer)
          (received nE input td (record t { idx = idx }))) in
      if wait_for_connection td then waiting [] else round)

  -- `while (1)`, on what the thread finds in each round. No answer is left over for the next round.
  unfoldable pub serve_clients : ℕ → List Inputs → Thread → Run Thread
  serve_clients nE [] t = done t [] []
  serve_clients nE (input ∷ inputs) t =
      then_run (handle_client nE input t) (λ t' _. serve_clients nE inputs t')

-- ===== src/Client/Round/Bookkeeping.antt =====
-- Every completed round of `handle_client` either keeps the slot or gives it back.
use image_app.Common.{
  Bool-cases, ℕ, ◌+◌, ◌%◌, ◌≡◌, ◌⊎◌, inl, inr, refl, sym, subst, false, Option, none, some, List,
  [], Bytes, load, load-some, store, get_elem?, is_nat, ◌==◌,
}
use image_app.Request.Status.{
  RequestStatus, message_not_correct, empty_message, icon_requested, request_received, head_cmd,
  get_cmd, connection_closed,
}
use image_app.Request.Accept.{Quality}
use image_app.Request.Parse.{Request, parse_request}
use image_app.Request.Receive.{receive_request}
use image_app.ThreadPool.{ThreadData}
use image_app.ThreadPool.Timer.{wait_for_connection}
use image_app.Strings.CacheName.{Floats}
use image_app.DeviceCache.{retrieve_dim_from_db}
use image_app.ImageCache.{find_file_in_cache}
use image_app.Image.{Magick, ImageInfo, Found, get_image_to_send, image_not_present_code}
use image_app.Transfer.{broken, Answer, done, run, send_image, connection_closed_code}
use image_app.Transfer.Block.{send_page}
use image_app.Transfer.Html.{bad_request, service_unavailable}
use image_app.Transfer.Ends.{Ends, Ends-then_run, Ends-run, Ends-if, Ends-done, Ends-map}
use image_app.Log.{log_image_requested}
use image_app.Client.{Thread, Inputs, give_up}
use image_app.Client.Round.{
  value_of, image_of, respond, serve, answered, switch, received, handle_client,
}
use image_app.Client.Round.Accounts.{Apart, Kept, Left, Finished, Steady}
use image_app.Client.Round.Steps.{
  processed-Finished, gone-Finished, await-Finished, give_up-Ends, give_up-Left, logged-Ends,
  not_present-Finished,
}

module _ (Q : Quality) (F : Floats) (as_float : Q.Float → F.Float) (M : Magick)
    (percent : Q.Float → ℕ) (nE : ℕ) (td : ThreadData) (t : Thread) where
  abbrev P : Thread → Type 0
  P = Finished nE td t

  respond-Finished :
      (input : Inputs) (a : ℕ) (cmd : RequestStatus) (image : ImageInfo Q M percent)
      (found : Found Q M percent) (s : Thread)
      → Steady nE td t s.pool s.max_descriptor
      → s.max_descriptor ≡ t.max_descriptor
      → Ends P (respond Q F as_float M percent nE input a cmd image found s)
  unfolding respond
  respond-Finished input a cmd image found s st same =
      Ends-if P (value_of input found.returned == image_not_present_code) _ _
        (λ _. not_present-Finished nE td t input a _ s st same)
        λ _. Ends-then_run P (send_image input.stack _ cmd input.answers) _ λ v rest.
          Ends-if P (value_of input v == connection_closed_code) _ _
            (λ _. gone-Finished nE td t input s rest st)
            λ _. processed-Finished nE td t input s rest st

  serve-Finished :
      (input : Inputs) (a : ℕ) (request : Request Q) (s : Thread)
      → Steady nE td t s.pool s.max_descriptor
      → s.max_descriptor ≡ t.max_descriptor
      → Ends P (serve Q F as_float M percent nE input a request s)
  unfolding serve
  serve-Finished input a request s st same =
      Ends-run P (retrieve_dim_from_db Q F as_float input.database s.devices request) _ λ known _.
        Ends-run P (image_of Q F as_float M percent known.1) _ λ image _.
          Ends-run P (find_file_in_cache image.cache_path s.images.map) _ λ cached _.
            logged-Ends nE td t input log_image_requested a _ _ _ λ r e.
              Ends-run P (get_image_to_send Q M percent input.disk r.images image cached) _
                λ found _.
                  respond-Finished input a known.1.cmd image found _
                    (subst (λ (q : Thread). Steady nE td t q.pool q.max_descriptor) (sym e) st)
                    (subst (λ (q : Thread). q.max_descriptor ≡ t.max_descriptor) (sym e) same)

  answered-Finished :
      (input : Inputs) (a : ℕ) (request : Request Q) (s : Thread) (status : RequestStatus)
      → Steady nE td t s.pool s.max_descriptor
      → s.max_descriptor ≡ t.max_descriptor
      → Ends P (answered Q F as_float M percent nE input a request s status)
  unfolding answered
  answered-Finished input a request s request_received st same =
      serve-Finished input a request s st same
  answered-Finished input a request s head_cmd st same = tt
  answered-Finished input a request s icon_requested st same =
      Ends-then_run P (send_image input.stack input.icon get_cmd input.answers) _
        λ _ rest. processed-Finished nE td t input s rest st
  answered-Finished input a request s message_not_correct st same =
      Ends-then_run P (send_page bad_request input.stack input.answers) _
        λ _ rest. processed-Finished nE td t input s rest st
  answered-Finished input a request s _ st same =
      processed-Finished nE td t input s input.answers st

  switch-Finished :
      (input : Inputs) (a : ℕ) (message : Bytes) (s : Thread) (status : RequestStatus)
      (rest : List Answer)
      → Steady nE td t s.pool s.max_descriptor
      → s.max_descriptor ≡ t.max_descriptor
      → Ends P (switch Q F as_float M percent nE input a message s status rest)
  unfolding switch
  switch-Finished input a message s request_received rest st same =
      Ends-run P (parse_request Q message) _
        λ parsed _. answered-Finished input a parsed.1 _ parsed.0 st same
  switch-Finished input a message s empty_message rest st same =
      give_up-Ends nE td t input connection_closed s rest st
  switch-Finished input a message s status rest st same =
      await-Finished nE td t input status s rest st

  -- What a completed round comes to, with the number of requests that it needs.
  abbrev pub Counted : Thread → Type 0
  Counted t' =
      Apart nE t.pool t'.pool × ((is_nat td.request 0 ≡ false) × Kept nE td t t' ⊎ Left nE t t')

  counted : is_nat td.request 0 ≡ false → (t' : Thread) → P t' → Counted t'
  counted some_left t' (apart, inl kept) = (apart, inl (some_left, kept))
  counted some_left t' (apart, inr left) = (apart, inr left)

  -- The start of every round.
  untouched : get_elem? t.pool.arr nE ≡ some td → Steady nE td t t.pool t.max_descriptor
  untouched there = record {
    slot = (td, there, refl, refl, refl);
    apart = record { others = λ i other. refl; same_size = refl; same_end = refl };
    same_counter = refl;
    descriptors = inl refl;
  }

  refused-Counted :
      (input : Inputs) (s : Thread) (rest : List Answer)
      → Steady nE td t s.pool s.max_descriptor
      → Ends Counted (run (give_up nE input connection_closed s) (λ left. done left [] rest))
  refused-Counted input s rest st =
      Ends-run Counted (give_up nE input connection_closed s) _ λ r given.
        let (apart, left) =
          give_up-Left nE td t input connection_closed st.slot.0 s r st.slot.1 st.apart
            st.same_counter st.descriptors given in
        (apart, inr left)

  received-Counted :
      (input : Inputs) (s : Thread) (o : Option (RequestStatus × Bytes))
      → Steady nE td t s.pool s.max_descriptor
      → s.max_descriptor ≡ t.max_descriptor
      → Ends Counted (received Q F as_float M percent nE input td s o)
  unfolding received switch
  received-Counted input s none st same = tt
  received-Counted input s (some (status_r, message)) st same =
      Ends-run Counted (store s.messages s.idx message) _ λ messages _.
        Ends-if Counted (is_nat td.request 0) _ _
          (λ _.
            Ends-then_run Counted (send_page service_unavailable input.stack input.answers) _
              λ _ rest. refused-Counted input (record s { messages = messages }) rest st)
          λ some_left. Ends-map (counted some_left) _ (
            switch-Finished input td.client_addr message (record s { messages = messages }) status_r
              input.answers st same)

  pub round-Ends :
      (input : Inputs)
      → get_elem? t.pool.arr nE ≡ some td
      → Ends Counted (handle_client Q F as_float M percent nE input t)
  unfolding handle_client
  round-Ends input there = rw (load-some t.pool.arr nE there) (
      Ends-if Counted (wait_for_connection td) _ _ (λ _. tt)
        λ _. Ends-run Counted (load t.messages ((t.idx + 1) % 5)) _ λ buffer _.
          Ends-run Counted (receive_request input.arrivals buffer) _ λ o _.
            received-Counted input (record t { idx = (t.idx + 1) % 5 }) o (untouched there) refl)

  -- A round of the thread of slot `nE`, if it comes to its end, leaves every other slot of the pool
  -- as it was, and does one of two things. It keeps the client, which is possible only if the client
  -- has requests left: the client has then sent again and has one request fewer, its slot has the
  -- same user and socket, the counter of the pool is as it was, and `max_descriptor` is as it was or
  -- one less, as the unsigned number of 64 bits that wraps around at 0. Or it gives the client up: the slot is free, the counter of the pool is one less,
  -- and its thread waits for the next one, `max_descriptor` is one or two less in the same sense, and the pointers to the request and to the image dangle.
  pub handle_client_lem :
      (input : Inputs) {t' : Thread} {out : Bytes} {rest : List Answer}
      → get_elem? t.pool.arr nE ≡ some td
      → handle_client Q F as_float M percent nE input t ≡ done t' out rest
      → Counted t'
  handle_client_lem input there =
      Ends-done Counted (handle_client Q F as_float M percent nE input t) (round-Ends input there)

  -- A round that ends had a slot whose thread was not waiting for a client.
  pub handle_client-runs :
      (input : Inputs) {t' : Thread} {out : Bytes} {rest : List Answer}
      → get_elem? t.pool.arr nE ≡ some td
      → handle_client Q F as_float M percent nE input t ≡ done t' out rest
      → wait_for_connection td ≡ false
  unfolding handle_client
  handle_client-runs input there e = elim (Bool-cases (wait_for_connection td)) [
    | inr runs ↦ runs
    | inl waits ↦ absurd (cc (rw (load-some t.pool.arr nE there, waits) at e))
  ]

module _ (Q : Quality) (F : Floats) (as_float : Q.Float → F.Float) (M : Magick)
    (percent : Q.Float → ℕ) (nE : ℕ) (t : Thread) where
  -- A slot that is not there is read outside the pool.
  pub handle_client-outside :
      (input : Inputs)
      → get_elem? t.pool.arr nE ≡ none
      → handle_client Q F as_float M percent nE input t ≡ broken
  unfolding handle_client
  handle_client-outside input e = rw (load, e)

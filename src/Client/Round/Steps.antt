-- ===== src/Client/Round/Steps.antt =====
-- The steps of a round: what each leaves of the slot, the pool and `max_descriptor`.
use image_app.Common.{
  ℕ, ◌<◌, ◌≡◌, inl, inr, refl, ◌∙◌, sym, subst, ap, Option, none, some, List, [], ok, load-some,
  store, store-in, length, get_elem?, get_elem?-set_self, set, ℤ, pos, decrement, decrement_u64,
  is_nat, replicate,
}
use image_app.Request.Status.{RequestStatus, request_received, connection_closed}
use image_app.Request.Receive.{http_message_size}
use image_app.ThreadPool.{ThreadData, Pool, freed}
use image_app.ThreadPool.Slots.{get_elem?-lt}
use image_app.ThreadPool.Timer.{handle_timer}
use image_app.Transfer.{Answer, Run, done, run}
use image_app.Transfer.Block.{send_page}
use image_app.Transfer.Html.{bad_request}
use image_app.Transfer.Ends.{Ends, Ends-then_run, Ends-run, Ends-if}
use image_app.Log.{LoggedImage, log_image_not_present}
use image_app.Client.{Thread, Inputs, give_up, log_event}
use image_app.Client.Ending.{Renewed, handle_timer-Renewed, give_up-GivenUp, log_event_lem}
use image_app.Client.Round.{settled, await_next, processed, gone, not_present}
use image_app.Client.Round.Accounts.{
  Lowered, Apart, Left, Finished, Steady, set-Apart, freed-free, freed-waits, Lowered-decrement,
}

module _ (nE : ℕ) (td : ThreadData) (t : Thread) where
  -- The slot is written, and its user, socket and requests stay.
  Steady-set :
      (p : Pool) (m : ℕ) (td' : ThreadData)
      → Steady nE td t p m
      → td'.used ≡ td.used
      → td'.conn_sd ≡ td.conn_sd
      → td'.request ≡ td.request
      → Steady nE td t (record p { arr = set p.arr nE td' }) m
  Steady-set p m td' s used sock req = record {
    slot = (td', get_elem?-set_self p.arr nE td' (get_elem?-lt p.arr nE s.slot.1), used, sock, req);
    apart = set-Apart nE t.pool p td' p.counter s.apart;
    same_counter = s.same_counter;
    descriptors = s.descriptors;
  }

  pub give_up-Left :
      (input : Inputs) (status : RequestStatus) (td1 : ThreadData) (s r : Thread)
      → get_elem? s.pool.arr nE ≡ some td1
      → Apart nE t.pool s.pool
      → s.pool.counter ≡ t.pool.counter
      → Lowered t.max_descriptor s.max_descriptor
      → give_up nE input status s ≡ ok r
      → Apart nE t.pool r.pool × Left nE t r
  give_up-Left input status td1 s r there apart counter lowered e =
      let g = give_up-GivenUp nE input status td1 s r there e in
      (
        rw (g.slot_freed) (set-Apart nE t.pool s.pool (freed td1) (decrement s.pool.counter) apart),
        record {
          slot = (
            freed td1,
            rw (g.slot_freed)
                (get_elem?-set_self s.pool.arr nE (freed td1) (get_elem?-lt s.pool.arr nE there)),
            freed-free td1,
            freed-waits td1,
          );
          one_less = rw (g.slot_freed) (ap decrement counter);
          descriptors =
              rw (g.descriptors) (Lowered-decrement t.max_descriptor s.max_descriptor lowered);
          no_request = g.request_freed;
          no_image = g.image_freed;
        },
      )

  give_up-Finished :
      (input : Inputs) (status : RequestStatus) (td1 : ThreadData) (s r : Thread)
      → get_elem? s.pool.arr nE ≡ some td1
      → Apart nE t.pool s.pool
      → s.pool.counter ≡ t.pool.counter
      → Lowered t.max_descriptor s.max_descriptor
      → give_up nE input status s ≡ ok r
      → Finished nE td t r
  give_up-Finished input status td1 s r there apart counter lowered e =
      let (a, l) = give_up-Left input status td1 s r there apart counter lowered e in (a, inr l)

  settled-Finished :
      (input : Inputs) (status : RequestStatus) (s : Thread) (rest : List Answer)
      (st : Steady nE td t s.pool s.max_descriptor) (o : Option (ℤ × ThreadData))
      → handle_timer input.polls st.slot.0 ≡ o
      → Ends (Finished nE td t) (settled nE input status s rest o)
  unfolding settled
  settled-Finished input status s rest st none e = tt
  settled-Finished input status s rest st (some (timer, td')) e =
      rw (store-in s.pool.arr nE td' inside) (
        Ends-if P (is_nat timer 0) _ _
          (λ over. Ends-run P (give_up nE input status kept) _ λ r given.
            give_up-Finished input status td' kept r there apart st.same_counter st.descriptors
              given)
          (λ more. (
            apart,
            inl (record {
              slot = (td', there, renewed (handle_timer-Renewed input.polls td1 timer td' e more));
              same_counter = st.same_counter;
              descriptors = st.descriptors;
            }),
          )))
    where
      P : Thread → Type 0
      P = Finished nE td t

      td1 : ThreadData
      td1 = st.slot.0

      inside : nE < length s.pool.arr
      inside = get_elem?-lt s.pool.arr nE st.slot.1

      kept : Thread
      kept = record s { pool = record s.pool { arr = set s.pool.arr nE td' } }

      there : get_elem? kept.pool.arr nE ≡ some td'
      there = get_elem?-set_self s.pool.arr nE td' inside

      apart : Apart nE t.pool kept.pool
      apart = set-Apart nE t.pool s.pool td' s.pool.counter st.apart

      renewed : Renewed td1 td' → Renewed td td'
      renewed r = record {
        same_user = r.same_user ∙ st.slot.2;
        same_socket = r.same_socket ∙ st.slot.3;
        flagged = r.flagged;
        one_less = r.one_less ∙ ap decrement st.slot.4;
      }

  pub await-Finished :
      (input : Inputs) (status : RequestStatus) (s : Thread) (rest : List Answer)
      → Steady nE td t s.pool s.max_descriptor
      → Ends (Finished nE td t) (await_next nE input status s rest)
  unfolding await_next
  await-Finished input status s rest st =
      rw (load-some s.pool.arr nE st.slot.1) (settled-Finished input status s rest st _ refl)

  pub processed-Finished :
      (input : Inputs) (s : Thread) (rest : List Answer)
      → Steady nE td t s.pool s.max_descriptor
      → Ends (Finished nE td t) (processed nE input s rest)
  unfolding processed
  processed-Finished input s rest st =
      let (td1, there, used, sock, req) = st.slot in
      let cleared = record td1 { msg_received = pos 0 } in
      rw
        (
          load-some s.pool.arr nE there,
          store-in s.pool.arr nE cleared (get_elem?-lt s.pool.arr nE there),
        )
        (Ends-run (Finished nE td t) (store s.messages s.idx (replicate http_message_size 0)) _
          λ messages e.
            await-Finished input request_received _ rest
              (Steady-set s.pool s.max_descriptor cleared st used sock req))

  pub gone-Finished :
      (input : Inputs) (s : Thread) (rest : List Answer)
      → Steady nE td t s.pool s.max_descriptor
      → Ends (Finished nE td t) (gone nE input s rest)
  unfolding gone
  gone-Finished input s rest st =
      Ends-run (Finished nE td t) (give_up nE input connection_closed s) _ λ r given.
        Ends-run (Finished nE td t) (store r.messages r.idx (replicate http_message_size 0)) _
          λ messages cleared.
            let (apart, l) =
              give_up-Left input connection_closed st.slot.0 s r st.slot.1 st.apart st.same_counter
                st.descriptors given in
            (
              apart,
              inr (record {
                slot = l.slot;
                one_less = l.one_less;
                descriptors = l.descriptors;
                no_request = l.no_request;
                no_image = l.no_image;
              }),
            )

  pub give_up-Ends :
      (input : Inputs) (status : RequestStatus) (s : Thread) (rest : List Answer)
      → Steady nE td t s.pool s.max_descriptor
      → Ends (Finished nE td t) (run (give_up nE input status s) (λ left. done left [] rest))
  give_up-Ends input status s rest st =
      Ends-run (Finished nE td t) (give_up nE input status s) _ λ r given.
        give_up-Finished input status st.slot.0 s r st.slot.1 st.apart st.same_counter
          st.descriptors given

  -- The log leaves the pool and `max_descriptor` alone.
  pub logged-Ends :
      (input : Inputs) (event a : ℕ) (image : Option LoggedImage) (s : Thread)
      (f : Thread → Run Thread)
      → ((r : Thread) → r ≡ record s { log = r.log } → Ends (Finished nE td t) (f r))
      → Ends (Finished nE td t) (run (log_event input event a image s) f)
  logged-Ends input event a image s f h =
      Ends-run (Finished nE td t) (log_event input event a image s) f
        λ r e. h r (log_event_lem input event a image s r e)

  pub not_present-Finished :
      (input : Inputs) (a : ℕ) (image : LoggedImage) (s : Thread)
      → Steady nE td t s.pool s.max_descriptor
      → s.max_descriptor ≡ t.max_descriptor
      → Ends (Finished nE td t) (not_present nE input a image s)
  unfolding not_present
  not_present-Finished input a image s st same =
      Ends-then_run (Finished nE td t) (send_page bad_request input.stack input.answers) _ λ _ rest.
        logged-Ends input log_image_not_present a (some image) _ _ λ r e.
          processed-Finished input r rest
            (subst (λ (q : Thread). Steady nE td t q.pool q.max_descriptor) (sym e) lowered)
    where
      lowered : Steady nE td t s.pool (decrement_u64 s.max_descriptor)
      lowered = record {
        slot = st.slot;
        apart = st.apart;
        same_counter = st.same_counter;
        descriptors = inr (ap decrement_u64 same);
      }

-- ===== src/Tests/Clients.antt =====
-- HttpServer.c: rounds of a thread.
use image_app.Tests.Threads.{
  hang_up, no_magick, client_slot, one_image, thread, message, message_arrived, asked,
  message_parsed, known, phone_known, image_cat, image_named, cat_found, ask, cat_stored,
}
use image_app.Common.{
  set, decrement, decrement_u64, ℕ, ◌≤◌, ◌≡◌, ◌⊎◌, refl, false, some, [], ◌∷◌, ◌++◌, Bytes, ok,
  replicate, length-replicate, arith,
}
use image_app.Tests.Data.{fixed, fixed_quality}
use image_app.CString.{cstr, strstr, starts_with}
use image_app.Request.Status.{empty_message}
use image_app.Request.Receive.{bytes, is_complete, receive_request, receive_loop}
use image_app.ThreadPool.{freed}
use image_app.Transfer.{done, broken}
use image_app.Client.{null, live, dangling, Thread}
use image_app.Client.Round.{handle_client, serve_clients}
use image_app.Strings.Decimal.Fill.{Spells}
use image_app.Strings.Message.Layout.{image_start, image_end}
use image_app.ThreadPool.{allocate_pool}
use image_app.System.{Locals, World}
use image_app.Client.Round.Accounts.{Kept}
use image_app.Client.Round.Bookkeeping.{Counted, handle_client_lem}
use image_app.Client.Round.Sessions.{IsFree, handle_client_bounded}
use image_app.Client.Round.Faults.{CanFree, handle_client_empty}
use image_app.Client.Round.Served.{handle_client_cached}

empty_arrived :
    receive_request (bytes [] ∷ []) (replicate 512 0) ≡ ok (some (empty_message, replicate 512 0))
unfolding receive_request receive_loop is_complete cstr strstr starts_with
empty_arrived = refl

-- The first client of a thread connects and closes.
handle_client_empty_example :
    (CanFree (record thread { request = null; image_info = null })
      × ((t' : Thread) × (handle_client fixed_quality fixed
              (λ x. x)
              no_magick
              (λ x. x)
              0
              hang_up
              (record thread { request = null; image_info = null })
            ≡ done t' [] [])
          × (t'.pool ≡ record thread.pool {
            arr = set thread.pool.arr 0 (freed client_slot);
            counter = decrement thread.pool.counter;
          })
          × (t'.max_descriptor ≡ decrement_u64 thread.max_descriptor)
          × (t'.request ≡ dangling)
          × (t'.image_info ≡ dangling)))
    ⊎ ((CanFree (record thread { request = null; image_info = null }) → ⊥)
        × (handle_client fixed_quality fixed
              (λ x. x)
              no_magick
              (λ x. x)
              0
              hang_up
              (record thread { request = null; image_info = null })
            ≡ broken))
handle_client_empty_example =
    handle_client_empty fixed_quality fixed (λ x. x) no_magick (λ x. x) 0 hang_up
      (record thread { request = null; image_info = null }) client_slot (replicate 512 0)
      (replicate 512 0) refl refl refl refl empty_arrived

-- The client gets the header and four bytes, and sends again.
abbrev CatServed : Type 0
CatServed =
    (s : Bytes) × Spells 4 s
    × ((t' : Thread) × (handle_client fixed_quality fixed (λ x. x) no_magick (λ x. x) 0 ask thread
          ≡ done t' ((image_start ++ (s ++ image_end)) ++ (1 ∷ 2 ∷ 3 ∷ 4 ∷ [])) [])
        × Kept 0 client_slot thread t'
        × (t'.images ≡ one_image))

cached_round : CatServed
cached_round =
    handle_client_cached fixed_quality fixed (λ x. x) no_magick (λ x. x) 0 ask thread client_slot
      (replicate 512 0) message asked known thread.devices image_cat 0 7 3 512 4 [] [] refl refl
      refl refl refl message_arrived message_parsed phone_known refl image_named cat_found
      cat_stored (length-replicate {A = ℕ} 512 0) (omega arith) (omega arith) (omega arith) refl
      (omega arith) (omega arith) refl

handle_client_lem_example :
    Counted fixed_quality fixed (λ x. x) no_magick (λ x. x) 0 client_slot thread (cached_round.2.0)
handle_client_lem_example =
    handle_client_lem fixed_quality fixed (λ x. x) no_magick (λ x. x) 0 client_slot thread ask refl
      cached_round.2.1

session_served :
    serve_clients fixed_quality fixed (λ x. x) no_magick (λ x. x) 0 (ask ∷ []) thread
    ≡ done cached_round.2.0
        (((image_start ++ (cached_round.0 ++ image_end)) ++ (1 ∷ 2 ∷ 3 ∷ 4 ∷ [])) ++ [])
        []
unfolding serve_clients
session_served = rw cached_round.2.1

handle_client_bounded_example : (1 ≤ 1001) × (◌≡◌ {A = ℕ} 1 1001 → IsFree 0 (cached_round.2.0))
handle_client_bounded_example =
    handle_client_bounded fixed_quality fixed (λ x. x) no_magick (λ x. x) 0 (ask ∷ []) 1000 thread
      (cached_round.2.0) client_slot refl refl session_served

-- A pool of one slot: a client comes, asks for the image, and sends again.
abbrev waiting_thread : ℕ → Locals
waiting_thread nE = record {
  idx = 0;
  messages = replicate 5 (replicate 512 0);
  request = live false;
  image_info = live tt;
}

abbrev quiet : World
quiet = record {
  pool = allocate_pool 1 0;
  max_descriptor = 1;
  devices = thread.devices;
  images = one_image;
  log = [];
}

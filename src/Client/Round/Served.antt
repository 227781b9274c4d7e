-- ===== src/Client/Round/Served.antt =====
-- A request for an image that is in the cache, from the socket of the client and back.
use image_app.Common.{
  ℕ, suc, ◌+◌, ◌%◌, ◌^◌, ◌<◌, ◌≤◌, ◌≡◌, ◌≢◌, inl, inr, refl, Bool, true, false, some, List, [], ◌∷◌,
  ◌++◌, append-nil, Bytes, ok, load-some, store-in, set, length, length-set, replicate, get_elem?,
  get_elem?-set_self, pos, is_nat, arith, ◌==◌,
}
use image_app.Request.Status.{request_received, get_cmd}
use image_app.Request.Accept.{Quality}
use image_app.Request.Parse.{Request, parse_request}
use image_app.Request.Receive.{receive_request, http_message_size}
use image_app.Strings.Decimal.Fill.{Spells}
use image_app.Strings.Message.Layout.{image_start, image_end}
use image_app.ThreadPool.{ThreadData}
use image_app.ThreadPool.Slots.{get_elem?-lt}
use image_app.ThreadPool.Timer.{wait_for_connection, handle_timer, renewed}
use image_app.Strings.CacheName.{Floats}
use image_app.DeviceCache.{DeviceCache, retrieve_dim_from_db}
use image_app.ImageCache.{cached_image, find_file_in_cache, cached_file}
use image_app.Image.{Magick, ImageInfo}
use image_app.Image.Served.{get_image_to_send_hit}
use image_app.Transfer.{Answer, room, done, send_image, connection_closed_code}
use image_app.Transfer.Whole.{image_code, send_image_get, sized}
use image_app.Log.{write_event_log, log_image_requested}
use image_app.Client.{live, Thread, Inputs, log_event}
use image_app.Client.Round.{
  handle_client, received, switch, answered, serve, respond, image_of, value_of, is_literal,
  processed, await_next, settled,
}
use image_app.Client.Round.Accounts.{Kept}
use image_app.Client.Round.Bookkeeping.{Counted, handle_client_lem}

-- A request for an image is always logged.
requested-logged :
    (input : Inputs) (a : ℕ) (path name : Bytes) (t : Thread)
    → (text : Bytes) × (log_event input log_image_requested a
          (some (record { cache_path = some path; image_name = some name }))
          t
        ≡ ok (record t { log = t.log ++ text }))
unfolding log_event write_event_log
requested-logged input a path name t = (_, refl)

in_time :
    (td : ThreadData) (n : ℕ) (polls : List Bool)
    → td.timer ≡ pos (suc (suc n))
    → handle_timer (true ∷ polls) td
      ≡ some (pos (suc n), record (renewed td) { timer = pos (suc n) })
unfolding handle_timer
in_time td n polls e = ground arith

not_waiting : (td : ThreadData) → td.msg_received ≡ pos 1 → wait_for_connection td ≡ false
unfolding wait_for_connection
not_waiting td e = rw e

running : (n : ℕ) → is_nat (pos (suc n)) 0 ≡ false
running n = ground arith

code-ne : (n : ℕ) → n ≢ 12 → (image_code n == connection_closed_code) ≡ false
unfolding image_code
code-ne n h = ground arith

-- A client that sends again before its timer has run down keeps its slot.
prompt :
    (nE : ℕ) (input : Inputs) (t : Thread) (td : ThreadData) (n : ℕ) (polls : List Bool)
    (rest : List Answer)
    → get_elem? t.pool.arr nE ≡ some td
    → t.idx < length t.messages
    → td.timer ≡ pos (suc (suc n))
    → input.polls ≡ true ∷ polls
    → (t' : Thread) × (processed nE input t rest ≡ done t' [] rest)
      × (t'.request ≡ t.request)
      × (t'.images ≡ t.images)
unfolding processed await_next settled
prompt nE input t td n polls rest there inside timer ready = (
  record t {
    pool = record t.pool { arr = set (set t.pool.arr nE cleared) nE again };
    messages = set t.messages t.idx (replicate http_message_size 0);
  },
  rw (
    load-some t.pool.arr nE there,
    store-in t.pool.arr nE cleared (get_elem?-lt t.pool.arr nE there),
    store-in t.messages t.idx (replicate http_message_size 0) inside,
    load-some (set t.pool.arr nE cleared) nE
        (get_elem?-set_self t.pool.arr nE cleared (get_elem?-lt t.pool.arr nE there)),
    ready,
    in_time cleared n polls timer,
    store-in (set t.pool.arr nE cleared) nE again (
        get_elem?-lt (set t.pool.arr nE cleared) nE
          (get_elem?-set_self t.pool.arr nE cleared (get_elem?-lt t.pool.arr nE there))),
    running n,
  ),
  refl,
  refl,
)
  where
    cleared : ThreadData
    cleared = record td { msg_received = pos 0 }

    again : ThreadData
    again = record (renewed cleared) { timer = pos (suc n) }

module _ (Q : Quality) (F : Floats) (as_float : Q.Float → F.Float) (M : Magick)
    (percent : Q.Float → ℕ) (nE : ℕ) where
  -- A GET for an image that is in the cache, whose file has 1 to 2^63 - 1 bytes, and not just 12,
  -- is answered with the header, with the size of the file as its length, and the whole file, and
  -- nothing else, while a call of send takes at least 512 bytes and one of sendfile the whole
  -- file. If the client sends again at the first poll, while its timer stands at two or more, it
  -- keeps its slot with one request fewer, and the cache of images is as it was. What the
  -- message, the parser, the device database and the cache say is given by the functions of the
  -- other parts.
  pub handle_client_cached :
      (input : Inputs) (t : Thread) (td : ThreadData) (buffer message : Bytes) (asked r : Request Q)
      (devices : DeviceCache) (image : ImageInfo Q M percent) (i fd n k l : ℕ) (polls : List Bool)
      (ss : List Answer)
      → get_elem? t.pool.arr nE ≡ some td
      → td.msg_received ≡ pos 1
      → is_nat td.request 0 ≡ false
      → td.timer ≡ pos (suc (suc n))
      → get_elem? t.messages ((t.idx + 1) % 5) ≡ some buffer
      → receive_request input.arrivals buffer ≡ ok (some (request_received, message))
      → parse_request Q message ≡ ok (request_received, asked)
      → retrieve_dim_from_db Q F as_float input.database t.devices asked ≡ ok (devices, r)
      → r.cmd ≡ get_cmd
      → image_of Q F as_float M percent r ≡ ok image
      → find_file_in_cache image.cache_path t.images.map ≡ ok (cached_image i)
      → cached_file t.images i ≡ ok (fd, length input.content)
      → length input.stack ≡ 512
      → 0 < length input.content
      → length input.content < 2 ^ 63
      → length input.content ≢ 12
      → input.answers ≡ room k ∷ room l ∷ ss
      → 512 ≤ k
      → length input.content ≤ l
      → input.polls ≡ true ∷ polls
      → (s : Bytes) × Spells (length input.content) s
        × ((t' : Thread) × (handle_client Q F as_float M percent nE input t
              ≡ done t' ((image_start ++ (s ++ image_end)) ++ input.content) ss)
            × Kept nE td t t'
            × (t'.images ≡ t.images))
  unfolding handle_client received switch answered serve respond is_literal value_of
  handle_client_cached input t td buffer message asked r devices image i fd n k l polls ss there
        flagged requests timer slot arrived parsed known get named found stored room512 some_byte
        small twelve answers header_fits file_fits ready =
      let (s, spells, sent) =
        send_image_get input.stack image.ext input.content k l ss room512 some_byte small
          header_fits file_fits in
      let (t', ended, same_request, same_images) =
        prompt nE input answering td n polls ss there inside timer ready in
      let whole = (image_start ++ (s ++ image_end)) ++ input.content in
      let sending : send_image input.stack (sized image.ext input.content) r.cmd input.answers
          ≡ done (some (image_code (length input.content))) whole ss =
        rw (get, answers) sent in
      let round : handle_client Q F as_float M percent nE input t ≡ done t' whole ss = rw (
        load-some t.pool.arr nE there,
        not_waiting td flagged,
        load-some t.messages idx slot,
        arrived,
        store-in t.messages idx message (get_elem?-lt t.messages idx slot),
        requests,
        parsed,
        known,
        named,
        found,
        written.1,
        get_image_to_send_hit Q M percent input.disk t.images image i fd (length input.content)
            stored,
        sending,
        code-ne (length input.content) twelve,
        ended,
        append-nil,
      ) in
      (
        s,
        spells,
        (
          t',
          round,
          kept t' same_request (handle_client_lem Q F as_float M percent nE td t input there round),
          same_images,
        ),
      )
    where
      idx : ℕ
      idx = (t.idx + 1) % 5

      asking : Thread
      asking = record t {
        idx = idx;
        messages = set t.messages idx message;
        request = live false;
        devices = devices;
        image_info = live tt;
      }

      written :
          (text : Bytes) × (log_event input log_image_requested td.client_addr
              (some
                (record { cache_path = some image.cache_path; image_name = some image.image_name }))
              asking
            ≡ ok (record asking { log = t.log ++ text }))
      written = requested-logged input td.client_addr image.cache_path image.image_name asking

      answering : Thread
      answering = record asking { log = t.log ++ written.0 }

      inside : idx < length answering.messages
      inside = omega (arith, length-set t.messages idx message, get_elem?-lt t.messages idx slot)

      kept :
          (t' : Thread)
          → t'.request ≡ live false
          → Counted Q F as_float M percent nE td t t'
          → Kept nE td t t'
      kept t' same_request (apart, inl (some_left, k)) = k
      kept t' same_request (apart, inr left) = absurd (cc (same_request, left.no_request))

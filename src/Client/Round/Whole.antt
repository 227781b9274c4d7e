-- ===== src/Client/Round/Whole.antt =====
-- A GET for an image in the cache, from the pieces in which the message comes to the answer.
use image_app.Common.{
  Bool, ℕ, suc, ◌+◌, ◌%◌, ◌^◌, ◌<◌, ◌≤◌, ◌≡◌, ◌≢◌, refl, ap, ◌∙◌, true, false, some, List, [], ◌∷◌,
  ◌++◌, Bytes, ok, map, concat, All, Lacks, length, take, replicate, get_elem?, pos, is_nat, arith,
}
use image_app.CString.{cstr, strstr_block}
use image_app.CString.Laws.{cstr-append, cstr-Lacks}
use image_app.Request.Status.{request_received, get_cmd}
use image_app.Request.Accept.{Quality, tokens}
use image_app.Request.Accept.Sizes.{kept, IsPlain, plain_node}
use image_app.Request.Lines.Cuts.{agent_header, accept_header}
use image_app.Request.Name.Lines.{query}
use image_app.Request.Name.Paths.{InName}
use image_app.Request.Parse.{Request, new_request, parse_request}
use image_app.Request.Parse.Whole.{request_line, get_message, parse_request_image}
use image_app.Request.Receive.{Arrival, bytes, receive_request}
use image_app.Request.Receive.Chunks.{IsPiece, first_complete, padded, verdict, receive_request_lem}
use image_app.Strings.Decimal.Fill.{Spells}
use image_app.Strings.Message.Layout.{image_start, image_end}
use image_app.Strings.CacheName.{Floats, convert_float_to_string}
use image_app.ThreadPool.{ThreadData}
use image_app.DeviceCache.{Display, DbStat, fetch, query_of, set_display}
use image_app.DeviceCache.Entries.{Consistent, Plain}
use image_app.DeviceCache.Names.{name_for, name_for-Lacks, set_display-plain}
use image_app.DeviceCache.Transparency.{retrieve_dim_from_db_lem}
use image_app.ImageCache.{cached_image, cached_file, find_file_in_cache}
use image_app.ImageCache.Lookup.{Entry, first_match}
use image_app.ImageCache.State.{Represents}
use image_app.ImageCache.Contents.{find_file_in_cache_lem}
use image_app.Image.{Magick, ImageInfo, image_dir}
use image_app.Transfer.{Answer, room, done}
use image_app.Client.{Thread, Inputs}
use image_app.Client.Round.{handle_client, image_of, image_cache, present}
use image_app.Client.Round.Accounts.{Kept}
use image_app.Client.Round.Served.{handle_client_cached}

-- A message of at most 512 bytes that starts with the line "GET /?name.ext …", with a user agent and
-- an accept line that `parse_request` takes whole, and one to three types of images.
pub record Asks (Q : Quality) (message name ext agent accept : Bytes) : Type 0 where
  pub b : Bytes
  pub rest : Bytes
  pub behind_agent : Bytes
  pub behind_accept : Bytes
  pub starts : message ≡ get_message name ext b rest
  pub fits : length (get_message name ext b rest) ≤ 512
  pub one_line : Lacks b'\r' (request_line name ext b)
  pub line_clean : Lacks 0 (query name ext b)
  pub name_clean : Lacks 0 name
  pub ext_clean : Lacks 0 ext
  pub name_whole : All InName name
  pub ext_whole : Lacks b' ' ext
  pub name_short : length name < 128
  pub ext_short : length ext ≤ 4
  pub agent_there :
      strstr_block (get_message name ext b rest) agent_header
      ≡ some (agent_header ++ (agent ++ b'\r' ∷ behind_agent))
  pub accept_there :
      strstr_block (get_message name ext b rest) accept_header
      ≡ some (accept_header ++ (accept ++ b'\r' ∷ behind_accept))
  pub agent_line : Lacks b'\r' agent
  pub accept_line : Lacks b'\r' accept
  pub agent_clean : Lacks 0 agent
  pub accept_clean : Lacks 0 accept
  pub agent_short : length agent ≤ 242
  pub accept_short : length accept ≤ 118
  pub behind_agent_long : 256 ≤ length (agent_header ++ (agent ++ b'\r' ∷ behind_agent))
  pub behind_accept_long : 128 ≤ length (accept_header ++ (accept ++ b'\r' ∷ behind_accept))
  pub plain : All (IsPlain Q) (kept (tokens [] accept))
  pub some_type : 1 ≤ length (kept (tokens [] accept))
  pub few_types : length (kept (tokens [] accept)) ≤ 3

module _ (Q : Quality) (F : Floats) (as_float : Q.Float → F.Float) (M : Magick)
    (percent : Q.Float → ℕ) where
  -- The request behind the parser.
  abbrev asked : Bytes → Bytes → Bytes → Bytes → Request Q
  asked name ext agent accept = record (new_request Q) {
    cmd = get_cmd;
    image_name = some name;
    ext = some (b'.' ∷ take 3 ext);
    user_agent = some agent;
    image_list = some (map (plain_node Q) (kept (tokens [] accept)));
  }

  -- And behind the database.
  abbrev known : Bytes → Bytes → Bytes → Bytes → Bytes → Display → Request Q
  known name ext agent accept q d = record (asked name ext agent accept) {
    colors = d.colors;
    width = d.width;
    height = d.height;
    cache_name = some (name_for name q d ++ 0 ∷ []);
  }

  -- The path under which the image is cached.
  abbrev pub path_for : Bytes → Bytes → Bytes → Display → Bytes
  path_for name ext q d = image_cache ++ (name_for name q d ++ b'.' ∷ take 3 ext)

  abbrev wanted : Bytes → Bytes → Bytes → Bytes → Display → ImageInfo Q M percent
  wanted name ext accept q d = record {
    width = d.width;
    height = d.height;
    colors = d.colors;
    image_name = name;
    ext = b'.' ∷ take 3 ext;
    image_list = map (plain_node Q) (kept (tokens [] accept));
    cache_path = path_for name ext q d;
    image_path = image_dir ++ (name ++ b'.' ∷ take 3 ext);
  }

  image_of-known :
      (name ext agent accept q : Bytes) (d : Display)
      → Lacks 0 name
      → Lacks 0 q
      → image_of Q F as_float M percent (known name ext agent accept q d)
        ≡ ok (wanted name ext accept q d)
  unfolding image_of present
  image_of-known name ext agent accept q d clean clean_q =
      rw (cstr-append (name_for name q d) [] (name_for-Lacks name q d clean clean_q)) refl

  -- A slot whose thread has a client, with a clean buffer for the message.
  pub record Ready (nE : ℕ) (t : Thread) (td : ThreadData) (n : ℕ) : Type 0 where
    pub there : get_elem? t.pool.arr nE ≡ some td
    pub flagged : td.msg_received ≡ pos 1
    pub some_left : is_nat td.request 0 ≡ false
    pub in_time : td.timer ≡ pos (suc (suc n))
    pub clean : get_elem? t.messages ((t.idx + 1) % 5) ≡ some (replicate 512 0)

  -- What the client takes: the header and the whole file at once; and it sends again at once.
  pub record Takes (input : Inputs) (k l : ℕ) (ss : List Answer) (polls : List Bool) : Type 0 where
    pub stack : length input.stack ≡ 512
    pub some_byte : 0 < length input.content
    pub small : length input.content < 2 ^ 63
    pub not_twelve : length input.content ≢ 12
    pub answers : input.answers ≡ room k ∷ room l ∷ ss
    pub header : 512 ≤ k
    pub content : length input.content ≤ l
    pub again : input.polls ≡ true ∷ polls

  parsed :
      {message name ext agent accept : Bytes}
      → Asks Q message name ext agent accept
      → parse_request Q message ≡ ok (request_received, asked name ext agent accept)
  parsed {name = name} {ext = ext} {agent = agent} {accept = accept} w = rw w.starts (
      parse_request_image Q name ext w.b w.rest agent accept w.behind_agent w.behind_accept w.fits
        w.one_line w.line_clean w.name_clean w.ext_clean w.name_whole w.ext_whole w.name_short
        w.ext_short w.agent_there w.accept_there w.agent_line w.accept_line w.agent_clean
        w.accept_clean w.agent_short w.accept_short w.behind_agent_long w.behind_accept_long w.plain
        w.some_type w.few_types)

  -- A slot has a client with requests left and a timer of two or more, its thread is behind the
  -- wait with a clean buffer, and the client sends fewer than 512 bytes in pieces, the last of which
  -- completes the message. It is a GET for an image as `Asks` says, from a device with 1 to 81 bytes
  -- of user agent and no quotation mark, whose display the database knows, and every entry in the
  -- cache of devices is true of the database. In the cache of images some path contains the one that
  -- is made of the name, the text of the quality 1, the numerals of the display, and the point with
  -- three bytes of the extension; the file of the first such entry has the size that the cache
  -- says, 1 to 2^63 - 1 bytes and not just 12. A call of send takes at least 512 bytes and one of
  -- sendfile the whole file, and the client sends again at the first poll. Then the client gets the
  -- header with the size of the file, and the file, and nothing else; its slot is kept with one
  -- request fewer, and the cache of images is as it was.
  pub whole_round :
      (nE : ℕ) (input : Inputs) (t : Thread) (td : ThreadData) (n : ℕ) (cs : List Bytes)
      (more : List Arrival) (name ext agent accept : Bytes) (state : DbStat) (d : Display)
      (es : List Entry) (i fd k l : ℕ) (ss : List Answer) (polls : List Bool) {block q : Bytes}
      → Ready nE t td n
      → input.arrivals ≡ map bytes cs ++ bytes [] ∷ more
      → All IsPiece cs
      → length (concat cs) < 512
      → first_complete [] cs ≡ some (concat cs)
      → Asks Q (padded (concat cs)) name ext agent accept
      → Consistent input.database t.devices
      → Plain agent
      → 0 < length agent
      → length agent ≤ 81
      → fetch input.database (query_of agent) ≡ ok (state, d)
      → convert_float_to_string F (as_float Q.one) ≡ ok block
      → cstr block ≡ ok q
      → Represents t.images es
      → first_match es (path_for name ext q d) 0 ≡ cached_image i
      → cached_file t.images i ≡ ok (fd, length input.content)
      → Takes input k l ss polls
      → (s : Bytes) × Spells (length input.content) s
        × ((t' : Thread) × (handle_client Q F as_float M percent nE input t
              ≡ done t' ((image_start ++ (s ++ image_end)) ++ input.content) ss)
            × Kept nE td t t'
            × (t'.images ≡ t.images))
  whole_round nE input t td n cs more name ext agent accept state d es i fd k l ss polls {block} {q}
        r arrivals pieces short complete w consistent unquoted some_agent agent_short fetched text
        text_q represents found stored takes =
      let (devices, retrieved, still, again) =
        retrieve_dim_from_db_lem Q F as_float input.database t.devices (asked name ext agent accept)
          agent state d consistent refl unquoted some_agent agent_short fetched in
      handle_client_cached Q F as_float M percent nE input t td (replicate 512 0)
        (padded (concat cs)) (asked name ext agent accept) (known name ext agent accept q d) devices
        (wanted name ext accept q d) i fd n k l polls ss r.there r.flagged r.some_left r.in_time
        r.clean arrived (parsed w) (rw displayed at retrieved) refl
        (image_of-known name ext agent accept q d w.name_clean (cstr-Lacks block text_q)) looked_up
        stored takes.stack takes.some_byte takes.small takes.not_twelve takes.answers takes.header
        takes.content takes.again
    where
      arrived :
          receive_request input.arrivals (replicate 512 0)
          ≡ ok (some (request_received, padded (concat cs)))
      arrived = rw arrivals (
          receive_request_lem cs more pieces short
          ∙ ap (λ v. ok (some (verdict v (concat cs)))) complete)

      displayed :
          set_display Q F as_float (asked name ext agent accept) d
          ≡ ok (known name ext agent accept q d)
      displayed =
          set_display-plain Q F as_float (asked name ext agent accept) d name
            (kept (tokens [] accept)) refl refl w.some_type text text_q

      looked_up : find_file_in_cache (path_for name ext q d) t.images.map ≡ ok (cached_image i)
      looked_up =
          find_file_in_cache_lem t.images es (path_for name ext q d) represents (omega arith)
          ∙ ap ok found

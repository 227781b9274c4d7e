-- ===== src/Request/Parse/Whole.antt =====
-- `parse_request` on the whole of a well-formed message.
use image_app.Common.{
  ℕ, ◌≤◌, ◌<◌, ◌≡◌, ◌⊎◌, inl, inr, refl, ap, ◌∙◌, true, some, [], ◌∷◌, ◌++◌, append_assoc, Bytes,
  map, codes, All, Lacks, ok, length, take, before-append, occurs, arith,
}
use image_app.CString.{strstr_block, starts_with}
use image_app.CString.Laws.{cstr-append}
use image_app.Request.Status.{get_cmd, request_received}
use image_app.Request.Lines.{get_command_line, parse_command}
use image_app.Request.Lines.Cuts.{
  agent_header, accept_header, get_command_line_lem, get_user_agent_lem, get_accept_line_lem,
}
use image_app.Request.Name.{parse_name}
use image_app.Request.Name.Paths.{InName}
use image_app.Request.Name.Lines.{query, parse_name_image}
use image_app.Request.Accept.{Quality, tokens}
use image_app.Request.Accept.Sizes.{kept, IsPlain, plain_node, get_list_accept_image_plain}
use image_app.Request.Parse.{Request, new_request, parse_headers, named, dispatch, parse_request}

occurs-append : (b : ℕ) (x y : Bytes) → occurs b (x ++ b ∷ y) ≡ true
occurs-append b [] y = ground arith
occurs-append b (c ∷ x) y = ground (arith, occurs-append b x y)

-- A line that ends within the buffer is cut out whole.
first_line :
    (line t : Bytes)
    → Lacks b'\r' line
    → length (line ++ b'\r' ∷ t) ≤ 512
    → get_command_line (line ++ b'\r' ∷ t) ≡ ok (line ++ 0 ∷ [])
first_line line t clean fits =
    rw
      (
        get_command_line_lem (line ++ b'\r' ∷ t) fits,
        occurs-append b'\r' line t,
        before-append b'\r' line t clean,
      )
      refl

-- A line that starts with GET is a GET.
parse_command-get : (line : Bytes) → parse_command (b'G' ∷ b'E' ∷ b'T' ∷ line) ≡ get_cmd
unfolding parse_command starts_with
parse_command-get line = refl

get-Lacks : (c : ℕ) → (c < 32) ⊎ (c ≡ b'/') → Lacks c (codes "GET ")
get-Lacks c h = (ground arith, (ground arith, (ground arith, (ground arith, tt))))

-- The request line of a GET, up to its carriage return.
abbrev pub request_line : Bytes → Bytes → Bytes → Bytes
request_line name ext b = codes "GET " ++ b'/' ∷ query name ext b

-- A message that starts with this line.
abbrev pub get_message : Bytes → Bytes → Bytes → Bytes → Bytes
get_message name ext b rest = request_line name ext b ++ b'\r' ∷ rest

module _ (Q : Quality) where
  -- Both headers are read from the same message, in whatever order they stand in it.
  parse_headers-plain :
      (message agent accept b c : Bytes) (request : Request Q)
      → strstr_block message agent_header ≡ some (agent_header ++ (agent ++ b'\r' ∷ b))
      → strstr_block message accept_header ≡ some (accept_header ++ (accept ++ b'\r' ∷ c))
      → Lacks b'\r' agent
      → Lacks b'\r' accept
      → Lacks 0 agent
      → Lacks 0 accept
      → length agent ≤ 242
      → length accept ≤ 118
      → 256 ≤ length (agent_header ++ (agent ++ b'\r' ∷ b))
      → 128 ≤ length (accept_header ++ (accept ++ b'\r' ∷ c))
      → All (IsPlain Q) (kept (tokens [] accept))
      → 1 ≤ length (kept (tokens [] accept))
      → length (kept (tokens [] accept)) ≤ 3
      → parse_headers Q message request
        ≡ ok (
          request_received,
          record request {
            user_agent = some agent;
            image_list = some (map (plain_node Q) (kept (tokens [] accept)));
          },
        )
  unfolding parse_headers
  parse_headers-plain message agent accept b c request h1 h2 r1 r2 z1 z2 l1 l2 k1 k2 p one few =
      rw
        (
          get_accept_line_lem message accept c h2 r2 l2 k2,
          get_user_agent_lem message agent b h1 r1 l1 k1,
          cstr-append accept [] z2,
          cstr-append agent [] z1,
          get_list_accept_image_plain Q accept p one few,
        )
        refl

  -- A message of at most 512 bytes that starts with the line "GET /?name.ext …" and holds both
  -- headers, in front of the first zero byte if it has one, is parsed whole, in either order of the headers. The name is shorter than 128 bytes,
  -- without point and space, the extension has at most four bytes and no space, and the line holds
  -- neither a zero byte nor a carriage return. The user agent has at most 242 bytes and the accept
  -- line at most 118, each ends with the first carriage return behind it, with 256 and 128 bytes
  -- of the message from its header on, and neither holds a zero byte. One to three types of the
  -- accept line name neither text nor an application, and these are images without parameters.
  -- The request is then a GET with this name, this user agent, of the extension the point and
  -- three bytes, and a node for each of these types.
  pub parse_request_image :
      (name ext b rest agent accept c d : Bytes)
      → length (get_message name ext b rest) ≤ 512
      → Lacks b'\r' (request_line name ext b)
      → Lacks 0 (query name ext b)
      → Lacks 0 name
      → Lacks 0 ext
      → All InName name
      → Lacks b' ' ext
      → length name < 128
      → length ext ≤ 4
      → strstr_block (get_message name ext b rest) agent_header
        ≡ some (agent_header ++ (agent ++ b'\r' ∷ c))
      → strstr_block (get_message name ext b rest) accept_header
        ≡ some (accept_header ++ (accept ++ b'\r' ∷ d))
      → Lacks b'\r' agent
      → Lacks b'\r' accept
      → Lacks 0 agent
      → Lacks 0 accept
      → length agent ≤ 242
      → length accept ≤ 118
      → 256 ≤ length (agent_header ++ (agent ++ b'\r' ∷ c))
      → 128 ≤ length (accept_header ++ (accept ++ b'\r' ∷ d))
      → All (IsPlain Q) (kept (tokens [] accept))
      → 1 ≤ length (kept (tokens [] accept))
      → length (kept (tokens [] accept)) ≤ 3
      → parse_request Q (get_message name ext b rest)
        ≡ ok (
          request_received,
          record (new_request Q) {
            cmd = get_cmd;
            image_name = some name;
            ext = some (b'.' ∷ take 3 ext);
            user_agent = some agent;
            image_list = some (map (plain_node Q) (kept (tokens [] accept)));
          },
        )
  unfolding parse_request dispatch named
  parse_request_image name ext b rest agent accept c d fits clean zeros n0 e0 n e nl el h1 h2 r1 r2
        z1 z2 l1 l2 k1 k2 p one few =
      let whole : Lacks 0 (request_line name ext b) =
        (omega arith, (omega arith, (omega arith, (omega arith, (omega arith, zeros))))) in
      let named_line =
        ap parse_name (append_assoc (codes "GET ") (b'/' ∷ query name ext b) (0 ∷ []))
        ∙ parse_name_image (codes "GET ") name ext b [] (get-Lacks 0 (inl (omega arith)))
            (get-Lacks b'/' (inr refl)) zeros n0 e0 n e nl el in
      rw
        (
          first_line (request_line name ext b) rest clean fits,
          cstr-append (request_line name ext b) [] whole,
          named_line,
          parse_command-get (b' ' ∷ b'/' ∷ query name ext b),
        )
        (parse_headers-plain (get_message name ext b rest) agent accept c d
          (named Q (record (new_request Q) { cmd = get_cmd }) (some (name, b'.' ∷ take 3 ext))) h1
          h2 r1 r2 z1 z2 l1 l2 k1 k2 p one few)

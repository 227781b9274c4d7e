-- ===== src/Strings/Message.antt =====
-- `build_message` of Strings.c: the header of a response, written into the caller's `char msg[512]`.
pub mod Layout
pub mod ErrorPage
use image_app.Common.{
  ℕ, zero, suc, ◌+◌, ◌≡◌, refl, Bool, true, false, Option, none, some, List, [], ◌∷◌, Bytes, codes,
  Outcome, ok, exit, fault, ◌>>=◌, store, memcpy_at, length, ◌==◌, if◌then◌else◌, ℤ, pos, negsuc,
}
use image_app.CString.{cstr}
use image_app.Strings.Decimal.{convert_long_to_string}

-- The buffer and the number of bytes written so far.
pub record Cursor : Type 0 where
  pub msg : Bytes
  pub len : ℕ

-- `memcpy(msg + len, s, strlen(s)); len += strlen(s);`
put : Cursor → Bytes → Outcome Cursor
put c s = memcpy_at c.msg c.len s >>= λ m. ok (record { msg = m; len = c.len + length s })

pub put_all : Cursor → List Bytes → Outcome Cursor
put_all c [] = ok c
put_all c (p ∷ ps) = put c p >>= λ d. put_all d ps

abbrev pub crlf : Bytes
crlf = codes "\r\n"

-- The pieces of a response with an image. The media type is the constant "jpeg" in the source.
abbrev image_pieces : Bytes → List Bytes
image_pieces char_size =
    codes "HTTP/1.1 200 OK"
    ∷ crlf
    ∷ codes "Server: 127.0.0.1"
    ∷ crlf
    ∷ codes "Content-Type: image/"
    ∷ codes "jpeg"
    ∷ crlf
    ∷ codes "Content-Transfer-Encoding: binary"
    ∷ crlf
    ∷ codes "Content-Length: "
    ∷ char_size
    ∷ crlf
    ∷ codes "Keep-Alive: timeout=5, max=10"
    ∷ codes "\r\n\r\n"
    ∷ []

-- The pieces of an error page, behind its status line.
abbrev error_pieces : Bytes → Bytes → List Bytes
error_pieces status char_size =
    status
    ∷ crlf
    ∷ codes "Server: 127.0.0.1"
    ∷ crlf
    ∷ codes "Content-Type: text/html"
    ∷ crlf
    ∷ codes "Content-Length: "
    ∷ char_size
    ∷ crlf
    ∷ codes "Connection: Closed"
    ∷ codes "\r\n\r\n"
    ∷ []

abbrev pub bad_request_status : Bytes
bad_request_status = codes "HTTP/1.1 400 Bad Request"

abbrev pub unavailable_status : Bytes
unavailable_status = codes "HTTP/1.1 503 Service Unavailable"

-- `file_size == (strlen(msg_error) + 1)`, a comparison of unsigned numbers: a negative size is
-- converted to one of at least 2 ^ 63, and no string is as long.
is_error_size : ℤ → Bytes → Bool
is_error_size (pos n) msg_error = n == length msg_error + 1
is_error_size (negsuc n) msg_error = false

-- The branch without an image; strlen(NULL) is undefined. Both tests are the same in the source.
error_header : ℤ → Bytes → Cursor → Option Bytes → Outcome Cursor
error_header file_size char_size c none = fault
error_header file_size char_size c (some msg_error) =
    if is_error_size file_size msg_error
    then put_all c (error_pieces bad_request_status char_size)
    else if is_error_size file_size msg_error
    then put_all c (error_pieces unavailable_status char_size)
    else ok c

pub header {ℓ} : {A : Type ℓ} → ℤ → Bytes → Cursor → Option A → Option Bytes → Outcome Cursor
unfolding put put_all error_header is_error_size
header file_size char_size c none msg_error = error_header file_size char_size c msg_error
header file_size char_size c (some image) msg_error = put_all c (image_pieces char_size)

-- Of the image only whether the pointer is null matters, and `mime_type` is never read. The result
-- is the buffer and the length that is returned.
unfoldable pub build_message {ℓ} :
    {A : Type ℓ} → ℤ → Bytes → Bytes → Option A → Option Bytes → Outcome (Bytes × ℕ)
unfolding header
build_message file_size mime_type msg image msg_error = do
  block ← convert_long_to_string file_size
  char_size ← cstr block
  c ← header file_size char_size (record { msg = msg; len = 0 }) image msg_error
  m ← store c.msg c.len 0
  ok (m, c.len)

-- ===== src/Transfer/Whole.antt =====
-- What the client gets of an image while the kernel takes everything it is given at once.
use native.Mathlib.Nat.{zero-add}
use image_app.Common.{
  ℕ, ◌+◌, ◌-◌, ◌^◌, ◌<◌, ◌≤◌, ◌≡◌, refl, ap, true, false, some, none, List, [], ◌∷◌, ◌++◌,
  append-nil, Bytes, ok, read_at, ltb, lt→ltb, ◌==◌, if◌then◌else◌, length, length-append, take,
  pos, arith,
}
use image_app.CString.{cstr}
use image_app.Strings.Decimal.Fill.{Spells}
use image_app.Strings.Message.Layout.{build_message_image, image_start, image_end}
use image_app.Request.Status.{get_cmd}
use image_app.Transfer.{
  Answer, room, done, lesser, send_headers, send_file_fd, attempts, Image, after_headers,
  send_image, error_sending_code, connection_closed_code,
}

leb-ltb : (a b : ℕ) → b ≤ a → ltb a b ≡ false
leb-ltb a b h = ground arith

pub lesser_all : (k n : ℕ) → n ≤ k → lesser k n ≡ n
lesser_all k n h = ground arith

-- A string at the start of its block can be read in one piece.
pub read_at-cstr : (m text : Bytes) → cstr m ≡ ok text → read_at m 0 (length text) ≡ ok text
unfolding cstr
read_at-cstr [] text h = absurd (cc)
read_at-cstr (c ∷ m) [] h = refl
read_at-cstr (c ∷ m) (d ∷ text) h = ground (arith, read_at-cstr m text)

pub ended_headers :
    (m : Bytes) (n len sent : ℕ) (ss : List Answer)
    → len ≤ sent
    → send_headers m n len ss sent ≡ done true [] ss
unfolding send_headers
ended_headers m n len sent [] h = rw (leb-ltb sent len h)
ended_headers m n len sent (Answer.pipe ∷ ss) h = rw (leb-ltb sent len h)
ended_headers m n len sent (Answer.again ∷ ss) h = rw (leb-ltb sent len h)
ended_headers m n len sent (Answer.other ∷ ss) h = rw (leb-ltb sent len h)
ended_headers m n len sent (room k ∷ ss) h = rw (leb-ltb sent len h)

pub send_headers_whole :
    (m text : Bytes) (k : ℕ) (ss : List Answer)
    → cstr m ≡ ok text
    → 0 < length text
    → length text ≤ k
    → send_headers m (length text) (length text) (room k ∷ ss) 0 ≡ done true text ss
unfolding send_headers
send_headers_whole m text k ss h some_byte fits = rw (
  lesser_all k (length text) fits,
  lt→ltb 0 (length text) some_byte,
  read_at-cstr m text h,
  ended_headers m (length text) (length text) (0 + length text) ss (omega arith),
  append-nil,
)

take_all : (xs : Bytes) → take (length xs) xs ≡ xs
take_all [] = refl
take_all (x ∷ xs) = ap (◌∷◌ x) (take_all xs)

ended_file :
    (file : Bytes) (size len offset : ℕ) (ss : List Answer)
    → size ≤ len
    → send_file_fd file size ss len offset ≡ done len [] ss
unfolding send_file_fd
ended_file file size len offset [] h = rw (leb-ltb len size h)
ended_file file size len offset (Answer.pipe ∷ ss) h = rw (leb-ltb len size h)
ended_file file size len offset (Answer.again ∷ ss) h = rw (leb-ltb len size h)
ended_file file size len offset (Answer.other ∷ ss) h = rw (leb-ltb len size h)
ended_file file size len offset (room k ∷ ss) h = rw (leb-ltb len size h)

send_file_fd_whole :
    (file : Bytes) (k : ℕ) (ss : List Answer)
    → 0 < length file
    → length file ≤ k
    → send_file_fd file (length file) (room k ∷ ss) 0 0 ≡ done (length file) file ss
unfolding send_file_fd
send_file_fd_whole file k ss some_byte fits =
    let all_left : length file - 0 ≡ length file = omega arith in
    rw (
      all_left,
      lesser_all k (length file) fits,
      lt→ltb 0 (length file) some_byte,
      take_all file,
      ended_file file (length file) (0 + length file) (0 + length file + length file) ss
          (omega arith),
      append-nil,
      zero-add,
    )

-- The value that `send_image` returns after a file of `n` bytes has gone out.
unfoldable pub image_code : ℕ → ℕ
image_code n =
    if n == error_sending_code
    then error_sending_code
    else (if n == connection_closed_code then connection_closed_code else 0)

attempts_whole :
    (file : Bytes) (k : ℕ) (ss : List Answer)
    → 0 < length file
    → length file ≤ k
    → attempts file (length file) (room k ∷ ss) 5 ≡ done (image_code (length file)) file ss
unfolding attempts image_code
attempts_whole file k ss some_byte fits =
    rw (send_file_fd_whole file k ss some_byte fits) (ground (arith, append-nil file))

pub cstr-length : (m text : Bytes) → cstr m ≡ ok text → length text < length m
unfolding cstr
cstr-length [] text h = absurd (cc)
cstr-length (c ∷ m) [] h = omega arith
cstr-length (c ∷ m) (d ∷ text) h = ground (arith, cstr-length m text)

-- An image whose size is known, as `get_file_size` reads it.
abbrev pub sized : Bytes → Bytes → Image
sized ext file = record { file_size = length file; ext = ext; file = file }

-- When one call of send takes at least 512 bytes and one call of sendfile the whole file, which
-- is not empty, the client of a GET gets the header, with the size of the file as its length,
-- and then the whole file, byte by byte, and nothing else, whatever was in the buffer. The value
-- returned is OK, except for files of 11 and of 12 bytes.
pub send_image_get :
    (msg ext file : Bytes) (k l : ℕ) (ss : List Answer)
    → length msg ≡ 512
    → 0 < length file
    → length file < 2 ^ 63
    → 512 ≤ k
    → length file ≤ l
    → (s : Bytes) × Spells (length file) s
      × (send_image msg (sized ext file) get_cmd (room k ∷ room l ∷ ss)
          ≡ done (some (image_code (length file))) ((image_start ++ (s ++ image_end)) ++ file) ss)
unfolding send_image after_headers
send_image_get msg ext file k l ss size some_byte small header_fits file_fits =
    let image = sized ext file in
    let (s, spells, (m, built, text, whole)) =
      build_message_image (pos (length file)) ext msg image none size small in
    let header = image_start ++ (s ++ image_end) in
    let long : 0 < length header = omega (arith, length-append image_start (s ++ image_end)) in
    (
      s,
      spells,
      rw (
        built,
        text,
        send_headers_whole m header k (room l ∷ ss) text long
            (omega (arith, cstr-length m header text)),
        attempts_whole file l ss some_byte file_fits,
        append-nil,
      ),
    )

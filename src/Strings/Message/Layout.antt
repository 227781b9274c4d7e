-- ===== src/Strings/Message/Layout.antt =====
-- What `build_message` leaves in the buffer, on each branch.
use image_app.Common.{
  ℕ, ◌+◌, ◌^◌, ◌≤◌, ◌<◌, ◌≡◌, ap, ◌∙◌, Option, some, List, [], ◌∷◌, ◌++◌, append_assoc, append-nil,
  Bytes, codes, Lacks, All-append, concat, Outcome, ok, ◌>>=◌, store, memcpy-append, store-append,
  drop-drop, drop, length, length-append, length-drop, ℤ, pos_part, arith,
}
use image_app.CString.{cstr}
use image_app.CString.Laws.{cstr-append}
use image_app.Strings.Decimal.Fill.{
  digit-Lacks, Spells, decimal, decimal-Spells, length-decimal-le, convert_long_to_string-decimal,
}
use image_app.Strings.Message.{Cursor, put, put_all, image_pieces, header, build_message}

-- The buffer `w ++ r` with `w` written.
pub at : Bytes → Bytes → Cursor
at w r = record { msg = w ++ r; len = length w }

-- `put_all` writes the pieces one behind the other, if the buffer has room for them.
put_all-concat :
    (ps : List Bytes) (w r : Bytes)
    → length (concat ps) ≤ length r
    → put_all (at w r) ps ≡ ok (at (w ++ concat ps) (drop (length (concat ps)) r))
unfolding put put_all at
put_all-concat [] w r h = rw append-nil
put_all-concat (p ∷ ps) w r h =
    rw (memcpy-append p w r small, moved)
      (put_all-concat ps (w ++ p) (drop (length p) r) rest ∙ ap ok joined)
  where
    small : length p ≤ length r
    small = omega (arith, length-append p (concat ps))

    rest : length (concat ps) ≤ length (drop (length p) r)
    rest = omega (arith, length-append p (concat ps), length-drop (length p) r)

    moved :
        ◌≡◌ {A = Cursor}
          (record { msg = w ++ (p ++ drop (length p) r); len = length w + length p })
          (record { msg = w ++ p ++ drop (length p) r; len = length (w ++ p) })
    moved = rw (append_assoc, length-append)

    joined :
        at (w ++ p ++ concat ps) (drop (length (concat ps)) (drop (length p) r))
        ≡ at (w ++ concat (p ∷ ps)) (drop (length (concat (p ∷ ps))) r)
    joined = rw (append_assoc w p (concat ps), drop-drop, length-append p (concat ps))

-- The buffer of a result: 512 bytes that hold the text and its terminator. The length returned is
-- that of the text.
abbrev pub Holds : Outcome (Bytes × ℕ) → Bytes → Type 0
Holds r text = (m : Bytes) × (r ≡ ok (m, length text)) × (cstr m ≡ ok text) × (length m ≡ 512)

-- The last step, `msg[len] = '\0'`.
pub finish : Cursor → Outcome (Bytes × ℕ)
finish c = store c.msg c.len 0 >>= λ m. ok (m, c.len)

finish-Holds :
    (text r : Bytes)
    → length text + length r ≡ 512
    → length text < 512
    → Lacks 0 text
    → Holds (finish (at text r)) text
unfolding at finish
finish-Holds text [] e h l = absurd (omega arith)
finish-Holds text (d ∷ r) e h l = (
  text ++ 0 ∷ r,
  rw (store-append text r d 0),
  cstr-append text r l,
  omega (arith, length-append text (0 ∷ r)),
)

-- A header whose pieces fit, with a byte to spare, is written whole.
pub written-Holds :
    (ps : List Bytes) (msg : Bytes)
    → length msg ≡ 512
    → length (concat ps) < 512
    → Lacks 0 (concat ps)
    → Holds (put_all (record { msg = msg; len = 0 }) ps >>= finish) (concat ps)
unfolding at
written-Holds ps msg e h l = rw (put_all-concat ps [] msg (omega arith)) (
    finish-Holds (concat ps) (drop (length (concat ps)) msg)
      (omega (arith, length-drop (length (concat ps)) msg)) h l)

-- The part of `build_message` behind the conversion of the size.
pub build_message-header {ℓ} :
    {A : Type ℓ} (file_size : ℤ) (mime msg : Bytes) (image : Option A) (e : Option Bytes)
    → build_message file_size mime msg image e ≡ (
        header file_size (decimal (pos_part file_size)) (record { msg = msg; len = 0 }) image e
        >>= finish)
unfolding build_message finish
build_message-header file_size mime msg image e = rw (
  convert_long_to_string-decimal file_size,
  cstr-append (decimal n) [] (digit-Lacks (decimal n) (decimal-Spells n).digits),
)
  where
    n : ℕ
    n = pos_part file_size

pub length-size : (n : ℤ) → pos_part n < 2 ^ 63 → length (decimal (pos_part n)) ≤ 19
length-size n h = length-decimal-le 19 (pos_part n) (omega arith)

abbrev pub image_start : Bytes
image_start =
    codes
      "HTTP/1.1 200 OK\r\nServer: 127.0.0.1\r\nContent-Type: image/jpeg\r\nContent-Transfer-Encoding: binary\r\nContent-Length: "

abbrev pub image_end : Bytes
image_end = codes "\r\nKeep-Alive: timeout=5, max=10\r\n\r\n"

-- With an image, whatever its media type, a buffer of 512 bytes is enough for the header of every
-- size that an off_t holds: the text is the fixed one of a JPEG with the decimal numeral of the size
-- (empty if the size is not positive), nothing is written outside the buffer, and the length of the
-- text is returned.
pub build_message_image {ℓ} :
    {A : Type ℓ} (file_size : ℤ) (mime msg : Bytes) (image : A) (e : Option Bytes)
    → length msg ≡ 512
    → pos_part file_size < 2 ^ 63
    → (s : Bytes) × Spells (pos_part file_size) s
      × Holds (build_message file_size mime msg (some image) e) (image_start ++ (s ++ image_end))
unfolding header
build_message_image file_size mime msg image e room small = (
  s,
  decimal-Spells n,
  rw (build_message-header file_size mime msg (some image) e)
      (written-Holds (image_pieces s) msg room fits clean),
)
  where
    n : ℕ
    n = pos_part file_size

    s : Bytes
    s = decimal n

    fits : length (concat (image_pieces s)) < 512
    fits = omega (arith, length-append s image_end, length-size file_size small)

    clean : Lacks 0 (concat (image_pieces s))
    clean =
        All-append _ image_start (s ++ image_end) (omega arith)
          (All-append _ s image_end (digit-Lacks s (decimal-Spells n).digits) (omega arith))

-- The text of a result is the one that is read back from its buffer.
pub Holds-text :
    (r : Outcome (Bytes × ℕ)) (text : Bytes) {m t : Bytes} {n : ℕ}
    → Holds r text
    → r ≡ ok (m, n)
    → cstr m ≡ ok t
    → t ≡ text
Holds-text r text (m', e', c, _) e d = ground arith

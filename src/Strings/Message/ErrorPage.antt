-- ===== src/Strings/Message/ErrorPage.antt =====
-- The branch of `build_message` without an image: the status line of the error pages.
use image_app.Common.{
  ℕ, ◌+◌, ◌^◌, ◌<◌, ◌≡◌, refl, true, false, none, some, [], ◌++◌, Bytes, codes, Lacks, All-append,
  concat, ok, length, length-append, ℤ, pos, pos_part, arith, inl, inr, Bool-cases,
}
use image_app.CString.{cstr, starts_with}
use image_app.Strings.Decimal.Fill.{Spells, decimal, decimal-Spells, digit-Lacks}
use image_app.Strings.Message.{
  error_pieces, bad_request_status, unavailable_status, is_error_size, error_header, header,
  build_message,
}
use image_app.Strings.Message.Layout.{
  Holds, written-Holds, build_message-header, length-size, Holds-text,
}

abbrev pub error_start : Bytes
error_start =
    codes
      "HTTP/1.1 400 Bad Request\r\nServer: 127.0.0.1\r\nContent-Type: text/html\r\nContent-Length: "

abbrev pub error_end : Bytes
error_end = codes "\r\nConnection: Closed\r\n\r\n"

error_text : Bytes → Bytes
error_text s = error_start ++ (s ++ error_end)

module _ (file_size : ℤ) (mime msg e : Bytes) (room : length msg ≡ 512)
    (small : pos_part file_size < 2 ^ 63) where
  s : Bytes
  s = decimal (pos_part file_size)

  matching-Holds :
      is_error_size file_size e ≡ true
      → Holds (build_message {A = ℕ} file_size mime msg none (some e)) (error_text s)
  unfolding header error_header error_text s
  matching-Holds hit =
      rw (build_message-header {A = ℕ} file_size mime msg none (some e), hit)
        (written-Holds (error_pieces bad_request_status s) msg room fits clean)
    where
      fits : length (concat (error_pieces bad_request_status s)) < 512
      fits = omega (arith, length-append s error_end, length-size file_size small)

      clean : Lacks 0 (concat (error_pieces bad_request_status s))
      clean = All-append _ error_start (s ++ error_end) (omega arith) (
          All-append _ s error_end (digit-Lacks s (decimal-Spells (pos_part file_size)).digits)
            (omega arith))

  other-Holds :
      is_error_size file_size e ≡ false
      → Holds (build_message {A = ℕ} file_size mime msg none (some e)) []
  unfolding header error_header
  other-Holds miss =
      rw (build_message-header {A = ℕ} file_size mime msg none (some e), miss)
        (written-Holds [] msg room (omega arith) tt)

-- For an error page shorter than 2^63 - 1 and the size that the callers pass, one more than its
-- length, the header is the fixed one of status 400 with the decimal numeral of that size; it
-- fits into the 512 bytes.
pub build_message_bad_request :
    (mime msg e : Bytes)
    → length msg ≡ 512
    → length e + 1 < 2 ^ 63
    → (s : Bytes) × Spells (length e + 1) s
      × Holds
          (build_message {A = ℕ} (pos (length e + 1)) mime msg none (some e))
          (error_start ++ (s ++ error_end))
unfolding error_text s is_error_size
build_message_bad_request mime msg e room small = (
  decimal (length e + 1),
  decimal-Spells (length e + 1),
  matching-Holds (pos (length e + 1)) mime msg e room small (ground arith),
)

-- Whatever the page and the size, below 2^63, the header that is built without an image does not
-- begin with "HTTP/1.1 503 Service Unavailable".
pub build_message_never_unavailable :
    (file_size : ℤ) (mime msg e : Bytes) {m : Bytes} {n : ℕ} {text : Bytes}
    → length msg ≡ 512
    → pos_part file_size < 2 ^ 63
    → build_message {A = ℕ} file_size mime msg none (some e) ≡ ok (m, n)
    → cstr m ≡ ok text
    → starts_with unavailable_status text ≡ false
unfolding error_text
build_message_never_unavailable file_size mime msg e {text = text} room small r t =
    elim (Bool-cases (is_error_size file_size e)) [
      | inl hit ↦
          let same = Holds-text _ _ (matching-Holds file_size mime msg e room small hit) r t in
          rw same (unfold starts_with in refl)
      | inr miss ↦
          let same = Holds-text _ _ (other-Holds file_size mime msg e room small miss) r t in
          rw same (unfold starts_with in refl)
    ]

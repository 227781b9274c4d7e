-- ===== src/Tests/Strings.antt =====
-- Strings.c: numerals, names and headers.
use image_app.Common.{
  ℕ, ◌≡◌, refl, false, some, none, [], ◌∷◌, ◌++◌, Bytes, codes, ok, ◌>>=◌, pos, pos_part, replicate,
  length-replicate, arith, length,
}
use image_app.CString.{cstr, starts_with}
use image_app.Strings.Decimal.{convert_int_to_string}
use image_app.Strings.Decimal.Fill.{Spells, convert_int_to_string_lem}
use image_app.Strings.Message.{build_message, unavailable_status}
use image_app.Strings.Message.Layout.{Holds, build_message_image, image_start, image_end}
use image_app.Strings.Message.ErrorPage.{
  build_message_bad_request, build_message_never_unavailable, error_start, error_end,
}
use image_app.Strings.CacheName.{convert_float_to_string}
use image_app.Strings.CacheName.Quality.{convert_float_to_string-fraction}
use image_app.ParseInt.{parse_int}
use image_app.ParseInt.RoundTrip.{parse_int-convert_int_to_string}
use image_app.Tests.Data.{fixed}

convert_int_to_string_lem_example :
    (s : Bytes) × (convert_int_to_string (pos 1080) ≡ ok (s ++ 0 ∷ []))
    × Spells 1080 s
    × (pos_part (pos 1080) ≡ 0 → s ≡ [])
convert_int_to_string_lem_example = convert_int_to_string_lem (pos 1080)

parse_int-convert_int_to_string_example :
    (convert_int_to_string (pos 1080) >>= λ block. cstr block >>= λ s. ok (parse_int s))
    ≡ ok (pos 1080)
parse_int-convert_int_to_string_example = parse_int-convert_int_to_string 1080 (omega arith)

abbrev buffer : Bytes
buffer = replicate 512 7

buffer-length : length buffer ≡ 512
buffer-length = length-replicate {A = ℕ} 512 7

build_message_image_example :
    (s : Bytes) × Spells 90210 s
    × Holds
        (build_message {A = ℕ} (pos 90210) (codes ".jpg") buffer (some 1) none)
        (image_start ++ (s ++ image_end))
build_message_image_example =
    build_message_image (pos 90210) (codes ".jpg") buffer 1 none (buffer-length) (omega arith)

abbrev page : Bytes
page = codes "<html></html>"

abbrev sent_page :
    (s : Bytes) × Spells 14 s
    × Holds
        (build_message {A = ℕ} (pos 14) (codes "text/html") buffer none (some page))
        (error_start ++ (s ++ error_end))
sent_page = build_message_bad_request (codes "text/html") buffer page (buffer-length) (omega arith)

build_message_never_unavailable_example :
    starts_with unavailable_status (error_start ++ (sent_page.0 ++ error_end)) ≡ false
build_message_never_unavailable_example =
    build_message_never_unavailable (pos 14) (codes "text/html") buffer page (buffer-length)
      (omega arith) sent_page.2.1 sent_page.2.2

-- A quality of 0.8.
abbrev eight :
    (b : Bytes) × (s : Bytes) × (convert_float_to_string fixed 80000000 ≡ ok b)
    × (cstr b ≡ ok (codes "0." ++ s))
    × Spells 80000000 s
eight = convert_float_to_string-fraction fixed 80000000 refl (omega arith) (omega arith)

-- ===== src/Tests/Whole.antt =====
-- HttpServer.c: a whole round, from the message to the answer.
use image_app.Common.{
  ◌≡◌, refl, some, [], ◌∷◌, ◌++◌, Bytes, codes, ok, pos, replicate, length-replicate, length, ℕ,
  ◌-◌, arith,
}
use image_app.CString.{cstr, strstr, strstr_block, starts_with}
use image_app.Request.Accept.{tokens, discarded}
use image_app.Request.Accept.Sizes.{kept}
use image_app.Request.Receive.{bytes, is_complete}
use image_app.Request.Receive.Chunks.{first_complete, padded}
use image_app.ParseInt.{parse_int}
use image_app.Strings.CacheName.{convert_float_to_string}
use image_app.Strings.Decimal.Fill.{Spells, decimal}
use image_app.Strings.Message.Layout.{image_start, image_end}
use image_app.DeviceCache.{Display, Database, empty_cache, fetch, query_of, value_db}
use image_app.DeviceCache.Entries.{empty_cache-Consistent}
use image_app.ImageCache.{cached_image}
use image_app.ImageCache.Lookup.{first_match}
use image_app.Transfer.{done}
use image_app.Client.{Thread, Inputs}
use image_app.Client.Round.{handle_client}
use image_app.Client.Round.Accounts.{Kept}
use image_app.Client.Round.Whole.{Asks, path_for, whole_round}
use image_app.Tests.Data.{fixed, fixed_quality}
use image_app.Tests.Threads.{
  no_magick, client_slot, cat, one_image, one_image-Represents, thread, message_text, ask,
  cat_stored,
}

-- A database with one answer: 25 colors, 1080 by 1920.
abbrev phones : Database
phones = λ q. ok (
    some (codes "1" ∷ codes "Nexus" ∷ codes "1920" ∷ codes "1080" ∷ [] ∷ [] ∷ [] ∷ codes "25" ∷ []))

abbrev phone : Display
phone = record { colors = pos 25; width = pos 1080; height = pos 1920 }

phone_fetched : fetch phones (query_of (codes "Nexus")) ≡ ok (value_db, phone)
unfolding fetch parse_int
phone_fetched = refl

-- The message in two pieces.
abbrev first_piece : Bytes
first_piece = codes "GET /?cat.jpg HTTP/1.1\r\nUser-Ag"

abbrev second_piece : Bytes
second_piece = codes "ent: Nexus\r\nAccept: image/png\r\nConnection: close\r\n"

abbrev sending : Inputs
sending = record ask {
  arrivals = bytes first_piece ∷ bytes second_piece ∷ bytes [] ∷ [];
  database = phones;
}

abbrev stranger : Thread
stranger = record thread { devices = empty_cache }

message_complete :
    first_complete [] (first_piece ∷ second_piece ∷ []) ≡ some (first_piece ++ second_piece)
unfolding first_complete is_complete strstr strstr_block starts_with
message_complete = refl

abbrev spare : Bytes
spare = replicate (512 - length message_text) 0

cat-Asks :
    Asks fixed_quality
      (padded (first_piece ++ second_piece))
      (codes "cat")
      (codes "jpg")
      (codes "Nexus")
      (codes "image/png")
unfolding strstr strstr_block starts_with kept tokens discarded
cat-Asks = record {
  b = codes "HTTP/1.1";
  rest = codes "\nUser-Agent: Nexus\r\nAccept: image/png\r\nConnection: close\r\n" ++ spare;
  behind_agent = codes "\nAccept: image/png\r\nConnection: close\r\n" ++ spare;
  behind_accept = codes "\nConnection: close\r\n" ++ spare;
  starts = refl;
  fits = omega arith;
  one_line = omega arith;
  line_clean = omega arith;
  name_clean = omega arith;
  ext_clean = omega arith;
  name_whole = omega arith;
  ext_whole = omega arith;
  name_short = omega arith;
  ext_short = omega arith;
  agent_there = refl;
  accept_there = refl;
  agent_line = omega arith;
  accept_line = omega arith;
  agent_clean = omega arith;
  accept_clean = omega arith;
  agent_short = omega arith;
  accept_short = omega arith;
  behind_agent_long = omega arith;
  behind_accept_long = omega arith;
  plain = ((omega arith, refl), tt);
  some_type = omega arith;
  few_types = omega arith;
}

quality_text : convert_float_to_string fixed 100000000 ≡ ok (codes "1.00000000" ++ 0 ∷ [])
unfolding convert_float_to_string
quality_text = refl

quality_string : cstr (codes "1.00000000" ++ 0 ∷ []) ≡ ok (codes "1.00000000")
unfolding cstr
quality_string = refl

cat_first :
    first_match
      (cat ∷ [])
      (path_for fixed_quality fixed
        (λ x. x)
        no_magick
        (λ x. x)
        (codes "cat")
        (codes "jpg")
        (codes "1.00000000")
        phone)
      0
    ≡ cached_image 0
unfolding first_match decimal strstr strstr_block starts_with
cat_first = refl

whole_round_example :
    (s : Bytes) × Spells 4 s
    × ((t' : Thread) × (handle_client fixed_quality fixed
            (λ x. x)
            no_magick
            (λ x. x)
            0
            sending
            stranger
          ≡ done t' ((image_start ++ (s ++ image_end)) ++ (1 ∷ 2 ∷ 3 ∷ 4 ∷ [])) [])
        × Kept 0 client_slot stranger t'
        × (t'.images ≡ one_image))
whole_round_example =
    whole_round fixed_quality fixed (λ x. x) no_magick (λ x. x) 0 sending stranger client_slot 3
      (first_piece ∷ second_piece ∷ []) [] (codes "cat") (codes "jpg") (codes "Nexus")
      (codes "image/png") value_db phone (cat ∷ []) 0 7 512 4 [] []
      (record { there = refl; flagged = refl; some_left = refl; in_time = refl; clean = refl }) refl
      (omega arith) (omega arith) message_complete cat-Asks (empty_cache-Consistent phones)
      (omega arith) (omega arith) (omega arith) phone_fetched quality_text quality_string
      one_image-Represents cat_first cat_stored
      (record {
        stack = length-replicate {A = ℕ} 512 0;
        some_byte = omega arith;
        small = omega arith;
        not_twelve = omega arith;
        answers = refl;
        header = omega arith;
        content = omega arith;
        again = refl;
      })

-- ===== src/Tests/Images.antt =====
-- HandleImage.c and Log.c: an image that is missing, one that is made and kept, and a line of the log.
use image_app.Common.{
  ℕ, ◌+◌, ◌≡◌, refl, true, none, some, [], ◌∷◌, ◌++◌, Bytes, codes, ok, ◌>>=◌, pos, arith, ◌↔◌,
  if◌then◌else◌, replicate,
}
use image_app.Tests.Data.{fixed_quality}
use image_app.CString.{same}
use image_app.Request.Accept.{png}
use image_app.ImageCache.{FileCache, not_cached_image, find_file_in_cache}
use image_app.ImageCache.Lookup.{first_match}
use image_app.ImageCache.State.{Represents}
use image_app.Image.{Magick, Disk, ImageInfo, get_image_to_send, cached_image_code, make_image}
use image_app.Image.Served.{
  refused, jpeg_path, get_image_to_send_not_present, get_image_to_send_again,
}
use image_app.Files.{image_list, list_from, list_line, is_hidden, padded}
use image_app.Files.Listing.{visible, image_list_lem}
use image_app.Log.{percent_d}
use image_app.Strings.Decimal.Fill.{decimal}

-- ImageMagick, where only cat.jpg can be read.
abbrev one_cat : Magick
one_cat = record {
  Wand = ℕ;
  blank = 0;
  read = λ path. if same path (codes "../images/cat.jpg") then some 1 else none;
  width = λ w. 640;
  height = λ w. 480;
  colors = λ w. 256;
  write = λ w f q x y c. true;
}

abbrev Info : Type 0
Info = ImageInfo fixed_quality one_cat (λ x. x)

abbrev cat : Info
cat = record {
  width = pos 1080;
  height = pos 0;
  colors = pos 0;
  image_name = codes "cat";
  ext = codes ".jpg";
  image_list = record { type = codes "image/png"; q = 100000000; extension = png } ∷ [];
  cache_path = codes "../cache/cat.jpg";
  image_path = codes "../images/cat.jpg";
}

abbrev disk : Disk
disk = record { opened = pos 7; size = some 90210 }

abbrev empty : FileCache
empty = record {
  map = replicate 16384 0;
  seek = 0;
  fds = replicate 128 0;
  sizes = replicate 128 0;
  end = 0;
}

empty-Represents : Represents empty []
empty-Represents = record {
  spare = 16384;
  file = refl;
  whole = refl;
  paths = tt;
  seek_end = refl;
  fd_end = refl;
  fd_table = (replicate 128 0, refl, refl);
  size_table = (replicate 128 0, refl, refl);
}

abbrev dog : Info
dog = record cat { image_name = codes "dog"; image_path = codes "../images/dog.jpg" }

get_image_to_send_not_present_example :
    (get_image_to_send fixed_quality one_cat (λ x. x) disk empty dog not_cached_image
      ≡ ok (refused fixed_quality one_cat (λ x. x) empty))
    ↔ ((one_cat.read dog.image_path ≡ none)
        × (dog.ext ≡ codes ".jpg")
        × (one_cat.read (jpeg_path fixed_quality one_cat (λ x. x) dog) ≡ none))
get_image_to_send_not_present_example =
    get_image_to_send_not_present fixed_quality one_cat (λ x. x) disk empty dog (omega arith)

cat_made : make_image fixed_quality one_cat (λ x. x) cat 1 ≡ ok tt
unfolding make_image
cat_made = refl

cat_read : one_cat.read cat.image_path ≡ some 1
unfolding same
cat_read = refl

get_image_to_send_again_example :
    (d : FileCache) × ((find_file_in_cache cat.cache_path empty.map
        >>= get_image_to_send fixed_quality one_cat (λ x. x) disk empty cat)
      ≡ ok (record { fd = pos 7; file_size = 90210; returned = none; cache = d }))
    × ((disk' : Disk) (image' : Info)
        → image'.cache_path ≡ cat.cache_path
        → (find_file_in_cache image'.cache_path d.map
            >>= get_image_to_send fixed_quality one_cat (λ x. x) disk' d image')
          ≡ ok (record {
            fd = pos 7;
            file_size = 90210;
            returned = some cached_image_code;
            cache = d;
          }))
get_image_to_send_again_example =
    get_image_to_send_again fixed_quality one_cat (λ x. x) disk empty [] cat 1 7 90210
      empty-Represents
      (record { clean = omega arith; short = omega arith; some_byte = omega arith }) (omega arith)
      (omega arith) (unfold first_match in refl) cat_read cat_made refl refl

abbrev ten_o_clock : Bytes
ten_o_clock = codes "2017-11-26 10:00:00"

-- 127.0.0.1
abbrev home : ℕ
home = 139637976793088

image_list_lem_example :
    image_list true (some (codes ".DS_STORE" ∷ codes "cat.jpg" ∷ codes "dog.jpg" ∷ [])) true
    ≡ ok (
        list_from 1 (codes ".DS_STORE" ∷ codes "cat.jpg" ∷ [])
        ++ ((if is_hidden (codes "dog.jpg")
              then []
              else list_line
                  (1 + visible (codes ".DS_STORE" ∷ codes "cat.jpg" ∷ []))
                  (codes "dog.jpg"))
            ++ list_from
                (1 + visible (codes ".DS_STORE" ∷ codes "cat.jpg" ∷ codes "dog.jpg" ∷ []))
                []))
image_list_lem_example =
    image_list_lem (codes ".DS_STORE" ∷ codes "cat.jpg" ∷ []) [] (codes "dog.jpg")

two_listed :
    list_from 1 (codes ".DS_STORE" ∷ codes "cat.jpg" ∷ codes "dog.jpg" ∷ [])
    ≡ codes "  1)                           cat.jpg\n  2)                           dog.jpg\n"
unfolding list_from list_line is_hidden padded percent_d decimal
two_listed = refl

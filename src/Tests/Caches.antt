-- ===== src/Tests/Caches.antt =====
-- The cache of images and the cache of queries, both empty at first.
use image_app.Common.{◌≡◌, refl, some, [], ◌∷◌, codes, ok, fault, ◌>>=◌, pos, replicate, arith}
use image_app.ImageCache.{cached_image, find_file_in_cache, FileCache, cached_file, remember}
use image_app.ImageCache.Lookup.{Entry, IsPath, first_match}
use image_app.ImageCache.State.{Represents}
use image_app.ImageCache.Contents.{remember-Represents, remember-find}
use image_app.ParseInt.{parse_int}
use image_app.Request.Accept.{png}
use image_app.Request.Parse.{Request, new_request}
use image_app.DeviceCache.{
  value_db, Display, DeviceCache, Database, query_of, fetch, set_display, retrieve_dim_from_db,
  empty_cache,
}
use image_app.DeviceCache.Entries.{Consistent, empty_cache-Consistent}
use image_app.DeviceCache.Transparency.{retrieve_dim_from_db_lem, retrieve_dim_from_db_overflow}
use image_app.Tests.Data.{fixed, fixed_quality}

abbrev no_images : FileCache
no_images = record {
  map = replicate 16384 0;
  seek = 0;
  fds = replicate 128 0;
  sizes = replicate 128 0;
  end = 0;
}

abbrev cat : Entry
cat = record { path = codes "../cache/cat0.8.jpg"; fd = 7; file_size = 90210 }

no_images-Represents : Represents no_images []
no_images-Represents = record {
  spare = 16384;
  file = refl;
  whole = refl;
  paths = tt;
  seek_end = refl;
  fd_end = refl;
  fd_table = (replicate 128 0, refl, refl);
  size_table = (replicate 128 0, refl, refl);
}

cat-IsPath : IsPath cat.path
cat-IsPath = record { clean = omega arith; short = omega arith; some_byte = omega arith }

remember-Represents_example :
    (d : FileCache) × (remember no_images cat.path 7 90210 ≡ ok d) × Represents d (cat ∷ [])
remember-Represents_example =
    remember-Represents no_images [] cat no_images-Represents cat-IsPath (omega arith) (omega arith)

remember-find_example :
    (d : FileCache) × (remember no_images cat.path 7 90210 ≡ ok d)
    × (find_file_in_cache cat.path d.map ≡ ok (cached_image 0))
    × (cached_file d 0 ≡ ok (7, 90210))
remember-find_example =
    remember-find no_images [] cat no_images-Represents cat-IsPath (omega arith) (omega arith)
      (unfold first_match in refl)

abbrev one_image :
    (d : FileCache) × (remember no_images cat.path 7 90210 ≡ ok d) × Represents d (cat ∷ [])
one_image =
    remember-Represents no_images [] cat no_images-Represents cat-IsPath (omega arith) (omega arith)

-- A database with one answer: 256 colors, 1080 by 1920.
abbrev phones : Database
phones = λ q. ok (
    some
      (codes "1" ∷ codes "Nexus" ∷ codes "1920" ∷ codes "1080" ∷ [] ∷ [] ∷ [] ∷ codes "256" ∷ []))

abbrev phone : Display
phone = record { colors = pos 256; width = pos 1080; height = pos 1920 }

abbrev asked : Request fixed_quality
asked = record (new_request fixed_quality) {
  user_agent = some (codes "Nexus");
  image_name = some (codes "cat");
  image_list = some (record { type = codes "image/png"; q = 80000000; extension = png } ∷ []);
}

answered_phone : fetch phones (query_of (codes "Nexus")) ≡ ok (value_db, phone)
unfolding fetch parse_int
answered_phone = refl

retrieve_dim_from_db_lem_example :
    (c' : DeviceCache) × (retrieve_dim_from_db fixed_quality fixed (λ x. x) phones empty_cache asked
      ≡ (set_display fixed_quality fixed (λ x. x) asked phone >>= λ r'. ok (c', r')))
    × Consistent phones c'
    × ((db' : Database)
        → retrieve_dim_from_db fixed_quality fixed (λ x. x) db' c' asked
          ≡ (set_display fixed_quality fixed (λ x. x) asked phone >>= λ r'. ok (c', r')))
retrieve_dim_from_db_lem_example =
    retrieve_dim_from_db_lem fixed_quality fixed (λ x. x) phones empty_cache asked (codes "Nexus")
      value_db phone (empty_cache-Consistent phones) refl (omega arith) (omega arith) (omega arith)
      answered_phone

abbrev long_asked : Request fixed_quality
long_asked = record asked { user_agent = some (replicate 82 b'x') }

retrieve_dim_from_db_overflow_example :
    retrieve_dim_from_db fixed_quality fixed (λ x. x) phones empty_cache long_asked ≡ fault
retrieve_dim_from_db_overflow_example =
    retrieve_dim_from_db_overflow fixed_quality fixed (λ x. x) phones empty_cache long_asked
      (replicate 82 b'x') refl (omega arith)

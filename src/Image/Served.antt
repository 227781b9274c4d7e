-- ===== src/Image/Served.antt =====
-- `get_image_to_send` behind the lookup in the cache: when an image is refused, and what an image
-- that was made once costs the next time.
use image_app.Common.{
  ℕ, ◌+◌, ◌<◌, ◌≡◌, ◌≢◌, refl, ap, ◌∙◌, true, none, some, ◌++◌, Bytes, Lacks, All-append, codes, ok,
  ◌>>=◌, length, pos, Bool-cases, Option-cases, ◌⊎◌, inl, inr, arith, ◌↔◌, List,
}
use image_app.CString.{same}
use image_app.CString.Laws.{same_eq}
use image_app.Strings.CacheName.Shape.{catenate_strings-cstr}
use image_app.Request.Accept.{Quality}
use image_app.ImageCache.{
  size_file_listcache, cached_image, not_cached_image, find_file_in_cache, FileCache, cached_file,
  remember,
}
use image_app.ImageCache.Lookup.{Entry, IsPath, flat, first_match}
use image_app.ImageCache.State.{Represents}
use image_app.ImageCache.Contents.{find_file_in_cache_lem, remember-find}
use image_app.Image.{
  Magick, Disk, image_dir, cached_image_code, image_not_present_code, ImageInfo, Found, read_image,
  make_image, get_file_size, descriptor, fresh_image, get_image_to_send,
}

jpeg-Lacks : (s : Bytes) → Lacks 0 s → Lacks 0 (s ++ codes ".jpeg")
jpeg-Lacks s clean = All-append (λ b. b ≢ 0) s (codes ".jpeg") clean (ground arith)

dir-Lacks : (s : Bytes) → Lacks 0 s → Lacks 0 (image_dir ++ s)
dir-Lacks s clean = All-append (λ b. b ≢ 0) image_dir s (ground arith) clean

jpg-same : same (codes ".jpg") (codes ".jpg") ≡ true
unfolding same
jpg-same = refl

module _ (Q : Quality) (M : Magick) (percent : Q.Float → ℕ) where
  -- The second path that is tried.
  abbrev pub jpeg_path : ImageInfo Q M percent → Bytes
  jpeg_path image = image_dir ++ (image.image_name ++ codes ".jpeg")

  read_image_second :
      (image : ImageInfo Q M percent)
      → Lacks 0 image.image_name
      → M.read image.image_path ≡ none
      → same image.ext (codes ".jpg") ≡ true
      → read_image Q M percent image ≡ ok (M.read (jpeg_path image))
  unfolding read_image
  read_image_second image clean unread jpg =
      rw (read_image, unread, jpg)
        (catenate_strings-cstr image_dir image.image_name _ (dir-Lacks image.image_name clean)
          ∙ catenate_strings-cstr (image_dir ++ image.image_name) (codes ".jpeg") _
              (jpeg-Lacks (image_dir ++ image.image_name) (dir-Lacks image.image_name clean)))

  -- What is left where the image is not there.
  abbrev pub refused : FileCache → Found Q M percent
  refused c = record {
    fd = pos 0;
    file_size = 0;
    returned = some image_not_present_code;
    cache = c;
  }

  read_cases :
      (image : ImageInfo Q M percent)
      → Lacks 0 image.image_name
      → ((wand : M.Wand) × (read_image Q M percent image ≡ ok (some wand)))
        ⊎ ((M.read image.image_path ≡ none)
            × (image.ext ≡ codes ".jpg")
            × (M.read (jpeg_path image) ≡ none))
  unfolding read_image
  read_cases image clean = elim (Option-cases (M.read image.image_path)) [
    | inr (wand, first) ↦ inl (wand, rw (read_image, first))
    | inl unread ↦ elim (Bool-cases (same image.ext (codes ".jpg"))) [
      | inr other ↦ inl (M.blank, rw (read_image, unread, other))
      | inl jpg ↦ elim (Option-cases (M.read (jpeg_path image))) [
        | inr (wand, second) ↦ inl (wand, read_image_second image clean unread jpg ∙ ap ok second)
        | inl neither ↦ inr (unread, same_eq image.ext (codes ".jpg") jpg, neither)
      ]
    ]
  ]

  -- A wand is never refused.
  made-ne-refused :
      (disk : Disk) (c : FileCache) (image : ImageInfo Q M percent) (wand : M.Wand)
      → read_image Q M percent image ≡ ok (some wand)
      → fresh_image Q M percent disk c image ≢ ok (refused c)
  unfolding fresh_image
  made-ne-refused disk c image wand found e = ground arith

  refused_lem :
      (disk : Disk) (c : FileCache) (image : ImageInfo Q M percent)
      → read_image Q M percent image ≡ ok none
      → fresh_image Q M percent disk c image ≡ ok (refused c)
  unfolding fresh_image
  refused_lem disk c image none_found = rw none_found

  -- For a path that is not in the cache and a name without zero bytes: IMAGE_NOT_PRESENT is
  -- returned exactly when the extension is ".jpg" and ImageMagick reads neither the path of the
  -- image nor the path of its name with ".jpeg". The cache is then as it was, nothing has been
  -- written to the image, and no answer of the file system matters.
  pub get_image_to_send_not_present :
      (disk : Disk) (c : FileCache) (image : ImageInfo Q M percent)
      → Lacks 0 image.image_name
      → (get_image_to_send Q M percent disk c image not_cached_image ≡ ok (refused c)) ↔ (
          (M.read image.image_path ≡ none)
          × (image.ext ≡ codes ".jpg")
          × (M.read (jpeg_path image) ≡ none))
  unfolding get_image_to_send
  get_image_to_send_not_present disk c image clean = (there, back)
    where
      there :
          fresh_image Q M percent disk c image ≡ ok (refused c)
          → (M.read image.image_path ≡ none)
            × (image.ext ≡ codes ".jpg")
            × (M.read (jpeg_path image) ≡ none)
      there e = elim (read_cases image clean) [
        | inl (wand, found) ↦ absurd (made-ne-refused disk c image wand found e)
        | inr neither ↦ neither
      ]

      back :
          (M.read image.image_path ≡ none)
            × (image.ext ≡ codes ".jpg")
            × (M.read (jpeg_path image) ≡ none)
          → fresh_image Q M percent disk c image ≡ ok (refused c)
      back (unread, jpg, neither) =
          refused_lem disk c image
            (read_image_second image clean unread (rw (jpg, jpg-same)) ∙ ap ok neither)

  fresh_image_lem :
      (disk : Disk) (c d : FileCache) (image : ImageInfo Q M percent) (wand : M.Wand) (fd size : ℕ)
      → M.read image.image_path ≡ some wand
      → make_image Q M percent image wand ≡ ok tt
      → disk.opened ≡ pos fd
      → disk.size ≡ some size
      → remember c image.cache_path fd size ≡ ok d
      → fresh_image Q M percent disk c image
        ≡ ok (record { fd = pos fd; file_size = size; returned = none; cache = d })
  unfolding fresh_image read_image descriptor get_file_size
  fresh_image_lem disk c d image wand fd size first made opened sized kept =
      let reads : read_image Q M percent image ≡ ok (some wand) = rw (read_image, first) in
      rw (reads, made, opened, sized, kept)

  -- When the cache holds the entries `es` and no path of them contains that of the image, the file
  -- and the tables have room, ImageMagick reads the image from its path and writes what is made of it,
  -- and the file system gives a descriptor and a size: the lookup and `get_image_to_send` give this
  -- descriptor and size and leave a cache in which, for every image with the same path and whatever
  -- the file system and ImageMagick would answer, the same two calls return CACHED_IMAGE with the
  -- same descriptor and size and do not change the cache.
  pub get_image_to_send_again :
      (disk : Disk) (c : FileCache) (es : List Entry) (image : ImageInfo Q M percent)
      (wand : M.Wand) (fd size : ℕ)
      → Represents c es
      → IsPath image.cache_path
      → length (flat es) + length image.cache_path + 1 < size_file_listcache
      → length es < 127
      → first_match es image.cache_path 0 ≡ not_cached_image
      → M.read image.image_path ≡ some wand
      → make_image Q M percent image wand ≡ ok tt
      → disk.opened ≡ pos fd
      → disk.size ≡ some size
      → (d : FileCache) × ((find_file_in_cache image.cache_path c.map
            >>= get_image_to_send Q M percent disk c image)
          ≡ ok (record { fd = pos fd; file_size = size; returned = none; cache = d }))
        × ((disk' : Disk) (image' : ImageInfo Q M percent)
            → image'.cache_path ≡ image.cache_path
            → (find_file_in_cache image'.cache_path d.map
                >>= get_image_to_send Q M percent disk' d image')
              ≡ ok (record {
                fd = pos fd;
                file_size = size;
                returned = some cached_image_code;
                cache = d;
              }))
  unfolding get_image_to_send
  get_image_to_send_again disk c es image wand fd size r path room few fresh read made opened
        sized =
      let new : Entry = record { path = image.cache_path; fd = fd; file_size = size } in
      let (d, e, found, stored) = remember-find c es new r path room few fresh in
      (
        d,
        rw (find_file_in_cache_lem c es image.cache_path r path.some_byte, fresh)
            (fresh_image_lem disk c d image wand fd size read made opened sized e),
        λ disk' image' same_path. rw (same_path, found, stored),
      )

  -- An image that is in the cache costs no call of ImageMagick.
  pub get_image_to_send_hit :
      (disk : Disk) (c : FileCache) (image : ImageInfo Q M percent) (i fd size : ℕ)
      → cached_file c i ≡ ok (fd, size)
      → get_image_to_send Q M percent disk c image (cached_image i)
        ≡ ok
            (record { fd = pos fd; file_size = size; returned = some cached_image_code; cache = c })
  unfolding get_image_to_send
  get_image_to_send_hit disk c image i fd size stored = rw stored

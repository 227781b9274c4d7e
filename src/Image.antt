-- ===== src/Image.antt =====
-- `get_image_to_send` of HandleImage.c: an image comes from the cache, or is made from its file and
-- put there.
pub mod Served
use image_app.Common.{
  ℕ, zero, suc, ◌+◌, ◌-◌, ◌^◌, ◌≡◌, refl, Bool, true, false, ◌&&◌, Option, none, some, List, [],
  ◌∷◌, ◌++◌, Bytes, codes, Outcome, ok, exit, fault, ◌>>=◌, ◌==◌, if◌then◌else◌, ℤ, pos, negsuc,
}
use image_app.CString.{same}
use image_app.Strings.CacheName.{catenate_strings}
use image_app.CString.{cstr}
use image_app.Request.Accept.{ImageExt, jpg, jxr, png, webp, all_ext, Quality, ImageNode}
use image_app.ImageCache.{
  CacheFile, cached_image, not_cached_image, FileCache, cached_file, remember,
}

-- The calls of ImageMagick: an image that is read from a path, its width, height and number of
-- colors, and whether it could be written with a format, a quality, a width, a height and a number of
-- colors. The wand of an image that could not be read is `blank`; a file whose extension is not
-- ".jpg" goes on with it.
pub record Magick : Type 1 where
  pub Wand : Type 0
  pub blank : Wand
  pub read : Bytes → Option Wand
  pub width : Wand → ℕ
  pub height : Wand → ℕ
  pub colors : Wand → ℕ
  pub write : Wand → Bytes → ℕ → ℕ → ℕ → ℕ → Bool

abbrev pub image_dir : Bytes
image_dir = codes "../images/"

abbrev pub cached_image_code : ℕ
cached_image_code = 0

abbrev pub image_not_present_code : ℕ
image_not_present_code = 6

-- What the file system answers: the descriptor of `open_file`, which is -1 on failure, and the size
-- that `get_file_size` finds, `none` where lseek fails and the process ends.
pub record Disk : Type 0 where
  pub opened : ℤ
  pub size : Option ℕ

-- (size_t) of an int that is not 0, and what ImageMagick knows otherwise.
abbrev chosen_size : ℤ → ℕ → ℕ
chosen_size (pos zero) known = known
chosen_size (pos (suc n)) known = suc n
chosen_size (negsuc n) known = 2 ^ 64 - n - 1

-- The chain of tests on `image_list->extension`.
unfoldable pub format : ImageExt → Bytes
format jpg = codes ".jpg"
format png = codes ".png"
format jxr = codes ".jxr"
format webp = codes ".webp"
format all_ext = codes ".jpg"

module _ (Q : Quality) (M : Magick) (percent : Q.Float → ℕ) where
  -- The members of `struct image_t` that the function reads.
  pub record ImageInfo : Type 0 where
    pub width : ℤ
    pub height : ℤ
    pub colors : ℤ
    pub image_name : Bytes
    pub ext : Bytes
    pub image_list : List (ImageNode Q)
    pub cache_path : Bytes
    pub image_path : Bytes

  -- What the function leaves in `fd` and `file_size`, the integer it returns (`none` where the end of
  -- the body is reached without a return), and the cache.
  pub record Found : Type 0 where
    pub fd : ℤ
    pub file_size : ℕ
    pub returned : Option ℕ
    pub cache : FileCache

  -- The two calls of MagickReadImage: `none` for IMAGE_NOT_PRESENT.
  read_image : ImageInfo → Outcome (Option M.Wand)
  read_image image = elim (M.read image.image_path) [
    | some wand ↦ ok (some wand)
    | none ↦
        let second : Outcome (Option M.Wand) = (do
          block ← catenate_strings image_dir image.image_name
          tmp_image_path ← cstr block
          block ← catenate_strings tmp_image_path (codes ".jpeg")
          image_path ← cstr block
          ok (M.read image_path)) in
        if same image.ext (codes ".jpg") then second else ok (some M.blank)
  ]

  -- What is made of the image: the first accepted type gives the format and the quality.
  unfoldable pub make_image : ImageInfo → M.Wand → Outcome (Unit {0})
  make_image image wand = elim image.image_list [
    | [] ↦ fault
    | n ∷ ns ↦
        if M.write wand (format n.extension) (percent n.q) (chosen_size image.width (M.width wand))
          (chosen_size image.height (M.height wand)) (chosen_size image.colors (M.colors wand))
        then ok tt
        else exit
  ]

  get_file_size : Option ℕ → Outcome ℕ
  get_file_size none = exit
  get_file_size (some n) = ok n

  -- The descriptor of a file that could not be opened is refused by lseek.
  descriptor : ℤ → Outcome ℕ
  descriptor (pos fd) = ok fd
  descriptor (negsuc n) = exit

  -- The branch of a path that is not in the cache.
  fresh_image : Disk → FileCache → ImageInfo → Outcome Found
  fresh_image disk c image = do
    wand ← read_image image
    elim wand [
      | none ↦
          ok (record {
            fd = pos 0;
            file_size = 0;
            returned = some image_not_present_code;
            cache = c;
          })
      | some wand ↦ do
        made ← make_image image wand
        fd ← descriptor disk.opened
        file_size ← get_file_size disk.size
        cache ← remember c image.cache_path fd file_size
        ok (record { fd = pos fd; file_size = file_size; returned = none; cache = cache })
    ]

  pub get_image_to_send : Disk → FileCache → ImageInfo → CacheFile → Outcome Found
  get_image_to_send disk c image (cached_image idx) = do
    entry ← cached_file c idx
    ok (record {
      fd = pos entry.0;
      file_size = entry.1;
      returned = some cached_image_code;
      cache = c;
    })
  get_image_to_send disk c image not_cached_image = fresh_image disk c image

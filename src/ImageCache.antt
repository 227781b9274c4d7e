-- ===== src/ImageCache.antt =====
-- The cache of resized images: the list of their paths in a mapped file (`find_file_in_cache` of
-- Utils.c), the descriptors and sizes beside it (`struct fd_cache` of HandleImage.h), and the parts of
-- `get_image_to_send` of HandleImage.c that read and write both.
pub mod Lookup
pub mod State
pub mod Contents
use image_app.Common.{
  ℕ, zero, suc, ◌+◌, ◌-◌, ◌%◌, ◌≡◌, refl, Bool, true, false, Option, none, some, List, [], ◌∷◌,
  ◌++◌, Bytes, Outcome, ok, exit, fault, ◌>>=◌, load, store, memcpy_at, if◌then◌else◌, ltb, leb,
  length, drop, ℤ, pos, negsuc,
}
use image_app.CString.{cstr, contains}

abbrev pub size_file_listcache : ℕ
size_file_listcache = 16384

-- `enum cache_file`, with the index that is written to `*idx`: -1 if the path is not there.
pub data CacheFile : Type 0 where
  cached_image : ℕ → CacheFile
  not_cached_image : CacheFile

-- `strcpy(buf, map + len)` into `char buf[128]`.
copy_entry : Bytes → ℕ → Outcome Bytes
copy_entry map len = do s ← cstr (drop len map); if ltb (length s) 128 then ok s else fault

-- `while (len < SIZE_FILE_LISTCACHE)`. A round goes at least one byte on, so as many rounds as the
-- file has bytes are enough fuel (Lookup.scan_map-end).
pub scan_map : ℕ → Bytes → Bytes → ℕ → ℕ → Outcome CacheFile
scan_map zero cache_path map len i = ok not_cached_image
scan_map (suc fuel) cache_path map len i =
    let round = copy_entry map len >>= λ buf.
    let next = scan_map fuel cache_path map (len + (length buf + 1)) (i + 1) in
    if contains buf cache_path then ok (cached_image i) else next in
    if ltb len size_file_listcache then round else ok not_cached_image

pub find_file_in_cache : Bytes → Bytes → Outcome CacheFile
find_file_in_cache cache_path map = do
  first ← cstr map
  if ltb 0 (length first)
      then scan_map size_file_listcache cache_path map 0 0
      else ok not_cached_image

-- The shared state: `file_map`, `seek_cache` and `fd_image_cache`.
pub record FileCache : Type 0 where
  pub map : Bytes
  pub seek : ℕ
  pub fds : List ℕ
  pub sizes : List ℕ
  pub end : ℕ

-- The branch of `get_image_to_send` for a path that is in the cache: the descriptor and the size.
unfoldable pub cached_file : FileCache → ℕ → Outcome (ℕ × ℕ)
cached_file c idx = do size ← load c.sizes idx; fd ← load c.fds idx; ok (fd, size)

-- The critical section at the end of `get_image_to_send`, for a path that was not there.
pub remember : FileCache → Bytes → ℕ → ℕ → Outcome FileCache
remember c cache_path fd file_size = do
  map ← memcpy_at c.map c.seek cache_path
  map ← store map (c.seek + length cache_path) 0
  fds ← store c.fds c.end fd
  sizes ← store c.sizes c.end file_size
  ok (record {
    map = map;
    seek = (c.seek + length cache_path + 1) % size_file_listcache;
    fds = fds;
    sizes = sizes;
    end = (c.end + 1) % 128;
  })

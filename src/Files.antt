-- ===== src/Files.antt =====
-- The files that Utils.c opens, lists and reads: `get_cache_file`, `get_log`, `image_list`,
-- `get_file_size` and `read_block`, against what the system calls answer.
pub mod Listing
pub mod Blocks
use image_app.Common.{
  ℕ, zero, suc, ◌+◌, ◌-◌, ◌≡◌, refl, Bool, true, false, Option, none, some, List, [], ◌∷◌, ◌++◌,
  Bytes, codes, Outcome, ok, exit, fault, ◌>>=◌, ◌>>◌, ltb, ◌==◌, if◌then◌else◌, length, take,
  replicate,
}
use image_app.CString.{cstr}
use image_app.Strings.CacheName.{catenate_strings}
use image_app.ImageCache.{size_file_listcache}
use image_app.Log.{percent_d}

unfoldable pub abort_with_error : Bool → Outcome (Unit {0})
abort_with_error true = exit
abort_with_error false = ok tt

-- What the calls of `get_cache_file` answer: whether the file could be created, and whether each of
-- the calls behind it was successful. A descriptor that could not be had is refused by lseek.
pub record CacheCalls : Type 0 where
  pub created : Bool
  pub opened : Bool
  pub sought : Bool
  pub wrote : Bool
  pub mapped : Bool

-- The mapping. A new file and a truncated one are both a hole up to the byte that is written behind
-- the mapping.
unfoldable pub get_cache_file : CacheCalls → Outcome Bytes
unfolding abort_with_error
get_cache_file calls = do
  let fd = if calls.created then true else calls.opened
  lseek ← abort_with_error (if fd then (if calls.sought then false else true) else true)
  write ← abort_with_error (if calls.wrote then false else true)
  mmap ← abort_with_error (if calls.mapped then false else true)
  ok (replicate size_file_listcache 0)

abbrev server_log_path : Bytes
server_log_path = codes "../log/"

-- The path of the log of a day, if it could be opened.
unfoldable pub get_log : Bytes → Bool → Outcome Bytes
unfolding abort_with_error
get_log time_buf opened = do
  block ← catenate_strings server_log_path time_buf
  path ← cstr block
  fopen ← abort_with_error (if opened then false else true)
  ok path

-- Both calls of lseek: the size, or the end of the process.
unfoldable pub get_file_size : Option ℕ → Bool → Outcome ℕ
get_file_size none rewound = exit
get_file_size (some size) rewound = if rewound then ok size else exit

-- A conversion with a width: blanks on the left.
unfoldable pub padded : ℕ → Bytes → Bytes
padded width s = replicate (width - length s) b' ' ++ s

-- strncmp(name, ".", 1) == 0
unfoldable pub is_hidden : Bytes → Bool
is_hidden [] = false
is_hidden (c ∷ name) = c == b'.'

-- "%3d) %33s\n"
unfoldable pub list_line : ℕ → Bytes → Bytes
list_line i name = padded 3 (percent_d i) ++ (codes ") " ++ (padded 33 name ++ 10 ∷ []))

-- The loop over the names of the directory, with the next number.
unfoldable pub list_from : ℕ → List Bytes → Bytes
list_from i [] = []
list_from i (name ∷ names) = elim (is_hidden name) [
  | true ↦ list_from i names
  | false ↦ list_line i name ++ list_from (i + 1) names
]

-- What is written to the list of images. A directory that cannot be opened is `none`.
unfoldable pub image_list : Bool → Option (List Bytes) → Bool → Outcome Bytes
unfolding abort_with_error
image_list opened names closed = do
  fopen ← abort_with_error (if opened then false else true)
  let text : Bytes = elim names [ none ↦ [] | some l ↦ list_from 1 l ]
  if closed then ok text else exit

-- What a call of read finds: bytes of the file, none at its end, or an error.
pub data Chunk : Type 0 where
  got : Bytes → Chunk
  failed : Chunk

-- The loop of `read_block`, with the number of bytes that are still wanted: the bytes it puts into
-- the buffer, whose number is returned. `none` while a call of read waits.
unfoldable pub read_block : List Chunk → ℕ → Outcome (Option Bytes)
read_block [] wanted = if ltb 0 wanted then ok none else ok (some [])
read_block (failed ∷ more) wanted = if ltb 0 wanted then exit else ok (some [])
read_block (got available ∷ more) wanted =
    let v = take wanted available in
    let rest = read_block more (wanted - length v) >>= λ r.
    ok (elim r [ none ↦ none | some s ↦ some (v ++ s) ]) in
    let round = if length v == 0 then ok (some []) else rest in
    if ltb 0 wanted then round else ok (some [])

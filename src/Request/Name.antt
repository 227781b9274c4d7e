-- ===== src/Request/Name.antt =====
-- `parse_name` of Request.c: the name and the extension of the image from the request line
-- "GET /?name.ext HTTP/1.1". `line` is the block of the line, with its terminator.
pub mod Paths
pub mod Lines
use image_app.Common.{
  ℕ, zero, suc, ◌+◌, ◌≡◌, refl, Bool, true, false, ◌||◌, Option, none, some, List, [], ◌∷◌, ◌++◌,
  Bytes, codes, Outcome, ok, exit, fault, ◌>>=◌, store, ltb, ◌==◌, if◌then◌else◌, length, set,
  replicate,
}
use image_app.CString.{cstr, contains}
use image_app.Request.Status.{
  RequestStatus, image_requested, message_not_correct, empty_path, icon_requested,
}

abbrev pub image_name_preallocation : ℕ
image_name_preallocation = 64

-- What the first loop leaves: the bytes written to `p`, the size of its block, and the rest of the
-- line from the byte at which the loop stopped.
pub record Copied : Type 0 where
  pub name : Bytes
  pub size : ℕ
  pub rest : Bytes

-- The block doubles once, when it is full for the first time.
grow : ℕ → ℕ → ℕ
grow j size =
    if j == image_name_preallocation
    then image_name_preallocation + image_name_preallocation
    else size

-- `for (; line[i] != '.' && line[i] != ' '; i++)`, with `j` bytes written to a block of `size`.
pub copy_name : Bytes → ℕ → ℕ → Outcome Copied
unfolding grow
copy_name [] j size = fault
copy_name (c ∷ line) j size =
    let more =
      copy_name line (j + 1) (grow (j + 1) size) >>= λ r. ok (record r { name = c ∷ r.name }) in
    if c == b'.' || c == b' '
    then ok (record { name = []; size = size; rest = c ∷ line })
    else if ltb j size
    then more
    else fault

-- `for (; line[i] != ' '; i++) { e[j] = line[i]; j++; }`
copy_ext : Bytes → ℕ → Bytes → Outcome Bytes
copy_ext [] j e = fault
copy_ext (c ∷ line) j e =
    let more = store e j c >>= copy_ext line (j + 1) in if c == b' ' then ok e else more

pub record Parsed : Type 0 where
  pub status : RequestStatus
  -- The name and the extension, which are written on the last return only.
  pub found : Option (Bytes × Bytes)

abbrev early : RequestStatus → Outcome Parsed
early status = ok (record { status = status; found = none })

-- The end of the function, from the blocks `p` and `e`.
pub deliver : Bytes → Bytes → Outcome Parsed
deliver p e = do
  image_name ← cstr p
  ext ← cstr e
  ok (record { status = image_requested; found = some (image_name, ext) })

-- Behind the name: the loop stopped at a space, or at the point of the extension.
pub extension : Copied → Outcome Parsed
unfolding copy_ext deliver
extension r = elim r.rest [
  | [] ↦ fault
  | c ∷ line ↦
      if c == b' '
      then early message_not_correct
      else if ltb (length r.name) r.size
      then (copy_ext (c ∷ line) 0 (replicate 5 0) >>= λ e. deliver (r.name ++ 0 ∷ []) (set e 4 0))
      else fault
]

-- The path behind the first slash; `whole` is the line as a string.
pub path : Bytes → Bytes → Outcome Parsed
unfolding extension copy_name
path whole [] = fault
path whole (c ∷ line) =
    if c == b'?'
    then (copy_name line 0 image_name_preallocation >>= extension)
    else if c == b' '
    then early empty_path
    else if contains whole (codes "favicon")
    then early icon_requested
    else early message_not_correct

-- `while (i < size)`, with `size - i` rounds left. Without a slash both strings stay empty.
pub scan : Bytes → ℕ → Bytes → Outcome Parsed
unfolding path
scan whole zero line = deliver (replicate 64 0) (replicate 5 0)
scan whole (suc left) [] = fault
scan whole (suc left) (c ∷ line) = if c == b'/' then path whole line else scan whole left line

unfoldable pub parse_name : Bytes → Outcome Parsed
unfolding scan
parse_name line = do whole ← cstr line; scan whole (length whole) line

-- ===== src/Request/Name/Lines.antt =====
-- `parse_name` on whole request lines: what is found, what is refused, and what overflows.
use native.Mathlib.Decide.{dec_lt}
use native.Mathlib.Nat.{zero-add}
use image_app.Common.{
  ℕ, ◌≤◌, ◌<◌, ◌≡◌, ◌≢◌, refl, ap, ◌∙◌, none, some, [], ◌∷◌, ◌++◌, append_assoc, Bytes, codes, All,
  Lacks, ok, fault, ◌>>=◌, ◌==◌, if◌then◌else◌, length, take, arith, ◌⊎◌, inl, inr,
}
use image_app.CString.{cstr, contains}
use image_app.CString.Laws.{cstr-append}
use image_app.Request.Status.{image_requested, message_not_correct, empty_path, icon_requested}
use image_app.Request.Name.{copy_name, deliver, extension, path, parse_name}
use image_app.Request.Name.Paths.{
  InName, capacity, copy_name-append, copy_name-overflow, scan_no_slash, parse_name-path,
  extension-short, extension-long,
}

-- A request line: `a`, the first slash, a question mark, the name, a point, the extension, a space.
abbrev pub query : Bytes → Bytes → Bytes → Bytes
query name ext b = b'?' ∷ (name ++ b'.' ∷ (ext ++ b' ' ∷ b))

module _ (a name ext b r : Bytes) (before0 : Lacks 0 a) (slash : Lacks b'/' a)
    (query0 : Lacks 0 (query name ext b)) where
  query-path :
      parse_name (a ++ b'/' ∷ (query name ext b ++ 0 ∷ r))
      ≡ (copy_name (name ++ b'.' ∷ (ext ++ b' ' ∷ (b ++ 0 ∷ r))) 0 64 >>= extension)
  unfolding path
  query-path =
      rw (parse_name-path a (query name ext b) r before0 slash query0)
        (ap (λ s. copy_name s 0 64 >>= extension) regroup)
    where
      regroup :
          name ++ b'.' ∷ (ext ++ b' ' ∷ b) ++ 0 ∷ r ≡ name ++ b'.' ∷ (ext ++ b' ' ∷ (b ++ 0 ∷ r))
      regroup = simp append_assoc

  -- The first loop, on a name that its block has room for.
  query-copied :
      All InName name
      → length name ≤ 128
      → parse_name (a ++ b'/' ∷ (query name ext b ++ 0 ∷ r))
        ≡ extension (record {
          name = name;
          size = capacity (length name);
          rest = b'.' ∷ (ext ++ b' ' ∷ (b ++ 0 ∷ r));
        })
  query-copied names fits = rw (
    query-path,
    copy_name-append name (ext ++ b' ' ∷ (b ++ 0 ∷ r)) b'.' 0 names refl (omega arith),
    zero-add (length name),
  )

-- In a request line with no zero byte whose first slash has a question mark behind it, the name
-- and the extension are found, if the name holds neither a point nor a space and has fewer than
-- 128 bytes, and the extension has at most four bytes, none of them a space. Of the extension
-- only the point and three bytes are kept.
pub parse_name_image :
    (a name ext b r : Bytes)
    → Lacks 0 a
    → Lacks b'/' a
    → Lacks 0 (query name ext b)
    → Lacks 0 name
    → Lacks 0 ext
    → All InName name
    → Lacks b' ' ext
    → length name < 128
    → length ext ≤ 4
    → parse_name (a ++ b'/' ∷ (query name ext b ++ 0 ∷ r))
      ≡ ok (record { status = image_requested; found = some (name, b'.' ∷ take 3 ext) })
parse_name_image a name ext b r h1 h2 h3 h4 h5 names exts fits short =
    query-copied a name ext b r h1 h2 h3 names (omega arith)
    ∙ extension-short name h4 fits ext (b ++ 0 ∷ r) h5 exts short

extension-full :
    (name t : Bytes)
    → length name ≡ 128
    → extension (record { name = name; size = capacity (length name); rest = b'.' ∷ t }) ≡ fault
unfolding extension
extension-full name t e = ground arith

long_name :
    (a name ext b r : Bytes)
    → Lacks 0 a
    → Lacks b'/' a
    → Lacks 0 (query name ext b)
    → All InName name
    → 128 ≤ length name
    → parse_name (a ++ b'/' ∷ (query name ext b ++ 0 ∷ r)) ≡ fault
long_name a name ext b r h1 h2 h3 names long = elim (dec_lt 128 (length name)) [
  | yes more ↦
      query-path a name ext b r h1 h2 h3
      ∙ ap (λ m. m >>= extension) (copy_name-overflow name _ 0 names (omega arith) (omega arith))
  | no full ↦
      query-copied a name ext b r h1 h2 h3 names (omega arith) ∙ extension-full name _ (omega arith)
]

-- In such a line, with a name without point and space and an extension without space, a name of
-- 128 bytes or more is written over the end of its block, and so is an extension of five bytes
-- or more.
pub parse_name_overflow :
    (a name ext b r : Bytes)
    → Lacks 0 a
    → Lacks b'/' a
    → Lacks 0 (query name ext b)
    → Lacks 0 name
    → All InName name
    → Lacks b' ' ext
    → (128 ≤ length name) ⊎ (5 ≤ length ext)
    → parse_name (a ++ b'/' ∷ (query name ext b ++ 0 ∷ r)) ≡ fault
parse_name_overflow a name ext b r h1 h2 h3 h4 names exts (inl long) =
    long_name a name ext b r h1 h2 h3 names long
parse_name_overflow a name ext b r h1 h2 h3 h4 names exts (inr long) =
    elim (dec_lt (length name) 128) [
      | no full ↦ long_name a name ext b r h1 h2 h3 names (omega arith)
      | yes fits ↦
          query-copied a name ext b r h1 h2 h3 names (omega arith)
          ∙ extension-long name h4 fits ext (b' ' ∷ (b ++ 0 ∷ r)) exts long
    ]

-- Behind the first slash anything but a question mark decides at once: a space is an empty path, and
-- otherwise "favicon" anywhere in the line asks for the icon.
pub parse_name_other :
    (a rest r : Bytes) (c : ℕ)
    → Lacks 0 a
    → Lacks b'/' a
    → Lacks 0 (c ∷ rest)
    → c ≢ b'?'
    → parse_name (a ++ b'/' ∷ ((c ∷ rest) ++ 0 ∷ r))
      ≡ ok (record {
        status =
            if c == b' '
            then empty_path
            else if contains (a ++ b'/' ∷ c ∷ rest) (codes "favicon")
            then icon_requested
            else message_not_correct;
        found = none;
      })
unfolding path
parse_name_other a rest r c h1 h2 h3 other = parse_name-path a (c ∷ rest) r h1 h2 h3 ∙ ground arith

-- A line without a slash and without a zero byte is not refused: it is a request for the image
-- with the empty name and the empty extension.
pub parse_name_no_slash :
    (a r : Bytes)
    → Lacks 0 a
    → Lacks b'/' a
    → parse_name (a ++ 0 ∷ r) ≡ ok (record { status = image_requested; found = some ([], []) })
unfolding parse_name deliver
parse_name_no_slash a r h slash =
    rw (cstr-append a r h, scan_no_slash a a (0 ∷ r) slash) (unfold cstr in refl)

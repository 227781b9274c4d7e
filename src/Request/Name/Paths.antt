-- ===== src/Request/Name/Paths.antt =====
-- `parse_name` on every shape of request line.
use native.Mathlib.Nat.{add-zero}
use image_app.Common.{
  ℕ, zero, suc, ◌+◌, ◌≤◌, ◌<◌, ◌≡◌, ◌≢◌, refl, true, false, ◌||◌, some, [], ◌∷◌, ◌++◌, Bytes, All,
  Lacks, ok, fault, ltb, ◌==◌, if◌then◌else◌, length, length-append, set, replicate, take, arith,
}
use image_app.CString.{cstr}
use image_app.CString.Laws.{cstr-append, cstr_skip}
use image_app.Request.Status.{image_requested}
use image_app.Request.Name.{grow, copy_name, copy_ext, deliver, extension, path, scan, parse_name}

-- A byte that the loop over the name goes past.
abbrev pub InName : ℕ → Type 0
InName c = (c ≢ b'.') × (c ≢ b' ')

-- The size of the name's block once `j` bytes are written.
abbrev pub capacity : ℕ → ℕ
capacity j = if ltb j 64 then 64 else 128

grow-capacity : (j : ℕ) → grow (j + 1) (capacity j) ≡ capacity (j + 1)
unfolding grow
grow-capacity j = ground arith

pub copy_name-append :
    (name rest : Bytes) (d j : ℕ)
    → All InName name
    → (d == b'.' || d == b' ') ≡ true
    → j + length name ≤ 128
    → copy_name (name ++ d ∷ rest) j (capacity j)
      ≡ ok (record { name = name; size = capacity (j + length name); rest = d ∷ rest })
unfolding copy_name
copy_name-append [] rest d j h stop l = rw (stop, add-zero)
copy_name-append (c ∷ name) rest d j h stop l =
    let same : j + suc (length name) ≡ j + 1 + length name = omega arith in
    let room : ltb j (capacity j) ≡ true = ground arith in
    let on : (c == b'.' || c == b' ') ≡ false = ground arith in
    rw
      (on, room, grow-capacity j, same, copy_name-append name rest d (j + 1) h.1 stop (omega arith))

scan-append :
    (whole a rest : Bytes) (n : ℕ)
    → Lacks b'/' a
    → length a < n
    → scan whole n (a ++ b'/' ∷ rest) ≡ path whole rest
unfolding scan
scan-append whole [] rest zero h l = absurd (omega arith)
scan-append whole [] rest (suc n) h l = refl
scan-append whole (c ∷ a) rest zero h l = absurd (omega arith)
scan-append whole (c ∷ a) rest (suc n) h l = ground (arith, scan-append whole a rest n h.1)

pub scan_no_slash :
    (whole a rest : Bytes)
    → Lacks b'/' a
    → scan whole (length a) (a ++ rest) ≡ deliver (replicate 64 0) (replicate 5 0)
unfolding scan
scan_no_slash whole [] rest h = refl
scan_no_slash whole (c ∷ a) rest h = ground (arith, scan_no_slash whole a rest h.1)

-- Only what stands behind the first slash of the line counts.
pub parse_name-path :
    (a rest r : Bytes)
    → Lacks 0 a
    → Lacks b'/' a
    → Lacks 0 rest
    → parse_name (a ++ b'/' ∷ (rest ++ 0 ∷ r)) ≡ path (a ++ b'/' ∷ rest) (rest ++ 0 ∷ r)
unfolding parse_name
parse_name-path a rest r ha slash hr =
    rw (cstr_skip a (b'/' ∷ (rest ++ 0 ∷ r)) ha, cstr-append (b'/' ∷ rest) r (omega arith, hr))
      (scan-append (a ++ b'/' ∷ rest) a (rest ++ 0 ∷ r) _ slash
        (omega (arith, length-append a (b'/' ∷ rest))))

-- The loop over a name that is too long writes outside its block.
pub copy_name-overflow :
    (name rest : Bytes) (j : ℕ)
    → All InName name
    → j ≤ 128
    → 128 < j + length name
    → copy_name (name ++ rest) j (capacity j) ≡ fault
unfolding copy_name
copy_name-overflow [] rest j h l k = absurd (omega arith)
copy_name-overflow (c ∷ name) rest j h l k =
    let on : (c == b'.' || c == b' ') ≡ false = ground arith in
    ground (arith, on, grow-capacity j, copy_name-overflow name rest (j + 1) h.1)

-- The block of an extension, behind the point: at most five bytes are written to `e`, and the fifth
-- is overwritten by the terminator.
ext_block :
    (ext t : Bytes)
    → Lacks 0 ext
    → Lacks b' ' ext
    → length ext ≤ 4
    → (e : Bytes) × (copy_ext (b'.' ∷ (ext ++ b' ' ∷ t)) 0 (replicate 5 0) ≡ ok e)
      × (cstr (set e 4 0) ≡ ok (b'.' ∷ take 3 ext))
unfolding copy_ext cstr
ext_block [] t h0 hs k = (_, refl, refl)
ext_block (x ∷ []) t h0 hs k = (b'.' ∷ x ∷ 0 ∷ 0 ∷ 0 ∷ [], ground arith, ground arith)
ext_block (x ∷ y ∷ []) t h0 hs k = (b'.' ∷ x ∷ y ∷ 0 ∷ 0 ∷ [], ground arith, ground arith)
ext_block (x ∷ y ∷ z ∷ []) t h0 hs k = (b'.' ∷ x ∷ y ∷ z ∷ 0 ∷ [], ground arith, ground arith)
ext_block (x ∷ y ∷ z ∷ w ∷ []) t h0 hs k = (b'.' ∷ x ∷ y ∷ z ∷ w ∷ [], ground arith, ground arith)
ext_block (x ∷ y ∷ z ∷ w ∷ v ∷ ext) t h0 hs k = absurd (omega arith)

ext_overflow :
    (ext t : Bytes)
    → Lacks b' ' ext
    → 5 ≤ length ext
    → copy_ext (b'.' ∷ (ext ++ t)) 0 (replicate 5 0) ≡ fault
unfolding copy_ext
ext_overflow (x ∷ y ∷ z ∷ w ∷ v ∷ ext) t hs k = ground arith
ext_overflow _ t hs k = absurd (omega arith)

name_room : (n : ℕ) → n < 128 → ltb n (capacity n) ≡ true
name_room n h = ground arith

module _ (name : Bytes) (clean : Lacks 0 name) (fits : length name < 128) where
  pub extension-short :
      (ext t : Bytes)
      → Lacks 0 ext
      → Lacks b' ' ext
      → length ext ≤ 4
      → extension
          (record { name = name; size = capacity (length name); rest = b'.' ∷ (ext ++ b' ' ∷ t) })
        ≡ ok (record { status = image_requested; found = some (name, b'.' ∷ take 3 ext) })
  unfolding extension deliver
  extension-short ext t h0 hs k =
      let (e, copied, text) = ext_block ext t h0 hs k in
      rw (name_room (length name) fits, copied, cstr-append name [] clean, text)

  pub extension-long :
      (ext t : Bytes)
      → Lacks b' ' ext
      → 5 ≤ length ext
      → extension (record { name = name; size = capacity (length name); rest = b'.' ∷ (ext ++ t) })
        ≡ fault
  unfolding extension
  extension-long ext t hs k = rw (name_room (length name) fits, ext_overflow ext t hs k)

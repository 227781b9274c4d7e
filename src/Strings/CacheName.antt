-- ===== src/Strings/CacheName.antt =====
-- `convert_float_to_string`, `catenate_strings` and `build_image_name_cache` of Strings.c.
pub mod Shape
pub mod Quality
use image_app.Common.{
  ℕ, zero, suc, ◌+◌, ◌≡◌, refl, Bool, true, false, List, [], ◌∷◌, ◌++◌, Bytes, codes, Outcome, ok,
  fault, ◌>>=◌, store, memcpy_at, read_at, replicate, drop, length, ◌==◌, if◌then◌else◌, ℤ, pos,
  negsuc,
}
use image_app.CString.{cstr}
use image_app.Strings.Decimal.{convert_int_to_string}

-- The arithmetic of the C type float, which the program computes with: the casts between float and
-- int, subtraction, and `(int)(x * pow(10, 8))`.
pub record Floats : Type 1 where
  pub Float : Type 0
  pub to_int : Float → ℤ
  pub of_int : ℤ → Float
  pub minus : Float → Float → Float
  pub scale : Float → ℤ

is_zero : ℤ → Bool
is_zero (pos n) = n == 0
is_zero (negsuc n) = false

-- The digits behind "0.": eight bytes of the numeral's block are copied, however long it is.
write_fraction : ℤ → Outcome Bytes
write_fraction mantissa = do
  r ← store (replicate 11 0) 0 b'0'
  r ← store r 1 b'.'
  str_dec ← convert_int_to_string mantissa
  eight ← read_at str_dec 0 8
  r ← memcpy_at r 2 eight
  store r 10 0

write_one : Outcome Bytes
write_one = memcpy_at (replicate 11 0) 0 (codes "1.00000000") >>= λ r. store r 10 0

-- `mantissa` is a float again before its last cast.
unfoldable pub convert_float_to_string : (F : Floats) → F.Float → Outcome Bytes
unfolding is_zero write_fraction write_one
convert_float_to_string F n =
    let integer = F.to_int n in
    let mantissa = F.minus n (F.of_int integer) in
    if is_zero integer then write_fraction (F.to_int (F.of_int (F.scale mantissa))) else write_one

-- strcat(buf + i, s): behind the string that starts at buf + i, with a terminator.
strcat : Bytes → ℕ → Bytes → Outcome Bytes
strcat buf i s = do t ← cstr (drop i buf); memcpy_at buf (i + length t) (s ++ 0 ∷ [])

pub catenate_strings : Bytes → Bytes → Outcome Bytes
catenate_strings s1 s2 = do
  buf ← strcat (replicate (length s1 + length s2 + 1) 0) 0 s1
  buf ← strcat buf (length s1) s2
  store buf (length s1 + length s2) 0

-- `memcpy(*buf + len, s, strlen(s)); len += strlen(s);`
append : Bytes × ℕ → Bytes → Outcome (Bytes × ℕ)
append (buf, len) s = memcpy_at buf len s >>= λ b. ok (b, len + length s)

unfoldable pub build_image_name_cache : (F : Floats) → Bytes → F.Float → ℤ → ℤ → ℤ → Outcome Bytes
unfolding convert_float_to_string write_fraction write_one is_zero append
build_image_name_cache F name quality width height colors = do
  block ← convert_float_to_string F quality
  str_quality ← cstr block
  block ← convert_int_to_string width
  str_width ← cstr block
  block ← convert_int_to_string height
  str_height ← cstr block
  block ← convert_int_to_string colors
  str_colors ← cstr block
  let size =
      length name
      + length str_quality
      + length str_height
      + length str_colors
      + length str_width
      + 1
  s ← append (replicate size 0, 0) name
  s ← append s str_quality
  s ← append s str_width
  s ← append s str_height
  s ← append s str_colors
  store s.0 s.1 0

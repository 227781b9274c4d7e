-- ===== src/Strings/CacheName/Quality.antt =====
-- `convert_float_to_string` on the qualities below 1: which digits it keeps, and where it reads
-- behind the end of the numeral's block.
use image_app.Common.{
  read_at-short, read_at-take, ◌^◌, ◌≤◌, ◌<◌, ◌≡◌, refl, ap, ◌∙◌, [], ◌∷◌, ◌++◌, Bytes, codes, ok,
  fault, ◌>>=◌, store, memcpy_at, length, length-append, take, if◌then◌else◌, replicate, ℤ, pos,
  pos_part, arith,
}
use image_app.CString.{cstr}
use image_app.CString.Laws.{cstr-append}
use image_app.Strings.Decimal.Fill.{
  Spells, decimal, decimal-Spells, digit-Lacks, convert_int_to_string-decimal, length-decimal-le,
  length-decimal-ge,
}
use image_app.Strings.CacheName.{
  Floats, is_zero, write_one, write_fraction, convert_float_to_string,
}

-- (int) of the mantissa, ten to the eighth times the quality's fraction.
abbrev fraction : (F : Floats) → F.Float → ℤ
fraction F n = F.to_int (F.of_int (F.scale (F.minus n (F.of_int (F.to_int n)))))

write_fraction-short : (v : ℤ) → pos_part v < 10 ^ 6 → write_fraction v ≡ fault
unfolding write_fraction
write_fraction-short v h =
    rw (convert_int_to_string-decimal v, read_at-short 8 (decimal (pos_part v) ++ 0 ∷ []) short)
  where
    short : length (decimal (pos_part v) ++ 0 ∷ []) < 8
    short =
        omega
          (arith, length-append (decimal (pos_part v)) (0 ∷ []), length-decimal-le 6 (pos_part v) h)

convert_below_one :
    (F : Floats) (n : F.Float)
    → F.to_int n ≡ pos 0
    → convert_float_to_string F n ≡ write_fraction (fraction F n)
unfolding convert_float_to_string
convert_below_one F n = ap λ z. if is_zero z then write_fraction (fraction F n) else write_one

-- A quality with the integer part 0 and fewer than 10^6 units of 10^-8, which is one below 0.01,
-- makes the function read behind the end of the block of the numeral.
pub convert_float_to_string_small :
    (F : Floats) (n : F.Float)
    → F.to_int n ≡ pos 0
    → pos_part (fraction F n) < 10 ^ 6
    → convert_float_to_string F n ≡ fault
convert_float_to_string_small F n e h =
    convert_below_one F n e ∙ write_fraction-short (fraction F n) h

-- Eight bytes of a block with seven or eight digits hold the numeral, and the terminator if there is
-- room for it.
eight_bytes :
    (s : Bytes)
    → 7 ≤ length s
    → length s ≤ 8
    → (r : Bytes) × (take 8 (s ++ 0 ∷ []) ++ 0 ∷ [] ≡ s ++ 0 ∷ r)
      × (length (take 8 (s ++ 0 ∷ [])) ≡ 8)
eight_bytes (a ∷ b ∷ c ∷ d ∷ e ∷ f ∷ g ∷ []) lo hi = (0 ∷ [], refl, refl)
eight_bytes (a ∷ b ∷ c ∷ d ∷ e ∷ f ∷ g ∷ h ∷ []) lo hi = ([], refl, refl)
eight_bytes (a ∷ b ∷ c ∷ d ∷ e ∷ f ∷ g ∷ h ∷ i ∷ s) lo hi = absurd (omega arith)
eight_bytes _ lo hi = absurd (omega arith)

copied :
    (t : Bytes)
    → length t ≡ 8
    → (memcpy_at (b'0' ∷ b'.' ∷ replicate 9 0) 2 t >>= λ r. store r 10 0)
      ≡ ok (b'0' ∷ b'.' ∷ (t ++ 0 ∷ []))
copied (a ∷ b ∷ c ∷ d ∷ e ∷ f ∷ g ∷ h ∷ []) q = refl
copied (a ∷ b ∷ c ∷ d ∷ e ∷ f ∷ g ∷ h ∷ i ∷ t) q = absurd (omega arith)
copied _ q = absurd (omega arith)

write_fraction-text :
    (v : ℤ)
    → 7 ≤ length (decimal (pos_part v))
    → length (decimal (pos_part v)) ≤ 8
    → (b : Bytes) × (write_fraction v ≡ ok b) × (cstr b ≡ ok (codes "0." ++ decimal (pos_part v)))
unfolding write_fraction
write_fraction-text v lo hi =
    let s = decimal (pos_part v) in
    let (r, shape, size) = eight_bytes s lo hi in
    (
      codes "0." ++ (s ++ 0 ∷ r),
      rw
          (
            convert_int_to_string-decimal v,
            read_at-take 8 (s ++ 0 ∷ []) (omega (arith, length-append s (0 ∷ []))),
            ← shape,
          )
          (copied (take 8 (s ++ 0 ∷ [])) size),
      cstr-append (codes "0." ++ s) r
          (omega arith, (omega arith, digit-Lacks s (decimal-Spells (pos_part v)).digits)),
    )

-- For a quality with the integer part 0 and at least 10^6 units of 10^-8, the text is "0." and
-- the numeral of these units. The zeros that the fraction has between the point and its first
-- digit are left out.
pub convert_float_to_string-fraction :
    (F : Floats) (n : F.Float)
    → F.to_int n ≡ pos 0
    → 10 ^ 6 ≤ pos_part (fraction F n)
    → pos_part (fraction F n) < 10 ^ 8
    → (b : Bytes) × (s : Bytes) × (convert_float_to_string F n ≡ ok b)
      × (cstr b ≡ ok (codes "0." ++ s))
      × Spells (pos_part (fraction F n)) s
convert_float_to_string-fraction F n e lo hi =
    let v = pos_part (fraction F n) in
    let (b, w, c) =
      write_fraction-text (fraction F n) (length-decimal-ge 6 v lo) (length-decimal-le 8 v hi) in
    (b, decimal v, convert_below_one F n e ∙ w, c, decimal-Spells v)

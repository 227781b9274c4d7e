-- ===== src/ParseInt/RoundTrip.antt =====
-- A number that `convert_int_to_string` writes is read back by `parse_int`.
use image_app.Common.{
  ap, ◌++◌, ◌==◌, ℕ, ◌+◌, ◌-◌, ◌*◌, ◌^◌, ◌<◌, ◌≡◌, refl, false, some, [], ◌∷◌, Bytes, All, ok,
  ◌>>=◌, pos, arith,
}
use image_app.CString.{cstr}
use image_app.CString.Laws.{cstr-append}
use image_app.Strings.Decimal.{convert_int_to_string}
use image_app.Strings.Decimal.Fill.{IsDigit, value, digit-Lacks, Spells, convert_int_to_string_lem}
use image_app.ParseInt.{
  digits, magnitude, signed, strtol, cast_int, parse_int, digit, positive, is_space,
}

digit-IsDigit : (c : ℕ) → IsDigit c → digit 10 c ≡ some (c - b'0')
digit-IsDigit c h = ground arith

digits-value : (n : ℕ) (s : Bytes) → All IsDigit s → digits 10 n s ≡ value n s
unfolding digits
digits-value n [] h = refl
digits-value n (c ∷ s) h =
    rw (digits, digit-IsDigit c h.0) (digits-value (n * 10 + (c - b'0')) s h.1)

strtol-Spells : (n : ℕ) (s : Bytes) → Spells n s → strtol s ≡ positive n
unfolding strtol
strtol-Spells n [] h = rw (← h.exact)
strtol-Spells n (c ∷ s) h =
    let (lo, hi) = h.digits.0 in
    let space : is_space c ≡ false = ground arith in
    let minus : (c == b'-') ≡ false = ground arith in
    let plus : (c == b'+') ≡ false = ground arith in
    let octal : (c == b'0') ≡ false = ground arith in
    rw (
      strtol,
      space,
      signed,
      minus,
      plus,
      magnitude,
      octal,
      digits-value 0 (c ∷ s) h.digits,
      h.exact,
    )

cast_small : (n : ℕ) → n < 2 ^ 31 → cast_int (pos n) ≡ pos n
cast_small n h = ground arith

positive_small : (n : ℕ) → n < 2 ^ 31 → positive n ≡ some (pos n)
positive_small n h = ground arith

parse_int-Spells : (n : ℕ) (s : Bytes) → Spells n s → n < 2 ^ 31 → parse_int s ≡ pos n
unfolding parse_int
parse_int-Spells n s spells h =
    rw (parse_int, strtol-Spells n s spells, positive_small n h, cast_small n h)

-- For every int that is not negative, 0 included, `convert_int_to_string` returns a block whose
-- string `parse_int` turns back into the number.
pub parse_int-convert_int_to_string :
    (n : ℕ)
    → n < 2 ^ 31
    → (convert_int_to_string (pos n) >>= λ block. cstr block >>= λ s. ok (parse_int s)) ≡ ok (pos n)
parse_int-convert_int_to_string n h =
    let (s, e, spells, zero_case) = convert_int_to_string_lem (pos n) in
    rw (e, cstr-append s [] (digit-Lacks s spells.digits)) (ap ok (parse_int-Spells n s spells h))

digits-line : (n : ℕ) (s : Bytes) → All IsDigit s → digits 10 n (s ++ 10 ∷ []) ≡ value n s
unfolding digits
digits-line n [] h = refl
digits-line n (c ∷ s) h = rw (digits, digit-IsDigit c h.0) (digits-line (n * 10 + (c - b'0')) s h.1)

strtol-line : (n : ℕ) (s : Bytes) → Spells n s → strtol (32 ∷ (s ++ 10 ∷ [])) ≡ positive n
unfolding strtol signed magnitude
strtol-line n [] h = rw (← h.exact)
strtol-line n (c ∷ s) h =
    let (lo, hi) = h.digits.0 in
    let space : is_space c ≡ false = ground arith in
    let minus : (c == b'-') ≡ false = ground arith in
    let plus : (c == b'+') ≡ false = ground arith in
    let octal : (c == b'0') ≡ false = ground arith in
    rw (
      strtol,
      space,
      signed,
      minus,
      plus,
      magnitude,
      octal,
      digits-line 0 (c ∷ s) h.digits,
      h.exact,
    )

-- A numeral behind a blank and in front of the end of a line.
pub parse_int-line :
    (n : ℕ) (s : Bytes) → Spells n s → n < 2 ^ 31 → parse_int (32 ∷ (s ++ 10 ∷ [])) ≡ pos n
unfolding parse_int
parse_int-line n s spells h =
    rw (parse_int, strtol-line n s spells, positive_small n h, cast_small n h)

-- ===== src/ParseInt.antt =====
-- `parse_int` of Utils.c: strtol(str, &p, 0), and the cast of its long to int.
pub mod RoundTrip
use image_app.Common.{
  ℕ, zero, suc, ◌+◌, ◌-◌, ◌*◌, ◌%◌, ◌^◌, ◌≡◌, refl, Bool, true, false, ◌&&◌, ◌||◌, Option, none,
  some, List, [], ◌∷◌, Bytes, codes, ltb, leb, ◌==◌, if◌then◌else◌, ℤ, pos, negsuc, sub_ℕ,
}

-- isspace in the C locale.
abbrev is_space : ℕ → Bool
is_space c = (c == b' ') || (leb 9 c && leb c 13)

-- The value of a digit or a letter.
abbrev digit_value : ℕ → Option ℕ
digit_value c =
    if leb b'0' c && leb c b'9'
    then some (c - b'0')
    else (if leb b'a' c && leb c b'z'
        then some (c - b'a' + 10)
        else (if leb b'A' c && leb c b'Z' then some (c - b'A' + 10) else none))

-- A digit of the base.
abbrev digit : ℕ → ℕ → Option ℕ
digit base c = elim (digit_value c) [ none ↦ none | some d ↦ if ltb d base then some d else none ]

-- The number that the digits at the start of a string spell, behind the number `n`.
digits : ℕ → ℕ → Bytes → ℕ
digits base n [] = n
digits base n (c ∷ s) =
    let rest : ℕ → ℕ = λ d. digits base (n * base + d) s in
    elim (digit base c) [ none ↦ n | some d ↦ rest d ]

-- Base 0: "0x" in front of a hexadecimal digit means 16, another 0 means 8.
after_zero : Bytes → ℕ
unfolding digits
after_zero (x ∷ c ∷ s) =
    if (x == b'x') || (x == b'X')
    then elim (digit 16 c) [ none ↦ 0 | some d ↦ digits 16 0 (c ∷ s) ]
    else digits 8 0 (x ∷ c ∷ s)
after_zero s = digits 8 0 s

magnitude : Bytes → ℕ
unfolding digits after_zero
magnitude [] = 0
magnitude (c ∷ s) = if c == b'0' then after_zero s else digits 10 0 (c ∷ s)

-- A value outside long sets errno to ERANGE: `none`.
abbrev positive : ℕ → Option ℤ
positive m = if ltb m (2 ^ 63) then some (pos m) else none

abbrev negative : ℕ → Option ℤ
negative m = if leb m (2 ^ 63) then some (sub_ℕ 0 m) else none

signed : Bytes → Option ℤ
unfolding magnitude
signed [] = some (pos 0)
signed (c ∷ s) =
    if c == b'-'
    then negative (magnitude s)
    else (if c == b'+' then positive (magnitude s) else positive (magnitude (c ∷ s)))

strtol : Bytes → Option ℤ
unfolding signed
strtol [] = some (pos 0)
strtol (c ∷ s) = let rest = strtol s in if is_space c then rest else signed (c ∷ s)

-- (int) of a long, which keeps its low 32 bits.
abbrev cast_int : ℤ → ℤ
cast_int (pos n) = let r = n % 2 ^ 32 in if ltb r (2 ^ 31) then pos r else negsuc (2 ^ 32 - r - 1)
cast_int (negsuc n) =
    let r = n % 2 ^ 32 in if ltb r (2 ^ 31) then negsuc r else pos (2 ^ 32 - r - 1)

unfoldable pub parse_int : Bytes → ℤ
unfolding strtol
parse_int str = elim (strtol str) [ none ↦ pos 0 | some v ↦ cast_int v ]

reads_hexadecimal : parse_int (codes " -0x1Fz") ≡ negsuc 30
unfolding parse_int
reads_hexadecimal = refl

wraps : parse_int (codes "4294967297") ≡ pos 1
unfolding parse_int
wraps = refl

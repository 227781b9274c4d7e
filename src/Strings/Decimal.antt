-- ===== src/Strings/Decimal.antt =====
-- `convert_int_to_string` and `convert_long_to_string` of Strings.c. A negative value fails the
-- test `value > 0` of both loops at once, as 0 does, so the loops run on the positive part.
pub mod Fill
use image_app.Common.{
  ℕ, zero, suc, ◌+◌, ◌-◌, ◌/◌, ◌%◌, ◌<◌, ◌≡◌, refl, List, [], ◌∷◌, Bytes, Outcome, ok, fault, ◌>>=◌,
  store, ltb, leb, if◌then◌else◌, replicate, ℤ, pos, negsuc, pos_part, codes,
}

-- `while (tmp_value > 0) { tmp_value = tmp_value / 10; count_cipher++; }`. The value falls in each
-- round, so as many rounds as the value are enough fuel (Fill.count-le).
count_ciphers : ℕ → ℕ → ℕ → ℕ
count_ciphers zero tmp_value count = count
count_ciphers (suc fuel) tmp_value count =
    let rest = count_ciphers fuel (tmp_value / 10) (count + 1) in
    if ltb 0 tmp_value then rest else count

-- The second loop. `count_cipher - i` is computed in size_t: the test `>= 0` always holds, and for
-- `i > count_cipher` the index wraps to a huge one, outside the block.
fill_ciphers : ℕ → ℕ → ℕ → ℕ → Bytes → Outcome Bytes
fill_ciphers zero value i count str = ok str
fill_ciphers (suc fuel) value i count str =
    let round =
      (if leb i count then store str (count - i) (value % 10 + b'0') else fault)
      >>= fill_ciphers fuel (value / 10) (i + 1) count in
    if ltb 0 value then round else ok str

-- The body that both functions share, on the positive part of the value.
convert : ℕ → Outcome Bytes
unfolding count_ciphers fill_ciphers
convert v =
    let count = count_ciphers v v 0 in
    fill_ciphers v v 1 count (replicate (count + 1) 0) >>= λ str. store str count 0

-- The block that the function returns.
unfoldable pub convert_int_to_string : ℤ → Outcome Bytes
unfolding convert
convert_int_to_string size = convert (pos_part size)

unfoldable pub convert_long_to_string : ℤ → Outcome Bytes
unfolding convert
convert_long_to_string value = convert (pos_part value)

prints_width : convert_int_to_string (pos 1080) ≡ ok (b'1' ∷ b'0' ∷ b'8' ∷ b'0' ∷ 0 ∷ [])
unfolding convert_int_to_string
prints_width = refl

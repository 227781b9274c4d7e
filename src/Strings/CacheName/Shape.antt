-- ===== src/Strings/CacheName/Shape.antt =====
-- What the string builders of Strings.c return.
use native.Mathlib.Numerals.{add-one}
use native.Mathlib.Nat.{add-suc, add-zero}
use image_app.Common.{
  Lacks, Outcome, zeros, memcpy-zeros, ℕ, suc, ◌+◌, ◌≡◌, refl, ap, ◌∙◌, sym, [], ◌∷◌, ◌++◌,
  append_assoc, Bytes, ok, ◌>>=◌, store, memcpy_at, store-append, drop, length, length-append, ℤ,
  pos_part, arith,
}
use image_app.CString.{cstr}
use image_app.CString.Laws.{cstr-append}
use image_app.Strings.Decimal.Fill.{
  decimal, decimal-Spells, digit-Lacks, convert_int_to_string-decimal,
}
use image_app.Strings.CacheName.{
  Floats, convert_float_to_string, strcat, catenate_strings, append, build_image_name_cache,
}

drop-length : (w r : Bytes) → drop (length w) (w ++ r) ≡ r
drop-length [] r = refl
drop-length (x ∷ w) r = drop-length w r

strcat-zeros :
    (w s : Bytes) (k : ℕ)
    → strcat (w ++ zeros (length s + suc k)) (length w) s ≡ ok (w ++ s ++ zeros (suc k))
unfolding strcat
strcat-zeros w s k =
    rw (drop-length w (zeros (length s + suc k)), add-suc (length s) k, cstr_zeros, add-zero)
      (ap (λ n. memcpy_at (w ++ zeros n) (length w) (s ++ 0 ∷ [])) size
        ∙ memcpy-zeros w (s ++ 0 ∷ []) k
        ∙ ap ok (simp append_assoc))
  where
    cstr_zeros : cstr (zeros (suc (length s + k))) ≡ ok []
    cstr_zeros = cstr-append [] (zeros (length s + k)) tt

    size : suc (length s + k) ≡ length (s ++ 0 ∷ []) + k
    size = omega (arith, length-append s (0 ∷ []))

-- The catenation of any two strings, with its terminator, in a block of the right size.
pub catenate_strings_lem : (s1 s2 : Bytes) → catenate_strings s1 s2 ≡ ok (s1 ++ (s2 ++ 0 ∷ []))
unfolding catenate_strings
catenate_strings_lem s1 s2 =
    rw (first, second)
      (ap (λ n. store (s1 ++ s2 ++ 0 ∷ []) n 0) (sym (length-append s1 s2))
        ∙ store-append (s1 ++ s2) [] 0 0
        ∙ ap ok (append_assoc s1 s2 (0 ∷ [])))
  where
    size : length s1 + length s2 + 1 ≡ length s1 + suc (length s2)
    size = omega arith

    first : strcat (zeros (length s1 + length s2 + 1)) 0 s1 ≡ ok (s1 ++ zeros (suc (length s2)))
    first = rw size (strcat-zeros [] s1 (length s2))

    second : strcat (s1 ++ zeros (suc (length s2))) (length s1) s2 ≡ ok (s1 ++ s2 ++ 0 ∷ [])
    second =
        ap (λ n. strcat (s1 ++ zeros n) (length s1) s2) (sym (add-one (length s2)))
        ∙ strcat-zeros s1 s2 0

-- Two strings put together by `catenate_strings`, for what follows.
pub catenate_strings-cstr :
    {B : Type 0} (s t : Bytes) (k : Bytes → Outcome B)
    → Lacks 0 (s ++ t)
    → (catenate_strings s t >>= λ block. cstr block >>= k) ≡ k (s ++ t)
catenate_strings-cstr s t k clean =
    rw (catenate_strings_lem s t, ← append_assoc s t (0 ∷ []), cstr-append (s ++ t) [] clean)

-- One piece of the cache name, behind the text `w` in a block of zeros.
append-zeros :
    (w s : Bytes) (k : ℕ)
    → append (w ++ zeros (length s + k), length w) s ≡ ok (w ++ s ++ zeros k, length (w ++ s))
unfolding append
append-zeros w s k = rw (memcpy-zeros w s k, length-append w s)

-- Five pieces and the terminator fill their block.
fill_five :
    (a b c d e : Bytes)
    → (append (zeros (length a + (length b + (length c + (length d + (length e + 1))))), 0) a
        >>= λ s. append s b >>= λ s.
            append s c >>= λ s. append s d >>= λ s. append s e >>= λ s. store s.0 s.1 0)
      ≡ ok (a ++ (b ++ (c ++ (d ++ (e ++ 0 ∷ [])))))
fill_five a b c d e =
    rw
      (
        append-zeros [] a _,
        append-zeros a b _,
        append-zeros (a ++ b) c _,
        append-zeros (a ++ b ++ c) d _,
        append-zeros (a ++ b ++ c ++ d) e _,
      )
      (store-append (a ++ b ++ c ++ d ++ e) [] 0 0 ∙ ap ok (simp append_assoc))

-- The name of a cached image, when the quality prints as `q`: the image's name, the quality, and
-- the numerals of width, height and colors, with nothing between them.
pub build_image_name_cache_lem :
    (F : Floats) (name : Bytes) (quality : F.Float) (width height colors : ℤ) {b q : Bytes}
    → convert_float_to_string F quality ≡ ok b
    → cstr b ≡ ok q
    → build_image_name_cache F name quality width height colors
      ≡ ok (
          name
          ++ (q
              ++ (decimal (pos_part width)
                  ++ (decimal (pos_part height) ++ (decimal (pos_part colors) ++ 0 ∷ [])))))
unfolding build_image_name_cache
build_image_name_cache_lem F name quality width height colors {q = q} eb eq =
    rw
      (
        eb,
        eq,
        convert_int_to_string-decimal width,
        numeral_text width,
        convert_int_to_string-decimal height,
        numeral_text height,
        convert_int_to_string-decimal colors,
        numeral_text colors,
        size,
      )
      (fill_five name q (decimal w) (decimal h) (decimal c))
  where
    w : ℕ
    w = pos_part width

    h : ℕ
    h = pos_part height

    c : ℕ
    c = pos_part colors

    size :
        length name + length q + length (decimal h) + length (decimal c) + length (decimal w) + 1
        ≡ length name
          + (length q + (length (decimal w) + (length (decimal h) + (length (decimal c) + 1))))
    size = omega arith

    numeral_text : (n : ℤ) → cstr (decimal (pos_part n) ++ 0 ∷ []) ≡ ok (decimal (pos_part n))
    numeral_text n =
        cstr-append _ [] (digit-Lacks (decimal (pos_part n)) (decimal-Spells (pos_part n)).digits)

-- For a quality that can be printed, two displays get the same name, and so the same cached
-- image, if the numerals of their width and height run together to the same digits: the name
-- does not say where one ends.
pub build_image_name_cache_collision :
    (F : Floats) (name : Bytes) (quality : F.Float) (w h w' h' colors : ℤ) {b q : Bytes}
    → convert_float_to_string F quality ≡ ok b
    → cstr b ≡ ok q
    → decimal (pos_part w) ++ decimal (pos_part h) ≡ decimal (pos_part w') ++ decimal (pos_part h')
    → build_image_name_cache F name quality w h colors
      ≡ build_image_name_cache F name quality w' h' colors
build_image_name_cache_collision F name quality w h w' h' colors eb eq e = rw (
  build_image_name_cache_lem F name quality w h colors eb eq,
  build_image_name_cache_lem F name quality w' h' colors eb eq,
  ← append_assoc (decimal (pos_part w)) (decimal (pos_part h)) _,
  ← append_assoc (decimal (pos_part w')) (decimal (pos_part h')) _,
  e,
)

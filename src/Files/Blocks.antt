-- ===== src/Files/Blocks.antt =====
-- What `read_block` returns, and the state that `get_cache_file` leaves.
use image_app.Common.{
  ℕ, zero, suc, ◌-◌, ◌<◌, ◌≡◌, refl, ap, ◌∙◌, sym, false, some, List, [], ◌∷◌, ◌++◌, Bytes, All, ok,
  lt→ltb, ◌==◌, length, take, arith,
}
use image_app.Files.{Chunk, got, failed, read_block}

-- The bytes of the chunks.
abbrev pub joined : List Bytes → Bytes
joined [] = []
joined (c ∷ cs) = c ++ joined cs

-- The end of the file, behind the chunks.
abbrev pub to_end : List Bytes → List Chunk
to_end [] = got [] ∷ []
to_end (c ∷ cs) = got c ∷ to_end cs

take-append : (n : ℕ) (c r : Bytes) → take n (c ++ r) ≡ take n c ++ take (n - length (take n c)) r
take-append zero c r = refl
take-append (suc n) [] r = let same : suc n ≡ suc n - 0 = omega arith in ap (λ k. take k r) same
take-append (suc n) (x ∷ c) r =
    let same : n - length (take n c) ≡ suc n - suc (length (take n c)) = omega arith in
    ap (◌∷◌ x) (take-append n c r ∙ ap (λ k. take n c ++ take k r) same)

some_taken : (n : ℕ) (c : Bytes) → 0 < length c → (length (take (suc n) c) == 0) ≡ false
some_taken n [] h = absurd (omega arith)
some_taken n (x ∷ c) h = ground arith

read_nothing : (more : List Chunk) → read_block more 0 ≡ ok (some [])
unfolding read_block
read_nothing [] = refl
read_nothing (failed ∷ more) = refl
read_nothing (got c ∷ more) = refl

-- While read gives the file in pieces, none of them empty, and then its end, `read_block` returns
-- the first `wanted` bytes of the file, or the whole file if it has fewer.
pub read_block_lem :
    (pieces : List Bytes) (wanted : ℕ)
    → All (λ p. 0 < length p) pieces
    → read_block (to_end pieces) wanted ≡ ok (some (take wanted (joined pieces)))
unfolding read_block
read_block_lem pieces zero h = read_nothing (to_end pieces)
read_block_lem [] (suc n) h = rw (lt→ltb 0 (suc n) (omega arith))
read_block_lem (p ∷ pieces) (suc n) h =
    rw
      (
        lt→ltb 0 (suc n) (omega arith),
        some_taken n p h.0,
        read_block_lem pieces (suc n - length (take (suc n) p)) h.1,
      )
      (ap (λ s. ok (some s)) (sym (take-append (suc n) p (joined pieces))))

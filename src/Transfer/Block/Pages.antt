-- ===== src/Transfer/Block/Pages.antt =====
-- What goes out of a block that `write_block` writes, and what becomes of an error page.
use native.Mathlib.Nat.{zero-add}
use image_app.Common.{
  ◌^◌, codes, ℕ, zero, suc, ◌+◌, ◌-◌, ◌<◌, ◌≤◌, ◌≡◌, refl, ap, ◌∙◌, sym, true, false, none, List,
  [], ◌∷◌, ◌++◌, append-nil, Bytes, ok, read_at, read_at-take, lt→ltb, ◌==◌, length, length-append,
  length-drop, take, drop, ℤ, pos, arith,
}
use image_app.Transfer.{Answer, room, done, waiting, broken, emit, lesser}
use image_app.Strings.Message.ErrorPage.{build_message_bad_request, error_start, error_end}
use image_app.Transfer.Whole.{lesser_all, send_headers_whole, cstr-length}
use image_app.Transfer.Short.{take_long}
use image_app.Transfer.Block.{
  moved_by, less, write_block, write_page, after_page_headers, send_page,
}

read_at-drop : (b : Bytes) (i n : ℕ) → i + n ≤ length b → read_at b i n ≡ ok (take n (drop i b))
read_at-drop b zero n h = read_at-take n b (omega arith)
read_at-drop [] (suc i) n h = absurd (omega arith)
read_at-drop (x ∷ b) (suc i) n h = read_at-drop b i n (omega arith)

less-ok : (size n : ℕ) → n ≤ size → less size (pos n) ≡ ok (size - n)
unfolding less
less-ok size n h = ground arith

-- One round, in which `w` bytes are written after `v` in the round before.
write_block-step :
    (block : Bytes) (k buf size v w : ℕ) (ss : List Answer)
    → 0 < size
    → v ≤ size
    → w ≤ size
    → lesser k (size - v) ≡ w
    → buf + v + w ≤ length block
    → write_block block (room k ∷ ss) buf size (pos v)
      ≡ emit (take w (drop (buf + v) block)) (write_block block ss (buf + w) (size - w) (pos w))
unfolding write_block moved_by
write_block-step block k buf size v w ss some_left fits small taken inside = rw (
  lt→ltb 0 size some_left,
  less-ok size v fits,
  taken,
  read_at-drop block (buf + v) w inside,
  less-ok size w small,
)

-- The loop waits when no answer is left.
write_block-wait :
    (block : Bytes) (buf size : ℕ) (v : ℤ) → 0 < size → write_block block [] buf size v ≡ waiting []
unfolding write_block
write_block-wait block buf size v h = rw (lt→ltb 0 size h)

-- A call of write that takes only the first `k` bytes, one or more and at most half of them, makes
-- the next one start at twice `k`: what goes out next is the rest from there on, and the bytes
-- between are left out.
pub write_block_short :
    (block : Bytes) (k r : ℕ)
    → 0 < k
    → k + k ≤ length block
    → length block ≤ r
    → write_block block (room k ∷ room r ∷ []) 0 (length block) (pos 0)
      ≡ waiting (take k block ++ drop (k + k) block)
write_block_short block k r some_byte half fits =
    write_block-step block k 0 n 0 k (room r ∷ []) (omega arith) (omega arith) (omega arith)
      (ground arith) (omega arith)
    ∙ ap (emit (take k block)) (
        write_block-step block r (0 + k) (n - k) k w [] (omega arith) (omega arith) (omega arith)
          (lesser_all r w (omega arith)) (omega arith)
        ∙ ap (emit (take w (drop (0 + k + k) block)))
            (write_block-wait block (0 + k + w) (n - k - w) (pos w) (omega arith))
        ∙ ap waiting (append-nil (take w (drop (0 + k + k) block)) ∙ rest_whole))
  where
    n : ℕ
    n = length block

    w : ℕ
    w = n - k - k

    rest_whole : take w (drop (0 + k + k) block) ≡ drop (k + k) block
    rest_whole =
        rw (zero-add) (take_long w (drop (k + k) block) (omega (arith, length-drop (k + k) block)))

write_block-done :
    (block : Bytes) (buf : ℕ) (v : ℤ) (ss : List Answer)
    → write_block block ss buf 0 v ≡ done none [] ss
unfolding write_block
write_block-done block buf v [] = refl
write_block-done block buf v (room k ∷ ss) = refl
write_block-done block buf v (Answer.pipe ∷ ss) = refl
write_block-done block buf v (Answer.again ∷ ss) = refl
write_block-done block buf v (Answer.other ∷ ss) = refl

-- The loop over a page uses a value that was never returned.
write_page_undefined :
    (block : Bytes) (fuel k : ℕ) (ss : List Answer)
    → 0 < length block
    → length block ≤ k
    → write_page (suc fuel) block (length block) 0 (room k ∷ ss) ≡ broken
unfolding write_page
write_page_undefined block fuel k ss some_byte fits = rw (nonzero, lt→ltb 0 n some_byte, whole)
  where
    n : ℕ
    n = length block

    nonzero : (0 == n) ≡ false
    nonzero = ground arith

    whole : write_block block (room k ∷ ss) 0 (n - 0) (pos 0) ≡ done none block ss
    whole =
        ap (λ m. write_block block (room k ∷ ss) 0 m (pos 0)) (omega arith)
        ∙ write_block-step block k 0 n 0 n ss some_byte (omega arith) (omega arith) (ground arith)
            (omega arith)
        ∙ rw (take_long n block (omega arith)) (
            ap (emit block) (
              ap (λ m. write_block block ss (0 + n) m (pos n)) (omega arith)
              ∙ write_block-done block (0 + n) (pos n) ss)
            ∙ ap (λ t. done none t ss) (append-nil block))

-- For an error page shorter than 2^63 - 1, even where a call of send takes at
-- least 512 bytes and a call of write the whole page, the function goes on with a value that
-- `write_block` has not returned, which is undefined.
pub send_page_undefined :
    (page msg : Bytes) (k l : ℕ) (ss : List Answer)
    → length msg ≡ 512
    → length page + 1 < 2 ^ 63
    → 512 ≤ k
    → length page + 1 ≤ l
    → send_page page msg (room k ∷ room l ∷ ss) ≡ broken
unfolding send_page
send_page_undefined page msg k l ss size small header_fits page_fits =
    let (s, spells, (m, built, text, whole)) =
      build_message_bad_request (codes "text/html") msg page size small in
    let header = error_start ++ (s ++ error_end) in
    let long : 0 < length header = omega (arith, length-append error_start (s ++ error_end)) in
    rw (
      built,
      text,
      send_headers_whole m header k (room l ∷ ss) text long
          (omega (arith, cstr-length m header text)),
      page_written,
    )
  where
    page_written : after_page_headers page true (room l ∷ ss) ≡ broken
    page_written =
        unfold after_page_headers in
        ap (λ n. write_page (suc (length (room l ∷ ss))) (page ++ 0 ∷ []) n 0 (room l ∷ ss))
          (sym (length-append page (0 ∷ [])))
        ∙ write_page_undefined (page ++ 0 ∷ []) (length (room l ∷ ss)) l ss
            (omega (arith, length-append page (0 ∷ [])))
            (omega (arith, length-append page (0 ∷ [])))

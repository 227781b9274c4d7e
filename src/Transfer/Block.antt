-- ===== src/Transfer/Block.antt =====
-- `write_block` of Utils.c, and `send_bad_request` and `send_service_unavailable` of Request.c, which
-- have the same body for two pages.
pub mod Pages
use image_app.Common.{
  ℕ, zero, suc, ◌+◌, ◌-◌, ◌≡◌, refl, Bool, true, false, Option, none, some, List, [], ◌∷◌, ◌++◌,
  Bytes, codes, Outcome, ok, exit, fault, ◌>>=◌, read_at, ltb, leb, ◌==◌, if◌then◌else◌, length, ℤ,
  pos, negsuc,
}
use image_app.CString.{cstr}
use image_app.Strings.Message.{build_message}
use image_app.Transfer.{
  Answer, room, pipe, again, other, Run, done, waiting, exited, broken, emit, then_run, run, lesser,
  send_headers, error_sending_code, connection_closed_code,
}

-- `buf + v`, for an offset in the block; a pointer before the block is undefined.
moved_by : ℕ → ℤ → Outcome ℕ
moved_by at (pos n) = ok (at + n)
moved_by at (negsuc n) = if leb (suc n) at then ok (at - suc n) else fault

-- `size - v`. Where it wraps, a call would be told to write nearly 2^64 bytes.
less : ℕ → ℤ → Outcome ℕ
less size (pos n) = if leb n size then ok (size - n) else fault
less size (negsuc n) = ok (size + suc n)

-- The loop, with the offset of `buf`, the size left and the last `v`. The value is `none` where the
-- body ends without a return.
unfoldable pub write_block : Bytes → List Answer → ℕ → ℕ → ℤ → Run (Option ℕ)
unfolding moved_by less
write_block block [] buf size v = if ltb 0 size then waiting [] else done none [] []
write_block block (pipe ∷ ss) buf size v =
    if ltb 0 size then done (some connection_closed_code) [] ss else done none [] (pipe ∷ ss)
write_block block (other ∷ ss) buf size v =
    if ltb 0 size then done (some error_sending_code) [] ss else done none [] (other ∷ ss)
write_block block (again ∷ ss) buf size v =
    let round =
      run (moved_by buf (negsuc 0)) (λ at. write_block block ss at (size + 1) (negsuc 0)) in
    if ltb 0 size then round else done none [] (again ∷ ss)
write_block block (room k ∷ ss) buf size v =
    let round = run (moved_by buf v) (λ at. run (less size v) (λ n.
      let w = lesser k n in
      run (read_at block at w) (λ out.
        run (less size (pos w))
          (λ left. emit out (write_block block ss (buf + w) left (pos w)))))) in
    if ltb 0 size then round else done none [] (room k ∷ ss)

-- The loops over write_block, with `w` bytes of the page counted. A value that was never returned
-- is used, which is undefined; a status is not -1, so it is added to `w` like a number of bytes.
-- Each call that returns a status takes an answer, so their number is enough fuel.
pub write_page : ℕ → Bytes → ℕ → ℕ → List Answer → Run (Option ℕ)
write_page zero block len w script = waiting []
write_page (suc fuel) block len w script =
    let round = then_run (write_block block script w (len - w) (pos 0)) (λ v rest. elim v [
      | none ↦ broken
      | some status ↦ write_page fuel block len (w + status) rest
    ]) in
    if w == len then done none [] script else if ltb w len then round else broken

after_page_headers : Bytes → Bool → List Answer → Run (Option ℕ)
unfolding write_page
after_page_headers page false rest = done (some error_sending_code) [] rest
after_page_headers page true rest =
    write_page (suc (length rest)) (page ++ 0 ∷ []) (length page + 1) 0 rest

unfoldable pub send_page : Bytes → Bytes → List Answer → Run (Option ℕ)
unfolding after_page_headers
send_page page msg script =
    run (build_message {A = ℕ} (pos (length page + 1)) (codes "text/html") msg none (some page))
      (λ built. run (cstr built.0) (λ text.
        then_run (send_headers built.0 (length text) built.1 script 0) (after_page_headers page)))

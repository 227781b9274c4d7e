-- ===== src/Transfer.antt =====
-- `send_file_fd` and `send_image` of Request.c. What the kernel answers to the calls of send and
-- sendfile is a script, one answer for each call.
pub mod Whole
pub mod Short
pub mod Block
pub mod Html
pub mod Ends
use image_app.Common.{
  ℕ, zero, suc, ◌+◌, ◌-◌, ◌≡◌, refl, Bool, true, false, Option, none, some, List, [], ◌∷◌, ◌++◌,
  Bytes, Outcome, ok, exit, fault, read_at, ltb, leb, ◌==◌, if◌then◌else◌, length, take, drop, ℤ,
  pos, codes,
}
use image_app.CString.{cstr}
use image_app.Strings.Message.{build_message}
use image_app.Request.Status.{RequestStatus, get_cmd}

-- Room for a number of bytes; -1 with errno EPIPE; -1 with EAGAIN; -1 with another errno.
pub data Answer : Type 0 where
  room : ℕ → Answer
  pipe again other : Answer

-- A call that has returned with the bytes that went out and the answers that are left; one that
-- still waits for an answer; the two ways in which the process comes to an end.
pub data Run (A : Type 0) : Type 0 where
  done : A → Bytes → List Answer → Run A
  waiting : Bytes → Run A
  exited : Run A
  broken : Run A

-- What went out before the rest of the run.
abbrev pub emit : {A : Type 0} → Bytes → Run A → Run A
emit out (done a s r) = done a (out ++ s) r
emit out (waiting s) = waiting (out ++ s)
emit out exited = exited
emit out broken = broken

-- What follows a run that has returned.
abbrev pub then_run : {A B : Type 0} → Run A → (A → List Answer → Run B) → Run B
then_run (done a s r) f = emit s (f a r)
then_run (waiting s) f = waiting s
then_run exited f = exited
then_run broken f = broken

abbrev pub run : {A B : Type 0} → Outcome A → (A → Run B) → Run B
run (ok a) f = f a
run exit f = exited
run fault f = broken

abbrev pub lesser : ℕ → ℕ → ℕ
lesser k n = if leb k n then k else n

-- The loop over send. Every call is given the length of the whole text, wherever it starts. The
-- value tells whether the loop came to its end.
unfoldable pub send_headers : Bytes → ℕ → ℕ → List Answer → ℕ → Run Bool
send_headers msg text_len len_header [] sent =
    if ltb sent len_header then waiting [] else done true [] []
send_headers msg text_len len_header (pipe ∷ ss) sent =
    if ltb sent len_header then done false [] ss else done true [] (pipe ∷ ss)
send_headers msg text_len len_header (again ∷ ss) sent =
    if ltb sent len_header then done false [] ss else done true [] (again ∷ ss)
send_headers msg text_len len_header (other ∷ ss) sent =
    if ltb sent len_header then done false [] ss else done true [] (other ∷ ss)
send_headers msg text_len len_header (room k ∷ ss) sent =
    let s = lesser k text_len in
    let rest = send_headers msg text_len len_header ss (sent + s) in
    let round = run (read_at msg sent s) (λ out. emit out rest) in
    if ltb sent len_header then round else done true [] (room k ∷ ss)

-- The two enumerators of `rqst_stat` that are returned in place of a number of bytes.
abbrev pub error_sending_code : ℕ
error_sending_code = 11

abbrev pub connection_closed_code : ℕ
connection_closed_code = 12

-- The loop over sendfile, which advances `offset` itself; the loop advances it again.
unfoldable pub send_file_fd : Bytes → ℕ → List Answer → ℕ → ℕ → Run ℕ
send_file_fd file size [] len offset = if ltb len size then waiting [] else done len [] []
send_file_fd file size (pipe ∷ ss) len offset =
    if ltb len size then done connection_closed_code [] ss else done len [] (pipe ∷ ss)
send_file_fd file size (again ∷ ss) len offset =
    if ltb len size then done error_sending_code [] ss else done len [] (again ∷ ss)
send_file_fd file size (other ∷ ss) len offset =
    if ltb len size then done error_sending_code [] ss else done len [] (other ∷ ss)
send_file_fd file size (room k ∷ ss) len offset =
    let out = take (lesser k (size - len)) (drop offset file) in
    let v = length out in
    let rest = send_file_fd file size ss (len + v) (offset + v + v) in
    if ltb len size then emit out rest else done len [] (room k ∷ ss)

-- `while (retry > 0)`.
unfoldable pub attempts : Bytes → ℕ → List Answer → ℕ → Run ℕ
attempts file file_size script zero = done 0 [] script
attempts file file_size script (suc retry) =
    then_run (send_file_fd file file_size script 0 0) (λ v rest.
      let retried = attempts file file_size rest retry in
      if v == error_sending_code
      then done error_sending_code [] rest
      else if v == connection_closed_code
      then done connection_closed_code [] rest
      else if v == file_size
      then done 0 [] rest
      else retried)

-- What `send_image` needs of the image: its size, its extension, and the bytes behind `image->fd`.
pub record Image : Type 0 where
  pub file_size : ℕ
  pub ext : Bytes
  pub file : Bytes

abbrev is_get : RequestStatus → Bool
is_get get_cmd = true
is_get c = false

abbrev some_code : ℕ → List Answer → Run (Option ℕ)
some_code v rest = done (some v) [] rest

after_headers : Image → RequestStatus → Bool → List Answer → Run (Option ℕ)
after_headers image cmd false rest = some_code error_sending_code rest
after_headers image cmd true rest =
    if is_get cmd
    then then_run (attempts image.file image.file_size rest 5) some_code
    else done none [] rest

-- The integer that is returned, `none` where the end of the body is reached without a return.
-- `msg` is what is in the buffer at first.
unfoldable pub send_image : Bytes → Image → RequestStatus → List Answer → Run (Option ℕ)
unfolding after_headers
send_image msg image cmd script =
    run (build_message (pos image.file_size) image.ext msg (some image) none) (λ built.
      run (cstr built.0) (λ text.
        then_run (send_headers built.0 (length text) built.1 script 0) (after_headers image cmd)))

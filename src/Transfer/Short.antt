-- ===== src/Transfer/Short.antt =====
-- What the client gets when a call takes less than it is given.
use native.Mathlib.Nat.{zero-add}
use image_app.Common.{
  ℕ, zero, suc, ◌+◌, ◌-◌, ◌<◌, ◌≤◌, ◌≡◌, refl, ap, ◌∙◌, sym, true, List, [], ◌∷◌, ◌++◌, append-nil,
  append_assoc, Bytes, map, ok, read_at, read_at-take, lt→ltb, length, length-drop, take, drop,
  arith,
}
use image_app.Transfer.{Answer, room, done, waiting, emit, lesser, send_headers, send_file_fd}
use image_app.Transfer.Whole.{lesser_all, ended_headers}

drop_out : (n : ℕ) (xs : Bytes) → length xs ≤ n → drop n xs ≡ []
drop_out zero [] h = refl
drop_out zero (x ∷ xs) h = absurd (omega arith)
drop_out (suc n) [] h = refl
drop_out (suc n) (x ∷ xs) h = drop_out n xs (omega arith)

take-nil : (n : ℕ) → ◌≡◌ {A = Bytes} (take n []) []
take-nil zero = refl
take-nil (suc n) = refl

pub take_long : (n : ℕ) (xs : Bytes) → length xs ≤ n → take n xs ≡ xs
take_long zero [] h = refl
take_long zero (x ∷ xs) h = absurd (omega arith)
take_long (suc n) [] h = refl
take_long (suc n) (x ∷ xs) h = ap (◌∷◌ x) (take_long n xs (omega arith))

length-take : (n : ℕ) (xs : Bytes) → n ≤ length xs → length (take n xs) ≡ n
length-take zero xs h = refl
length-take (suc n) [] h = absurd (omega arith)
length-take (suc n) (x ∷ xs) h = omega (arith, length-take n xs (omega arith))

-- Behind the end of the file nothing goes out any more, and the loop does not end.
stuck :
    (file : Bytes) (size len offset : ℕ) (rs : List ℕ)
    → len < size
    → length file ≤ offset
    → send_file_fd file size (map room rs) len offset ≡ waiting []
unfolding send_file_fd
stuck file size len offset [] h past = rw (lt→ltb len size h)
stuck file size len offset (r ∷ rs) h past =
    rw (lt→ltb len size h, drop_out offset file past, take-nil (lesser r (size - len)))
      (ap (emit []) (stuck file size (len + 0) (offset + 0 + 0) rs (omega arith) (omega arith)))

-- One round of the loop.
send_file_fd-step :
    (file out : Bytes) (size k len offset : ℕ) (ss : List Answer)
    → len < size
    → take (lesser k (size - len)) (drop offset file) ≡ out
    → send_file_fd file size (room k ∷ ss) len offset
      ≡ emit out (send_file_fd file size ss (len + length out) (offset + length out + length out))
unfolding send_file_fd
send_file_fd-step file out size k len offset ss h e = rw (lt→ltb len size h, e)

-- A call of sendfile that takes only the first `k` bytes, one or more, makes the next one start
-- at twice `k`: the bytes between never go out, even if the socket takes all it is given from
-- then on, and the loop does not end, however many calls follow.
pub send_file_fd_short :
    (file : Bytes) (k r : ℕ) (rs : List ℕ)
    → 0 < k
    → k < length file
    → length file ≤ r
    → send_file_fd file (length file) (room k ∷ room r ∷ map room rs) 0 0
      ≡ waiting (take k file ++ drop (k + k) file)
send_file_fd_short file k r rs some_byte short fits =
    send_file_fd-step file (take k file) n k 0 0 _ (omega arith)
      (ap (λ m. take m file) (ground arith))
    ∙ rw (length-take k file (omega arith), zero-add)
        (ap (emit (take k file)) (
          send_file_fd-step file rest n r k (k + k) (map room rs) short
            (take_long (lesser r (n - k)) rest (ground (arith, length-drop (k + k) file)))
          ∙ ap (emit rest) (
              stuck file n _ _ rs (omega (arith, length-drop (k + k) file))
                (omega (arith, length-drop (k + k) file)))
          ∙ ap waiting (append-nil rest)))
  where
    n : ℕ
    n = length file

    rest : Bytes
    rest = drop (k + k) file

take-append : (xs ys : Bytes) (n : ℕ) → n ≤ length xs → read_at (xs ++ ys) 0 n ≡ ok (take n xs)
take-append xs ys zero h = refl
take-append [] ys (suc n) h = absurd (omega arith)
take-append (x ∷ xs) ys (suc n) h = rw (take-append xs ys n (omega arith))

read_at-skip :
    (xs ys : Bytes) (i n : ℕ)
    → i ≤ length xs
    → read_at (xs ++ ys) i n ≡ read_at (drop i xs ++ ys) 0 n
read_at-skip xs ys zero n h = refl
read_at-skip [] ys (suc i) n h = absurd (omega arith)
read_at-skip (x ∷ xs) ys (suc i) n h = read_at-skip xs ys i n (omega arith)

read_at-over :
    (xs ys : Bytes) (n : ℕ)
    → length xs ≤ n
    → n ≤ length xs + length ys
    → read_at (xs ++ ys) 0 n ≡ ok (xs ++ take (n - length xs) ys)
read_at-over [] ys n h l =
    rw (read_at-take n ys (omega arith)) (ap (λ m. ok (take m ys)) (omega arith))
read_at-over (x ∷ xs) ys zero h l = absurd (omega arith)
read_at-over (x ∷ xs) ys (suc n) h l =
    let same : suc n - suc (length xs) ≡ n - length xs = omega arith in
    rw (read_at-over xs ys n (omega arith) (omega arith), same)

take-drop : (n : ℕ) (xs : Bytes) → take n xs ++ drop n xs ≡ xs
take-drop zero xs = refl
take-drop (suc n) [] = refl
take-drop (suc n) (x ∷ xs) = ap (◌∷◌ x) (take-drop n xs)

send_headers-step :
    (m out : Bytes) (n k len sent : ℕ) (ss : List Answer)
    → sent < len
    → read_at m sent (lesser k n) ≡ ok out
    → send_headers m n len (room k ∷ ss) sent
      ≡ emit out (send_headers m n len ss (sent + lesser k n))
unfolding send_headers
send_headers-step m out n k len sent ss h e = rw (lt→ltb sent len h, e)

-- After a call of send that takes only the first `k` bytes of a header, one or more, the next
-- one is given as many bytes as the whole header has. If it takes them all, the client gets the
-- header, and then `k` bytes of what lies behind it in the buffer.
pub send_headers_short :
    (header behind : Bytes) (k r : ℕ) (ss : List Answer)
    → 0 < k
    → k < length header
    → length header ≤ r
    → k ≤ length behind
    → send_headers (header ++ behind) (length header) (length header) (room k ∷ room r ∷ ss) 0
      ≡ done true (header ++ take k behind) ss
send_headers_short header behind k r ss some_byte short fits more =
    send_headers-step m (take k header) n k n 0 (room r ∷ ss) (omega arith)
      (rw (first) (take-append header behind k (omega arith)))
    ∙ rw (first, zero-add)
        (ap (emit (take k header))
            (send_headers-step m (drop k header ++ take k behind) n r n k ss short second ∙ ended)
          ∙ ap (λ t. done true t ss) joined)
  where
    n : ℕ
    n = length header

    m : Bytes
    m = header ++ behind

    first : lesser k n ≡ k
    first = ground arith

    left : n - length (drop k header) ≡ k
    left = omega (arith, length-drop k header)

    second : read_at m k (lesser r n) ≡ ok (drop k header ++ take k behind)
    second = rw (
      lesser_all r n fits,
      read_at-skip header behind k n (omega arith),
      read_at-over (drop k header) behind n (omega (arith, length-drop k header))
          (omega (arith, length-drop k header)),
      left,
    )

    ended :
        emit (drop k header ++ take k behind) (send_headers m n n ss (k + lesser r n))
        ≡ done true (drop k header ++ take k behind) ss
    ended = rw (lesser_all r n fits, ended_headers m n n (k + n) ss (omega arith), append-nil)

    joined : take k header ++ (drop k header ++ take k behind) ≡ header ++ take k behind
    joined =
        sym (append_assoc (take k header) (drop k header) (take k behind))
        ∙ ap (λ t. t ++ take k behind) (take-drop k header)

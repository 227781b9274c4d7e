-- ===== src/Request/Receive/Chunks.antt =====
-- A message that arrives in pieces.

use image_app.Common.{
  ℕ, zero, suc, ◌+◌, ◌-◌, ◌<◌, ◌≤◌, ◌≡◌, refl, ap, ◌∙◌, subst, false, Option, none, some, List, [],
  ◌∷◌, ◌++◌, append_assoc, append-nil, Bytes, map, Lacks, All, All-append, ok, fault, store,
  memcpy_at, memcpy-zeros, zeros, replicate, concat, ◌==◌, if◌then◌else◌, length, length-append,
  take, arith, Bool-cases, inl, inr,
}
use image_app.CString.{cstr}
use image_app.CString.Laws.{cstr-append}
use image_app.Request.Status.{RequestStatus, empty_message, request_received}
use image_app.Request.Receive.{
  Arrival, bytes, is_complete, http_message_size, receive_loop, receive_request,
}

-- The first text that is complete, of `w` and one piece more at a time.
unfoldable pub first_complete : Bytes → List Bytes → Option Bytes
first_complete w [] = none
first_complete w (c ∷ cs) =
    let rest = first_complete (w ++ c) cs in if is_complete (w ++ c) then some (w ++ c) else rest

-- A piece of text, not empty.
abbrev pub IsPiece : Bytes → Type 0
IsPiece c = Lacks 0 c × (0 < length c)

-- The buffer with a text at its start and zeros behind it.
abbrev pub padded : Bytes → Bytes
padded s = s ++ zeros (http_message_size - length s)

take_short : (n : ℕ) (xs : Bytes) → length xs ≤ n → take n xs ≡ xs
take_short zero [] h = refl
take_short zero (x ∷ xs) h = absurd (omega arith)
take_short (suc n) [] h = refl
take_short (suc n) (x ∷ xs) h = ap (◌∷◌ x) (take_short n xs (omega arith))

store-padded :
    (w : Bytes) (k n : ℕ)
    → n ≡ length w + k
    → store (w ++ zeros (suc k)) n 0 ≡ ok (w ++ zeros (suc k))
store-padded [] zero zero e = refl
store-padded [] zero (suc n) e = absurd (omega arith)
store-padded [] (suc k) zero e = refl
store-padded [] (suc k) (suc n) e = rw (store-padded [] k n (omega arith))
store-padded (x ∷ w) k zero e = absurd (omega arith)
store-padded (x ∷ w) k (suc n) e = rw (store-padded w k n (omega arith))

cstr-padded : (w : Bytes) → Lacks 0 w → length w < 512 → cstr (padded w) ≡ ok w
cstr-padded w clean short =
    let more : 512 - length w ≡ suc (511 - length w) = omega arith in
    rw (more) (cstr-append w (zeros (511 - length w)) clean)

store-last : (w : Bytes) → length w < 512 → store (padded w) 511 0 ≡ ok (padded w)
store-last w short =
    let more : 512 - length w ≡ suc (511 - length w) = omega arith in
    rw (more) (store-padded w (511 - length w) 511 (omega arith))

memcpy-padded :
    (w c : Bytes)
    → length w + length c < 512
    → memcpy_at (padded w) (length w) c ≡ ok (padded (w ++ c))
memcpy-padded w c short =
    let left : 512 - length w ≡ length c + (512 - length (w ++ c)) =
      omega (arith, length-append w c) in
    rw (left) (memcpy-zeros w c (512 - length (w ++ c)))

-- One round of the loop on bytes that fit.
receive_loop-step :
    (next : List Arrival) (w c : Bytes) (retry : ℕ)
    → Lacks 0 w
    → Lacks 0 c
    → length w + length c < 512
    → receive_loop (bytes c ∷ next) (padded w) (length w) retry ≡ (
        if is_complete (w ++ c)
        then ok (some (request_received, padded (w ++ c)))
        else (if length c == 0
            then ok (some (empty_message, padded (w ++ c)))
            else receive_loop next (padded (w ++ c)) (length (w ++ c)) retry))
unfolding receive_loop
receive_loop-step next w c retry hw hc short = rw (
  take_short (512 - length w) c (omega arith),
  memcpy-padded w c short,
  cstr-padded (w ++ c) (All-append _ w c hw hc) fits,
  store-last (w ++ c) fits,
  ← length-append w c,
)
  where
    fits : length (w ++ c) < 512
    fits = omega (arith, length-append w c)

-- The status and the buffer after the pieces, given the first complete text of them.
abbrev pub verdict : Option Bytes → Bytes → RequestStatus × Bytes
verdict none all = (empty_message, padded all)
verdict (some message) all = (request_received, padded message)

receive_pieces :
    (cs : List Bytes) (w : Bytes) (rest : List Arrival)
    → Lacks 0 w
    → is_complete w ≡ false
    → All IsPiece cs
    → length w + length (concat cs) < 512
    → receive_loop (map bytes cs ++ bytes [] ∷ rest) (padded w) (length w) 2
      ≡ ok (some (verdict (first_complete w cs) (w ++ concat cs)))
receive_pieces [] w rest hw open_yet h short =
    receive_loop-step rest w [] 2 hw tt (omega arith)
    ∙ unfold first_complete in rw (append-nil w, open_yet)
receive_pieces (c ∷ cs) w rest hw open_yet h short =
    receive_loop-step (map bytes cs ++ bytes [] ∷ rest) w c 2 hw h.0.0
      (omega (arith, length-append c (concat cs)))
    ∙ elim (Bool-cases (is_complete (w ++ c))) [
      | inl hit ↦ rw (hit) (unfold first_complete in rw (hit))
      | inr miss ↦
          let piece : (length c == 0) ≡ false = ground (arith, h.0.1) in
          rw (miss, piece)
            (receive_pieces cs (w ++ c) rest (All-append _ w c hw h.0.0) miss h.1
                (omega (arith, length-append w c, length-append c (concat cs)))
              ∙ unfold first_complete in rw (miss, append_assoc w c (concat cs)))
    ]

-- However fewer than 512 bytes of a message, none of them zero, are cut into pieces that are not
-- empty, and with no interrupted call, the function returns as soon as the text so far holds the
-- three headers, with exactly that text in the buffer; if the client closes before, the message
-- is reported as empty.
pub receive_request_lem :
    (cs : List Bytes) (rest : List Arrival)
    → All IsPiece cs
    → length (concat cs) < 512
    → receive_request (map bytes cs ++ bytes [] ∷ rest) (replicate 512 0)
      ≡ ok (some (verdict (first_complete [] cs) (concat cs)))
unfolding receive_request
receive_request_lem cs rest h short =
    receive_pieces cs [] rest tt (unfold is_complete in refl) h (omega arith)

cstr-none : (s : Bytes) → Lacks 0 s → cstr s ≡ fault
unfolding cstr
cstr-none [] h = refl
cstr-none (c ∷ s) h = ground (arith, cstr-none s h.1)

take-Lacks : (n : ℕ) (s : Bytes) → Lacks 0 s → Lacks 0 (take n s)
take-Lacks zero s h = tt
take-Lacks (suc n) [] h = tt
take-Lacks (suc n) (c ∷ s) h = (h.0, take-Lacks n s h.1)

length-take_full : (n : ℕ) (s : Bytes) → n ≤ length s → length (take n s) ≡ n
length-take_full zero s h = refl
length-take_full (suc n) [] h = absurd (omega arith)
length-take_full (suc n) (c ∷ s) h = omega (arith, length-take_full n s (omega arith))

-- When 512 bytes or more are there at once, none of them zero, the buffer has no room for a
-- terminator, and the search for the headers runs over its end.
pub receive_request_full :
    (available : Bytes) (rest : List Arrival)
    → Lacks 0 available
    → 512 ≤ length available
    → receive_request (bytes available ∷ rest) (replicate 512 0) ≡ fault
unfolding receive_request receive_loop
receive_request_full available rest clean long =
    rw (filled, append-nil, cstr-none (take 512 available) (take-Lacks 512 available clean))
  where
    filled : memcpy_at (replicate 512 0) 0 (take 512 available) ≡ ok (take 512 available ++ [])
    filled =
        subst
          (λ n. memcpy_at (zeros (n + 0)) 0 (take 512 available) ≡ ok (take 512 available ++ []))
          (length-take_full 512 available long) (memcpy-zeros [] (take 512 available) 0)

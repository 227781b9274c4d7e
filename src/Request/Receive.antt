-- ===== src/Request/Receive.antt =====
-- `receive_request` of Request.c, against a list of what the calls of recv find.
pub mod Chunks
use image_app.Common.{
  ℕ, zero, suc, ◌+◌, ◌-◌, ◌≡◌, refl, Bool, true, false, ◌&&◌, Option, none, some, List, [], ◌∷◌,
  Bytes, codes, Outcome, ok, exit, fault, ◌>>=◌, store, memcpy_at, ltb, ◌==◌, if◌then◌else◌, length,
  take,
}
use image_app.CString.{cstr, contains}
use image_app.Request.Status.{RequestStatus, empty_message, request_received}

-- The bytes that are there, none if the client has closed; -1 with EINTR or EAGAIN; -1 with
-- ECONNRESET or EBADF; -1 with another errno.
pub data Arrival : Type 0 where
  bytes : Bytes → Arrival
  interrupted reset other : Arrival

abbrev pub http_message_size : ℕ
http_message_size = 512

-- The test for a message that has arrived.
unfoldable pub is_complete : Bytes → Bool
is_complete s =
    ltb 0 (length s)
    && (contains s (codes "User-Agent")
        && (contains s (codes "Accept: ") && contains s (codes "Connection: ")))

-- What is returned, with the buffer; `none` while a call of recv waits.
abbrev pub Received : Type 0
Received = Outcome (Option (RequestStatus × Bytes))

-- The loop, with the buffer, the number of bytes received, and `retry`. When an interrupted call
-- lowers `retry` to 0, the next round returns at once. A call is given the rest of the buffer.
unfoldable pub receive_loop : List Arrival → Bytes → ℕ → ℕ → Received
receive_loop [] message received retry = ok none
receive_loop (interrupted ∷ more) message received retry =
    let rest = receive_loop more message received (retry - 1) in
    if retry == 1 then ok (some (empty_message, message)) else rest
receive_loop (reset ∷ more) message received retry = ok (some (empty_message, message))
receive_loop (other ∷ more) message received retry = exit
receive_loop (bytes available ∷ more) message received retry =
    let v = take (http_message_size - received) available in
    memcpy_at message received v >>= λ m.
    let rest = receive_loop more m (received + length v) retry in
    cstr m >>= λ s.
    if is_complete s
    then (store m 511 0 >>= λ ended. ok (some (request_received, ended)))
    else (if length v == 0 then ok (some (empty_message, m)) else rest)

unfoldable pub receive_request : List Arrival → Bytes → Received
receive_request arrivals message = receive_loop arrivals message 0 2

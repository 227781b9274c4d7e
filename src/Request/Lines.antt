-- ===== src/Request/Lines.antt =====
-- The functions of Request.c that cut a line out of the message: `get_command_line`,
-- `parse_command`, `get_accept_line` and `get_user_agent`. A message is the block of the buffer.
pub mod Cuts
use image_app.Common.{
  ℕ, zero, suc, ◌+◌, ◌≡◌, refl, Bool, true, false, Option, none, some, List, [], ◌∷◌, ◌++◌, Bytes,
  codes, Outcome, ok, exit, fault, ◌>>=◌, read_at, ltb, ◌==◌, if◌then◌else◌, take, drop, set,
}
use image_app.CString.{starts_with, strstr_block}
use image_app.Request.Status.{RequestStatus, get_cmd, head_cmd, message_not_correct}

-- The loop of `get_command_line`: `room` places are left in `tmp_firstline`, which takes the byte
-- or, at the carriage return, the terminator.
copy_line : ℕ → Bytes → Outcome Bytes
copy_line room [] = fault
copy_line zero (c ∷ message) = fault
copy_line (suc room) (c ∷ message) =
    let rest = copy_line room message >>= λ s. ok (c ∷ s) in if c == b'\r' then ok [] else rest

-- The block that `*firstline` points to; the function returns OK whenever it returns.
unfoldable pub get_command_line : Bytes → Outcome Bytes
unfolding copy_line
get_command_line message = do line ← copy_line 512 message; ok (line ++ 0 ∷ [])

-- The command is the first of "GET" and "HEAD" anywhere in the line.
unfoldable pub parse_command : Bytes → RequestStatus
parse_command [] = message_not_correct
parse_command (c ∷ line) =
    if starts_with (codes "GET") (c ∷ line)
    then get_cmd
    else if starts_with (codes "HEAD") (c ∷ line)
    then head_cmd
    else parse_command line

-- memcpy(tmp, strstr(message, name), size), where the name is looked for in front of the terminator of
-- the message. A null pointer is undefined, and so is a copy that runs over the end of the message's
-- block.
copy_from : Bytes → Bytes → ℕ → Outcome Bytes
copy_from message name size = elim (strstr_block message name) [
  | none ↦ fault
  | some s ↦ read_at s 0 size
]

-- The loop of `get_accept_line` ends at a carriage return or with its counter.
accept_chars : ℕ → Bytes → Outcome Bytes
accept_chars zero tmp = ok []
accept_chars (suc left) [] = fault
accept_chars (suc left) (c ∷ tmp) =
    let rest = accept_chars left tmp >>= λ s. ok (c ∷ s) in if c == b'\r' then ok [] else rest

unfoldable pub get_accept_line : Bytes → Outcome Bytes
unfolding accept_chars copy_from
get_accept_line message = do
  tmp ← copy_from message (codes "Accept: ") 128
  line ← accept_chars 120 (drop 8 (set tmp 127 0))
  ok (line ++ 0 ∷ [])

-- The loop of `get_user_agent` ends at a carriage return only, and runs out of `tmp` without one.
agent_chars : Bytes → Outcome Bytes
agent_chars [] = fault
agent_chars (c ∷ tmp) =
    let rest = agent_chars tmp >>= λ s. ok (c ∷ s) in if c == b'\r' then ok [] else rest

unfoldable pub get_user_agent : Bytes → Outcome Bytes
unfolding agent_chars copy_from
get_user_agent message = do
  tmp ← copy_from message (codes "User-Agent: ") 256
  line ← agent_chars (drop 12 (set tmp 255 0))
  ok (line ++ 0 ∷ [])

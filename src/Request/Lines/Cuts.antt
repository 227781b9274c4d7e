-- ===== src/Request/Lines/Cuts.antt =====
-- What the line functions return, and on which messages they leave their blocks.
use native.Mathlib.Decide.{dec_le}
use image_app.Common.{
  ℕ, zero, suc, ◌≤◌, ◌<◌, ◌≡◌, ◌↔◌, refl, ap, false, some, [], ◌∷◌, ◌++◌, Bytes, codes, Lacks, ok,
  fault, read_at, read_at-short, read_at-take, if◌then◌else◌, take, set, length, before, occurs,
  arith,
}
use image_app.CString.{starts_with, strstr, strstr_block, contains}
use image_app.Request.Status.{message_not_correct}
use image_app.Request.Lines.{
  copy_line, get_command_line, parse_command, copy_from, accept_chars, get_accept_line, agent_chars,
  get_user_agent,
}

copy_line-before :
    (room : ℕ) (m : Bytes)
    → length m ≤ room
    → copy_line room m ≡ (if occurs b'\r' m then ok (before b'\r' m) else fault)
unfolding copy_line
copy_line-before room [] h = refl
copy_line-before zero (c ∷ m) h = absurd (omega arith)
copy_line-before (suc room) (c ∷ m) h = ground (arith, copy_line-before room m)

-- On every message of at most 512 bytes the first line is what stands before the first carriage
-- return, and a message without one is read to its end and beyond.
pub get_command_line_lem :
    (m : Bytes)
    → length m ≤ 512
    → get_command_line m ≡ (if occurs b'\r' m then ok (before b'\r' m ++ 0 ∷ []) else fault)
unfolding get_command_line
get_command_line_lem m h = ground (arith, copy_line-before 512 m h)

-- A line is a correct command exactly if "GET" or "HEAD" occurs in it, wherever.
pub parse_command_neither :
    (line : Bytes)
    → (parse_command line ≡ message_not_correct)
      ↔ ((contains line (codes "GET") ≡ false) × (contains line (codes "HEAD") ≡ false))
unfolding parse_command strstr
parse_command_neither [] = (λ e. unfold starts_with in (refl, refl), λ e. refl)
parse_command_neither (c ∷ line) = ground (arith, parse_command_neither line)

-- A byte written behind the first carriage return leaves what stands before it, and so does a copy
-- that is longer than that.
cut_at_return :
    (x b : Bytes) (n k : ℕ)
    → length x < k
    → k < n
    → (r : Bytes) × (set (take n (x ++ b'\r' ∷ b)) k 0 ≡ x ++ b'\r' ∷ r)
cut_at_return x b zero k h l = absurd (omega arith)
cut_at_return [] b (suc n) zero h l = absurd (omega arith)
cut_at_return [] b (suc n) (suc k) h l = (set (take n b) k 0, refl)
cut_at_return (c ∷ x) b (suc n) zero h l = absurd (omega arith)
cut_at_return (c ∷ x) b (suc n) (suc k) h l =
    let (r, e) = cut_at_return x b n k (omega arith) (omega arith) in (r, ap (◌∷◌ c) e)

agent_chars-append : (x r : Bytes) → Lacks b'\r' x → agent_chars (x ++ b'\r' ∷ r) ≡ ok x
unfolding agent_chars
agent_chars-append [] r h = refl
agent_chars-append (c ∷ x) r h = ground (arith, agent_chars-append x r h.1)

agent_chars-none : (x : Bytes) → Lacks b'\r' x → agent_chars x ≡ fault
unfolding agent_chars
agent_chars-none [] h = refl
agent_chars-none (c ∷ x) h = ground (arith, agent_chars-none x h.1)

accept_chars-append :
    (left : ℕ) (x r : Bytes)
    → Lacks b'\r' x
    → length x < left
    → accept_chars left (x ++ b'\r' ∷ r) ≡ ok x
unfolding accept_chars
accept_chars-append zero x r h l = absurd (omega arith)
accept_chars-append (suc left) [] r h l = refl
accept_chars-append (suc left) (c ∷ x) r h l = ground (arith, accept_chars-append left x r h.1)

abbrev pub agent_header : Bytes
agent_header = codes "User-Agent: "

abbrev pub accept_header : Bytes
accept_header = codes "Accept: "

copy_from_lem :
    (message name s : Bytes) (n : ℕ)
    → strstr_block message name ≡ some s
    → copy_from message name n ≡ read_at s 0 n
unfolding copy_from
copy_from_lem message name s n e = rw (e, copy_from)

-- A user agent of at most 242 bytes, with a carriage return behind it, is returned whole, if 256
-- bytes of the message are left from its header on.
pub get_user_agent_lem :
    (message agent b : Bytes)
    → strstr_block message agent_header ≡ some (agent_header ++ (agent ++ b'\r' ∷ b))
    → Lacks b'\r' agent
    → length agent ≤ 242
    → 256 ≤ length (agent_header ++ (agent ++ b'\r' ∷ b))
    → get_user_agent message ≡ ok (agent ++ 0 ∷ [])
unfolding get_user_agent
get_user_agent_lem message agent b e clean short room =
    let (r, q) = cut_at_return (agent_header ++ agent) b 256 255 (omega arith) (omega arith) in
    rw
      (
        copy_from_lem message agent_header _ 256 e,
        read_at-take 256 (agent_header ++ (agent ++ b'\r' ∷ b)) room,
      )
      (rw q (rw (agent_chars-append agent r clean)))

-- If fewer than 256 bytes of the message are left from the header on, the copy reads over the end
-- of the message.
pub get_user_agent_overread :
    (message s : Bytes)
    → strstr_block message agent_header ≡ some s
    → length s < 256
    → get_user_agent message ≡ fault
unfolding get_user_agent
get_user_agent_overread message s e short =
    rw (copy_from_lem message agent_header s 256 e, read_at-short 256 s short)

cut_clean :
    (x b : Bytes) (k : ℕ)
    → Lacks b'\r' x
    → k ≤ length x
    → Lacks b'\r' (set (take (suc k) (x ++ b)) k 0)
cut_clean [] [] zero h l = tt
cut_clean [] (c ∷ b) zero h l = omega arith
cut_clean [] b (suc k) h l = absurd (omega arith)
cut_clean (c ∷ x) b zero h l = omega arith
cut_clean (c ∷ x) b (suc k) h l = (h.0, cut_clean x b k h.1 (omega arith))

-- A user agent whose first 243 bytes or more hold no carriage return makes the loop run out of
-- its copy.
pub get_user_agent_long :
    (message agent b : Bytes)
    → strstr_block message agent_header ≡ some (agent_header ++ (agent ++ b))
    → Lacks b'\r' agent
    → 243 ≤ length agent
    → get_user_agent message ≡ fault
unfolding get_user_agent
get_user_agent_long message agent b e clean long =
    elim (dec_le 256 (length (agent_header ++ (agent ++ b)))) [
      | no short ↦ get_user_agent_overread message _ e (omega arith)
      | yes room ↦
          rw
            (
              copy_from_lem message agent_header _ 256 e,
              read_at-take 256 (agent_header ++ (agent ++ b)) room,
            )
            (rw (agent_chars-none _ (cut_clean agent b 243 clean long)))
    ]

-- An accept line of at most 118 bytes, with a carriage return behind it, is returned whole, if
-- 128 bytes of the message are left from its header on.
pub get_accept_line_lem :
    (message accept b : Bytes)
    → strstr_block message accept_header ≡ some (accept_header ++ (accept ++ b'\r' ∷ b))
    → Lacks b'\r' accept
    → length accept ≤ 118
    → 128 ≤ length (accept_header ++ (accept ++ b'\r' ∷ b))
    → get_accept_line message ≡ ok (accept ++ 0 ∷ [])
unfolding get_accept_line
get_accept_line_lem message accept b e clean short room =
    let (r, q) = cut_at_return (accept_header ++ accept) b 128 127 (omega arith) (omega arith) in
    rw
      (
        copy_from_lem message accept_header _ 128 e,
        read_at-take 128 (accept_header ++ (accept ++ b'\r' ∷ b)) room,
      )
      (rw q (rw (accept_chars-append 120 accept r clean (omega arith))))

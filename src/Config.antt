-- ===== src/Config.antt =====
-- `check_parameter` and `parse_config_file` of Config.c.
pub mod Lines
pub mod Settings
use image_app.Common.{
  ℕ, zero, suc, ◌+◌, ◌-◌, ◌^◌, ◌≡◌, refl, Bool, true, false, ◌||◌, Option, none, some, List, [],
  ◌∷◌, Bytes, codes, Outcome, ok, fault, ◌>>=◌, ◌==◌, if◌then◌else◌, length, drop, before, ℤ, pos,
  negsuc,
}
use image_app.CString.{contains}
use image_app.ParseInt.{parse_int}

-- `enum parameters_conf`.
pub data Parameter : Type 0 where
  conf_number_thread conf_max_conn conf_port_serv : Parameter
  conf_backlog conf_size_pool conf_size_arrfd : Parameter

-- The global variables that the file sets; `size_pool` is a size_t.
pub record Globals : Type 0 where
  pub num_thread_pool : ℤ
  pub max_conn_db : ℤ
  pub serv_port : ℤ
  pub backlog : ℤ
  pub size_pool : ℕ
  pub size_arrfd : ℤ

-- The chain of strstr.
which : Bytes → Option Parameter
which buf =
    if contains buf (codes "NUM_THREAD_POOL_START")
    then some conf_number_thread
    else (if contains buf (codes "MAX_CONNECTION_DB")
        then some conf_max_conn
        else (if contains buf (codes "SIZE_POOL")
            then some conf_size_pool
            else (if contains buf (codes "SERV_PORT")
                then some conf_port_serv
                else (if contains buf (codes "BACKLOG") then some conf_backlog else none))))

abbrev is_blank : ℕ → Bool
is_blank c = (c == b' ') || ((c == b'\t') || (c == b'\n'))

-- The loop that moves `buf` to the first blank; the terminator does not stop it.
to_blank : Bytes → ℕ → Outcome ℕ
to_blank [] counter = fault
to_blank (c ∷ buf) counter =
    let rest = to_blank buf (counter + 1) in if is_blank c then ok counter else rest

-- The parameter, `none` for -1, and the counter.
pub check_parameter : Bytes → ℕ → Outcome (Option Parameter × ℕ)
unfolding which to_blank
check_parameter buf counter = elim (which buf) [
  | none ↦ ok (none, counter)
  | some p ↦ to_blank buf counter >>= λ n. ok (some p, n)
]

-- (size_t) of an int.
abbrev size_t : ℤ → ℕ
size_t (pos n) = n
size_t (negsuc n) = 2 ^ 64 - n - 1

-- The switch. No line is ever taken for `conf_size_arrfd`.
unfoldable pub assign : Globals → Option Parameter → ℤ → Globals
assign g none num = g
assign g (some conf_number_thread) num = record g { num_thread_pool = num }
assign g (some conf_max_conn) num = record g { max_conn_db = num }
assign g (some conf_port_serv) num = record g { serv_port = num }
assign g (some conf_backlog) num = record g { backlog = num }
assign g (some conf_size_pool) num = record g { size_pool = size_t num }
assign g (some conf_size_arrfd) num = record g { size_arrfd = num }

-- One round of the loop on what fgets has read.
pub read_line : Globals → Bytes → Outcome Globals
read_line g line = do
  (par, counter) ← check_parameter (before 0 line) 0
  ok (assign g par (parse_int (drop counter (before 0 line))))

-- fgets for a buffer of `room + 1` bytes: the line with its newline, and the rest of the file.
get_line : ℕ → Bytes → Bytes × Bytes
get_line zero s = ([], s)
get_line (suc room) [] = ([], [])
get_line (suc room) (c ∷ s) =
    let (line, rest) = get_line room s in if c == b'\n' then (c ∷ [], s) else (c ∷ line, rest)

-- The loop, on fuel for as many lines as the file has bytes.
read_lines : ℕ → Bytes → Globals → Outcome Globals
unfolding get_line
read_lines fuel [] g = ok g
read_lines zero (c ∷ s) g = ok g
read_lines (suc fuel) (c ∷ s) g =
    let (line, rest) = get_line 511 (c ∷ s) in read_line g line >>= read_lines fuel rest

-- `open_fp` gives NULL if it cannot open the file, which feof does not accept.
unfoldable pub parse_config_file : Option Bytes → Globals → Outcome Globals
unfolding read_lines
parse_config_file none g = fault
parse_config_file (some file) g = read_lines (length file) file g

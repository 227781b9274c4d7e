-- ===== src/Config/Settings.antt =====
-- A whole file of lines that set parameters.
use image_app.Common.{
  ℕ, zero, suc, ◌+◌, ◌^◌, ◌<◌, ◌≤◌, ◌≡◌, ◌≢◌, refl, ap, ◌∙◌, some, List, [], ◌∷◌, ◌++◌,
  append_assoc, Bytes, Lacks, All, ok, ◌>>=◌, length, length-append, pos, arith,
}
use image_app.Config.{
  conf_number_thread, conf_max_conn, conf_port_serv, conf_backlog, conf_size_pool, Parameter,
  conf_size_arrfd, Globals, assign, read_line, get_line, read_lines, parse_config_file,
}
use image_app.Config.Lines.{
  setting_line, line_text, line_text-Lacks, line_text-short, setting_line-text, read_line-setting,
}

abbrev pub Setting : Type 0
Setting = Parameter × ℕ

-- A parameter that has a name, and a number that an int holds.
abbrev pub IsSetting : Setting → Type 0
IsSetting (p, n) = (p ≢ conf_size_arrfd) × (n < 2 ^ 31)

abbrev pub file_of : List Setting → Bytes
file_of [] = []
file_of ((p, n) ∷ ss) = setting_line p n ++ file_of ss

-- The global variable that each name stands for.
unfoldable pub with_value : Globals → Parameter → ℕ → Globals
with_value g conf_number_thread n = record g { num_thread_pool = pos n }
with_value g conf_max_conn n = record g { max_conn_db = pos n }
with_value g conf_port_serv n = record g { serv_port = pos n }
with_value g conf_backlog n = record g { backlog = pos n }
with_value g conf_size_pool n = record g { size_pool = n }
with_value g conf_size_arrfd n = record g { size_arrfd = pos n }

-- The settings one after the other.
abbrev pub with_all : Globals → List Setting → Globals
with_all g [] = g
with_all g ((p, n) ∷ ss) = with_all (with_value g p n) ss

assign-with_value :
    (g : Globals) (p : Parameter) (n : ℕ) → assign g (some p) (pos n) ≡ with_value g p n
unfolding assign with_value
assign-with_value g conf_number_thread n = refl
assign-with_value g conf_max_conn n = refl
assign-with_value g conf_port_serv n = refl
assign-with_value g conf_backlog n = refl
assign-with_value g conf_size_pool n = refl
assign-with_value g conf_size_arrfd n = refl

get_line-text :
    (room : ℕ) (text rest : Bytes)
    → Lacks 10 text
    → length text < room
    → get_line room (text ++ 10 ∷ rest) ≡ (text ++ 10 ∷ [], rest)
unfolding get_line
get_line-text zero text rest h l = absurd (omega arith)
get_line-text (suc room) [] rest h l = refl
get_line-text (suc room) (c ∷ text) rest h l = ground (arith, get_line-text room text rest h.1)

get_line-setting :
    (p : Parameter) (n : ℕ) (rest : Bytes)
    → n < 2 ^ 31
    → get_line 511 (setting_line p n ++ rest) ≡ (setting_line p n, rest)
get_line-setting p n rest small =
    rw (setting_line-text p n, append_assoc (line_text p n) (10 ∷ []) rest)
      (get_line-text 511 (line_text p n) rest (line_text-Lacks p 10 n (omega arith))
        (omega (arith, line_text-short p n small)))

-- One round of the loop on a text that is not at its end.
read_lines-step :
    (fuel : ℕ) (s line rest : Bytes) (g : Globals)
    → 0 < length s
    → get_line 511 s ≡ (line, rest)
    → read_lines (suc fuel) s g ≡ (read_line g line >>= read_lines fuel rest)
unfolding read_lines
read_lines-step fuel [] line rest g h e = absurd (omega arith)
read_lines-step fuel (c ∷ s) line rest g h e = rw e

length-setting_line : (p : Parameter) (n : ℕ) → 0 < length (setting_line p n)
length-setting_line p n =
    omega (arith, ap length (setting_line-text p n), length-append (line_text p n) (10 ∷ []))

read_lines-settings :
    (ss : List Setting) (fuel : ℕ) (g : Globals)
    → All IsSetting ss
    → length (file_of ss) ≤ fuel
    → read_lines fuel (file_of ss) g ≡ ok (with_all g ss)
read_lines-settings [] fuel g h l = unfold read_lines in refl
read_lines-settings ((p, n) ∷ ss) zero g h l =
    absurd (omega (arith, length-append (setting_line p n) (file_of ss), length-setting_line p n))
read_lines-settings ((p, n) ∷ ss) (suc fuel) g h l =
    read_lines-step fuel (setting_line p n ++ file_of ss) (setting_line p n) (file_of ss) g
      (omega (arith, size, length-setting_line p n)) (get_line-setting p n (file_of ss) h.0.1)
    ∙ rw (read_line-setting g p n h.0.0 h.0.1, assign-with_value g p n)
        (read_lines-settings ss fuel (with_value g p n) h.1
          (omega (arith, size, length-setting_line p n)))
  where
    size : length (setting_line p n ++ file_of ss) ≡ length (setting_line p n) + length (file_of ss)
    size = length-append (setting_line p n) (file_of ss)

-- A file whose lines are the name of a parameter, a blank and a number below 2^31 that is not
-- negative sets exactly these parameters to these numbers, in the order of the lines; all others
-- stay as they were.
pub parse_config_file_lem :
    (ss : List Setting) (g : Globals)
    → All IsSetting ss
    → parse_config_file (some (file_of ss)) g ≡ ok (with_all g ss)
unfolding parse_config_file
parse_config_file_lem ss g h = read_lines-settings ss (length (file_of ss)) g h (omega arith)

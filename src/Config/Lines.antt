-- ===== src/Config/Lines.antt =====
-- One line of the file: a name, a blank, a numeral and the end of the line.
use image_app.Common.{
  Bool, subst, ℕ, zero, suc, ◌^◌, ◌<◌, ◌≤◌, ◌≡◌, ◌≢◌, refl, ap, sym, true, false, Option, none,
  some, [], ◌∷◌, ◌++◌, Bytes, codes, Lacks, All, All-append, append_assoc, ok, length,
  length-append, drop, before, before-Lacks, pos, arith,
}
use image_app.CString.{contains, strstr, starts_with}
use image_app.Strings.Decimal.Fill.{IsDigit, decimal, decimal-Spells, length-decimal-le}
use image_app.ParseInt.{parse_int}
use image_app.ParseInt.RoundTrip.{parse_int-line}
use image_app.Config.{
  Parameter, conf_number_thread, conf_max_conn, conf_port_serv, conf_backlog, conf_size_pool,
  conf_size_arrfd, Globals, which, to_blank, check_parameter, assign, read_line,
}

-- The name of a parameter in the file; `conf_size_arrfd` has none.
abbrev pub name : Parameter → Bytes
name conf_number_thread = codes "NUM_THREAD_POOL_START"
name conf_max_conn = codes "MAX_CONNECTION_DB"
name conf_port_serv = codes "SERV_PORT"
name conf_backlog = codes "BACKLOG"
name conf_size_pool = codes "SIZE_POOL"
name conf_size_arrfd = []

-- The decimal text of a number, 0 among them.
abbrev pub number_text : ℕ → Bytes
number_text zero = b'0' ∷ []
number_text (suc n) = decimal (suc n)

number_text-digits : (n : ℕ) → All IsDigit (number_text n)
number_text-digits zero = ((omega arith, omega arith), tt)
number_text-digits (suc n) = (decimal-Spells (suc n)).digits

number_text-short : (n : ℕ) → n < 2 ^ 31 → length (number_text n) ≤ 10
number_text-short zero h = omega arith
number_text-short (suc n) h = length-decimal-le 10 (suc n) (omega arith)

abbrev pub line_end : ℕ → Bytes
line_end n = 32 ∷ (number_text n ++ 10 ∷ [])

abbrev pub setting_line : Parameter → ℕ → Bytes
setting_line p n = name p ++ line_end n

strstr-Lacks : (c : ℕ) (n s : Bytes) → Lacks c s → strstr s (c ∷ n) ≡ none
unfolding strstr starts_with
strstr-Lacks c n [] h = refl
strstr-Lacks c n (d ∷ s) h = ground (arith, strstr-Lacks c n s)

-- What stands behind the name has no letters.
digits-Lacks : (c : ℕ) (s : Bytes) → b'9' < c → All IsDigit s → Lacks c s
digits-Lacks c [] above h = tt
digits-Lacks c (d ∷ s) above h = (omega arith, digits-Lacks c s above h.1)

tail-Lacks : (c n : ℕ) → b'9' < c → Lacks c (number_text n ++ 10 ∷ [])
tail-Lacks c n above =
    All-append _ (number_text n) (10 ∷ [])
      (digits-Lacks c (number_text n) above (number_text-digits n)) (omega arith, tt)

found : Option Bytes → Bool
found none = false
found (some r) = true

-- The parts of a line behind its name hold no name, and no name holds another.
no_name :
    (c : ℕ) (needle : Bytes) (n : ℕ)
    → b'9' < c
    → found (strstr (number_text n ++ 10 ∷ []) (c ∷ needle)) ≡ false
unfolding found
no_name c needle n above =
    ap found (strstr-Lacks c needle (number_text n ++ 10 ∷ []) (tail-Lacks c n above))

-- The first test of `which` that a line passes.
first_thread :
    (s : Bytes)
    → contains s (codes "NUM_THREAD_POOL_START") ≡ true
    → which s ≡ some conf_number_thread
unfolding which
first_thread s h = rw h

after_thread :
    (s : Bytes)
    → contains s (codes "NUM_THREAD_POOL_START") ≡ false
    → contains s (codes "MAX_CONNECTION_DB") ≡ true
    → which s ≡ some conf_max_conn
unfolding which
after_thread s e h = rw (e, h)

after_conn :
    (s : Bytes)
    → contains s (codes "NUM_THREAD_POOL_START") ≡ false
    → contains s (codes "MAX_CONNECTION_DB") ≡ false
    → contains s (codes "SIZE_POOL") ≡ true
    → which s ≡ some conf_size_pool
unfolding which
after_conn s e f h = rw (e, f, h)

after_pool :
    (s : Bytes)
    → contains s (codes "NUM_THREAD_POOL_START") ≡ false
    → contains s (codes "MAX_CONNECTION_DB") ≡ false
    → contains s (codes "SIZE_POOL") ≡ false
    → contains s (codes "SERV_PORT") ≡ true
    → which s ≡ some conf_port_serv
unfolding which
after_pool s e f g h = rw (e, f, g, h)

after_port :
    (s : Bytes)
    → contains s (codes "NUM_THREAD_POOL_START") ≡ false
    → contains s (codes "MAX_CONNECTION_DB") ≡ false
    → contains s (codes "SIZE_POOL") ≡ false
    → contains s (codes "SERV_PORT") ≡ false
    → contains s (codes "BACKLOG") ≡ true
    → which s ≡ some conf_backlog
unfolding which
after_port s e f g i h = rw (e, f, g, i, h)

which-name : (p : Parameter) (n : ℕ) → p ≢ conf_size_arrfd → which (setting_line p n) ≡ some p
unfolding strstr starts_with found
which-name conf_number_thread n h = first_thread (setting_line conf_number_thread n) refl
which-name conf_max_conn n h =
    after_thread (setting_line conf_max_conn n)
      (no_name b'N' (codes "UM_THREAD_POOL_START") n (omega arith)) refl
which-name conf_port_serv n h =
    after_pool (setting_line conf_port_serv n)
      (no_name b'N' (codes "UM_THREAD_POOL_START") n (omega arith))
      (no_name b'M' (codes "AX_CONNECTION_DB") n (omega arith))
      (no_name b'S' (codes "IZE_POOL") n (omega arith)) refl
which-name conf_backlog n h =
    after_port (setting_line conf_backlog n)
      (no_name b'N' (codes "UM_THREAD_POOL_START") n (omega arith))
      (no_name b'M' (codes "AX_CONNECTION_DB") n (omega arith))
      (no_name b'S' (codes "IZE_POOL") n (omega arith))
      (no_name b'S' (codes "ERV_PORT") n (omega arith)) refl
which-name conf_size_pool n h =
    after_conn (setting_line conf_size_pool n)
      (no_name b'N' (codes "UM_THREAD_POOL_START") n (omega arith))
      (no_name b'M' (codes "AX_CONNECTION_DB") n (omega arith)) refl
which-name conf_size_arrfd n h = absurd (h refl)

to_blank-name : (p : Parameter) (n : ℕ) → to_blank (setting_line p n) 0 ≡ ok (length (name p))
unfolding to_blank
to_blank-name conf_number_thread n = refl
to_blank-name conf_max_conn n = refl
to_blank-name conf_port_serv n = refl
to_blank-name conf_backlog n = refl
to_blank-name conf_size_pool n = refl
to_blank-name conf_size_arrfd n = refl

drop-append : (xs ys : Bytes) → drop (length xs) (xs ++ ys) ≡ ys
drop-append [] ys = refl
drop-append (x ∷ xs) ys = drop-append xs ys

name-Lacks : (p : Parameter) (c : ℕ) → c < b'A' → Lacks c (name p)
name-Lacks conf_number_thread c h = omega arith
name-Lacks conf_max_conn c h = omega arith
name-Lacks conf_port_serv c h = omega arith
name-Lacks conf_backlog c h = omega arith
name-Lacks conf_size_pool c h = omega arith
name-Lacks conf_size_arrfd c h = tt

digits-Lacks_below : (c : ℕ) (s : Bytes) → c < b'0' → All IsDigit s → Lacks c s
digits-Lacks_below c [] below h = tt
digits-Lacks_below c (d ∷ s) below h = (omega arith, digits-Lacks_below c s below h.1)

-- The text of a line in front of its end.
abbrev pub line_text : Parameter → ℕ → Bytes
line_text p n = name p ++ 32 ∷ number_text n

pub line_text-Lacks : (p : Parameter) (c n : ℕ) → c < 32 → Lacks c (line_text p n)
line_text-Lacks p c n h =
    All-append _ (name p) (32 ∷ number_text n) (name-Lacks p c (omega arith))
      (omega arith, digits-Lacks_below c (number_text n) (omega arith) (number_text-digits n))

pub setting_line-text : (p : Parameter) (n : ℕ) → setting_line p n ≡ line_text p n ++ 10 ∷ []
setting_line-text p n = sym (append_assoc (name p) (32 ∷ number_text n) (10 ∷ []))

check_parameter-name :
    (p : Parameter) (n : ℕ)
    → p ≢ conf_size_arrfd
    → check_parameter (setting_line p n) 0 ≡ ok (some p, length (name p))
unfolding check_parameter
check_parameter-name p n h = rw (check_parameter, which-name p n h, to_blank-name p n)

parse_number : (n : ℕ) → n < 2 ^ 31 → parse_int (line_end n) ≡ pos n
parse_number zero h = unfold parse_int in refl
parse_number (suc n) h = parse_int-line (suc n) (decimal (suc n)) (decimal-Spells (suc n)) h

-- A line for a parameter and a number sets that parameter to that number.
pub read_line-setting :
    (g : Globals) (p : Parameter) (n : ℕ)
    → p ≢ conf_size_arrfd
    → n < 2 ^ 31
    → read_line g (setting_line p n) ≡ ok (assign g (some p) (pos n))
unfolding read_line
read_line-setting g p n h small =
    rw (clean, check_parameter-name p n h, drop-append (name p) (line_end n), parse_number n small)
  where
    clean : before 0 (setting_line p n) ≡ setting_line p n
    clean = before-Lacks 0 (setting_line p n) (
        subst (Lacks 0) (sym (setting_line-text p n)) (
          All-append _ (line_text p n) (10 ∷ []) (line_text-Lacks p 0 n (omega arith))
            (omega arith, tt)))

name-short : (p : Parameter) → length (name p) ≤ 21
name-short conf_number_thread = omega arith
name-short conf_max_conn = omega arith
name-short conf_port_serv = omega arith
name-short conf_backlog = omega arith
name-short conf_size_pool = omega arith
name-short conf_size_arrfd = omega arith

pub line_text-short : (p : Parameter) (n : ℕ) → n < 2 ^ 31 → length (line_text p n) < 510
line_text-short p n small =
    omega
      (arith, length-append (name p) (32 ∷ number_text n), name-short p, number_text-short n small)

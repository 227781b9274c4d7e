-- ===== src/CString.antt =====
-- The functions of <string.h> that the program calls, on byte strings. A C string stands for its
-- bytes before the terminator; a block is the whole allocation, terminator and all.
pub mod Laws
use image_app.Common.{
  ℕ, zero, suc, Bool, true, false, ◌&&◌, Option, none, some, List, [], ◌∷◌, Bytes, Outcome, ok,
  fault, ◌>>=◌, ◌==◌, if◌then◌else◌,
}

-- strncmp(s, p, strlen(p)) == 0.
unfoldable pub starts_with : Bytes → Bytes → Bool
starts_with [] s = true
starts_with (c ∷ p) [] = false
starts_with (c ∷ p) (d ∷ s) = (c == d) && starts_with p s

-- The rest of the haystack from the first occurrence of the needle on, `none` for NULL.
unfoldable pub strstr : Bytes → Bytes → Option Bytes
strstr [] n = if starts_with n [] then some [] else none
strstr (c ∷ s) n = if starts_with n (c ∷ s) then some (c ∷ s) else strstr s n

-- The same on the block that holds the haystack: the rest of the block from the first occurrence on,
-- in front of the terminator. A block without one is read past its end, which is `none` as well.
unfoldable pub strstr_block : Bytes → Bytes → Option Bytes
strstr_block [] n = none
strstr_block (c ∷ s) n =
    let rest = strstr_block s n in
    if starts_with n (c ∷ s) then some (c ∷ s) else if c == 0 then none else rest

-- strstr(s, n) != NULL.
abbrev pub contains : Bytes → Bytes → Bool
contains s n = elim (strstr s n) [ none ↦ false | some r ↦ true ]

-- strcmp(s, t) == 0.
unfoldable pub same : Bytes → Bytes → Bool
same [] [] = true
same [] (d ∷ t) = false
same (c ∷ s) [] = false
same (c ∷ s) (d ∷ t) = (c == d) && same s t

-- The C string that a block holds; a block with no terminator is read past its end.
unfoldable pub cstr : Bytes → Outcome Bytes
cstr [] = fault
cstr (c ∷ b) = if c == 0 then ok [] else (cstr b >>= λ s. ok (c ∷ s))

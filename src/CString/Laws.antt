-- ===== src/CString/Laws.antt =====
-- Laws of the string functions.
use image_app.Common.{
  append-nil, ◌≡◌, refl, ap, inl, inr, true, [], ◌∷◌, ◌++◌, arith, Bytes, Lacks, ok, exit, ◌≢◌,
  ◌>>=◌, Bool-cases, ◌==◌, subst, first_of,
}
use image_app.CString.{starts_with, strstr, contains, same, cstr}

pub starts_with-append : (p r : Bytes) → starts_with p (p ++ r) ≡ true
unfolding starts_with
starts_with-append [] r = refl
starts_with-append (c ∷ p) r = ground (arith, starts_with-append p r)

pub starts_with_rest : (p s : Bytes) → starts_with p s ≡ true → (r : Bytes) × (s ≡ p ++ r)
unfolding starts_with
starts_with_rest [] s h = (s, refl)
starts_with_rest (c ∷ p) [] h = cc
starts_with_rest (c ∷ p) (d ∷ s) h =
    let (r, e) = starts_with_rest p s (ground arith) in (r, ground arith)

-- A needle that occurs is found.
pub contains-append : (a n b : Bytes) → contains (a ++ (n ++ b)) n ≡ true
unfolding strstr
contains-append [] [] [] = ground (arith, starts_with-append [] [])
contains-append [] [] (d ∷ b) = ground (arith, starts_with-append [] (d ∷ b))
contains-append [] (c ∷ n) b = ground (arith, starts_with-append (c ∷ n) b)
contains-append (c ∷ a) n b = ground (arith, contains-append a n b)

-- A needle that is found occurs.
pub contains_split :
    (s n : Bytes) → contains s n ≡ true → (a : Bytes) × (b : Bytes) × (s ≡ a ++ (n ++ b))
unfolding strstr
contains_split [] n h = elim (Bool-cases (starts_with n [])) [
  | inl e ↦ let (r, q) = starts_with_rest n [] e in ([], r, q)
  | inr e ↦ absurd (ground arith)
]
contains_split (c ∷ s) n h = elim (Bool-cases (starts_with n (c ∷ s))) [
  | inl e ↦ let (r, q) = starts_with_rest n (c ∷ s) e in ([], r, q)
  | inr e ↦ let (a, b, q) = contains_split s n (ground arith) in (c ∷ a, b, ap (◌∷◌ c) q)
]

pub contains_self : (n : Bytes) → contains n n ≡ true
contains_self n = rw (append-nil n) at (contains-append [] n [])

pub same_eq : (s t : Bytes) → same s t ≡ true → s ≡ t
unfolding same
same_eq [] [] h = refl
same_eq [] (d ∷ t) h = cc
same_eq (c ∷ s) [] h = cc
same_eq (c ∷ s) (d ∷ t) h = ground (arith, same_eq s t)

pub cstr-append : (s r : Bytes) → Lacks 0 s → cstr (s ++ 0 ∷ r) ≡ ok s
unfolding cstr
cstr-append [] r h = refl
cstr-append (c ∷ s) r h = ground (arith, cstr-append s r h.1)

pub cstr_skip : (a m : Bytes) → Lacks 0 a → cstr (a ++ m) ≡ (cstr m >>= λ s. ok (a ++ s))
unfolding cstr
cstr_skip [] m h = ground arith
cstr_skip (c ∷ a) m h = ground (arith, cstr_skip a m h.1)

pub cstr-ne-exit : (b : Bytes) → cstr b ≢ exit
unfolding cstr
cstr-ne-exit [] h = cc
cstr-ne-exit (c ∷ b) h = ground (arith, cstr-ne-exit b)

-- A string has no zero byte.
pub cstr-Lacks : (s : Bytes) {t : Bytes} → cstr s ≡ ok t → Lacks 0 t
unfolding cstr
cstr-Lacks [] e = absurd (cc)
cstr-Lacks (c ∷ s) {t} e = elim (Bool-cases (c == 0)) [
  | inl zero_byte ↦ let empty : [] ≡ t = ground (arith, zero_byte, e) in subst (Lacks 0) empty tt
  | inr other ↦
      let (u, there, last) = first_of (cstr s) (λ u. ok (c ∷ u)) (rw (other) at e) in
      let whole : c ∷ u ≡ t = ground arith in
      subst (Lacks 0) whole (ground arith, cstr-Lacks s there)
]

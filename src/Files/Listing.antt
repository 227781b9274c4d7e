-- ===== src/Files/Listing.antt =====
-- The numbers in the list of images.
use image_app.Common.{
  ℕ, suc, ◌+◌, ◌≡◌, ap, ◌∙◌, sym, true, false, some, List, [], ◌∷◌, ◌++◌, append_assoc, Bytes, ok,
  arith, Bool-cases, inl, inr, if◌then◌else◌,
}
use image_app.Files.{is_hidden, list_line, list_from, image_list, abort_with_error}

-- The number of names that are not hidden.
unfoldable pub visible : List Bytes → ℕ
visible [] = 0
visible (name ∷ names) = let rest = visible names in if is_hidden name then rest else suc rest

list_from-append :
    (a b : List Bytes) (i : ℕ) → list_from i (a ++ b) ≡ list_from i a ++ list_from (i + visible a) b
unfolding list_from visible
list_from-append [] b i = ap (λ k. list_from k b) (omega arith)
list_from-append (name ∷ a) b i = elim (Bool-cases (is_hidden name)) [
  | inl hidden ↦ rw (list_from, visible, hidden) (list_from-append a b i)
  | inr shown ↦
      let later : i + 1 + visible a ≡ i + suc (visible a) = omega arith in
      rw (list_from, visible, shown)
        (ap (◌++◌ (list_line i name)) (rw (later) at (list_from-append a b (i + 1)))
          ∙ sym (append_assoc (list_line i name) (list_from (i + 1) a) _))
]

visible-append : (a b : List Bytes) → visible (a ++ b) ≡ visible a + visible b
unfolding visible
visible-append [] b = omega arith
visible-append (name ∷ a) b = elim (Bool-cases (is_hidden name)) [
  | inl hidden ↦ rw (visible, hidden) (visible-append a b)
  | inr shown ↦ rw (visible, shown) (omega (arith, visible-append a b))
]

-- A name of the directory that is not hidden stands in the list on a line of its own, behind the
-- lines of the names before it and in front of those of the names behind it. Its number is one
-- more than that of the names before it that are not hidden. A hidden name leaves no trace.
pub image_list_lem :
    (a b : List Bytes) (name : Bytes)
    → image_list true (some (a ++ name ∷ b)) true
      ≡ ok (
          list_from 1 a
          ++ ((if is_hidden name then [] else list_line (1 + visible a) name)
              ++ list_from (1 + visible (a ++ name ∷ [])) b))
unfolding image_list abort_with_error list_from
image_list_lem a b name = ap ok (
    list_from-append a (name ∷ b) 1
    ∙ ap (◌++◌ (list_from 1 a)) (elim (Bool-cases (is_hidden name)) [
      | inl hidden ↦
          let same : 1 + visible (a ++ name ∷ []) ≡ 1 + visible a =
            omega (arith, visible-append a (name ∷ []), alone-hidden hidden) in
          rw (list_from, hidden, same)
      | inr shown ↦
          let next : 1 + visible (a ++ name ∷ []) ≡ 1 + visible a + 1 =
            omega (arith, visible-append a (name ∷ []), alone-shown shown) in
          rw (list_from, shown, next)
    ]))
  where
    alone-hidden : is_hidden name ≡ true → visible (name ∷ []) ≡ 0
    alone-hidden e = unfold visible in rw e

    alone-shown : is_hidden name ≡ false → visible (name ∷ []) ≡ 1
    alone-shown e = unfold visible in rw e

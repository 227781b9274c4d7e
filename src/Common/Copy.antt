-- ===== src/Common/Copy.antt =====
-- Copies behind a prefix that is already written: what `memcpy(p + len, …)` leaves in the block.
use Prim.Native.Nat.{ℕ, zero, suc, ◌+◌, ◌≤◌, ◌<◌}
use mathlib.Core.Path.{◌≡◌, refl, ap, ap₂, ◌∙◌, sym}
use mathlib.Core.List.{List, [], ◌∷◌, ◌++◌, append_assoc}
use Prim.Native.Nat.add
use native.Mathlib.Nat.{zero-add}
use native.Mathlib.Decide.{dec_lt}
use native.Mathlib.Omega.{arith}
use native.Mathlib.Numerals.{add-one}
use image_app.Common.Lists.{
  replicate, length-replicate, set, length-set, length, drop, length-append, Bytes,
}
use image_app.Common.Memory.{fault, ok, store, memcpy_at}

pub store-append : (w r : Bytes) (d c : ℕ) → store (w ++ d ∷ r) (length w) c ≡ ok (w ++ c ∷ r)
store-append [] r d c = refl
store-append (x ∷ w) r d c = rw (store-append w r d c)

pub memcpy-append :
    (s w r : Bytes)
    → length s ≤ length r
    → memcpy_at (w ++ r) (length w) s ≡ ok (w ++ (s ++ drop (length s) r))
memcpy-append [] w r h = refl
memcpy-append (c ∷ s) w [] h = absurd (omega arith)
memcpy-append (c ∷ s) w (d ∷ r) h = rw (store-append w r d c) (
    ap₂ (λ (b : Bytes) (n : ℕ). memcpy_at b n s) (sym (append_assoc w (c ∷ []) r)) (sym size)
    ∙ memcpy-append s (w ++ c ∷ []) r (omega arith)
    ∙ ap ok (append_assoc w (c ∷ []) (s ++ drop (length s) r)))
  where
    size : length (w ++ c ∷ []) ≡ suc (length w)
    size = length-append w (c ∷ []) ∙ add-one (length w)

drop-nil : (n : ℕ) → ◌≡◌ {A = Bytes} (drop n []) []
drop-nil zero = refl
drop-nil (suc n) = refl

pub drop-drop : (n m : ℕ) (r : Bytes) → drop m (drop n r) ≡ drop (n + m) r
drop-drop zero m r = rw zero-add
drop-drop (suc n) m [] = rw (drop-nil m, drop-nil (suc n + m))
drop-drop (suc n) m (x ∷ r) = rw (add.suc n m) (drop-drop n m r)

-- A whole list of pieces, one behind the other.
abbrev pub concat : List Bytes → Bytes
concat [] = []
concat (p ∷ ps) = p ++ concat ps

pub store-out : (b : Bytes) (i v : ℕ) → length b ≤ i → store b i v ≡ fault
store-out [] i v h = refl
store-out (x ∷ b) zero v h = absurd (omega arith)
store-out (x ∷ b) (suc i) v h = rw (store-out b i v (omega arith))

pub store-in {ℓ} :
    {A : Type ℓ} (b : List A) (i : ℕ) (v : A) → i < length b → store b i v ≡ ok (set b i v)
store-in [] i v h = absurd (omega arith)
store-in (x ∷ b) zero v h = refl
store-in (x ∷ b) (suc i) v h = rw (store-in b i v (omega arith))

-- A copy that does not fit leaves the block.
pub memcpy-out :
    (s b : Bytes) (i : ℕ) → length b < i + length s → i ≤ length b → memcpy_at b i s ≡ fault
memcpy-out [] b i h l = absurd (omega arith)
memcpy-out (c ∷ s) b i h l = elim (dec_lt i (length b)) [
  | no out ↦ rw (store-out b i c (omega arith))
  | yes inside ↦ rw (store-in b i c inside) (
      memcpy-out s (set b i c) (suc i) (omega (arith, length-set b i c))
        (omega (arith, length-set b i c)))
]

abbrev pub zeros : ℕ → Bytes
zeros k = replicate k 0

drop-zeros : (n k : ℕ) → drop n (zeros (n + k)) ≡ zeros k
drop-zeros zero k = rw zero-add
drop-zeros (suc n) k = rw (add.suc n k) (drop-zeros n k)

-- A copy behind the text `w` in a block of zeros.
pub memcpy-zeros :
    (w s : Bytes) (k : ℕ)
    → memcpy_at (w ++ zeros (length s + k)) (length w) s ≡ ok (w ++ s ++ zeros k)
memcpy-zeros w s k =
    rw (memcpy-append s w (zeros (length s + k)) fits, drop-zeros (length s) k, append_assoc)
  where
    fits : length s ≤ length (zeros (length s + k))
    fits = omega (arith, length-replicate {A = ℕ} (length s + k) 0)

pub memcpy-in :
    (s b : Bytes) (i : ℕ)
    → i + length s ≤ length b
    → (m : Bytes) × (memcpy_at b i s ≡ ok m) × (length m ≡ length b)
memcpy-in [] b i h = (b, refl, refl)
memcpy-in (c ∷ s) b i h =
    let (m, e, l) = memcpy-in s (set b i c) (suc i) (omega (arith, length-set b i c)) in
    (m, rw (store-in b i c (omega arith)) e, l ∙ length-set b i c)

-- ===== src/Common/Memory.antt =====
-- What a piece of C code comes to: a value, the end of the process by exit(EXIT_FAILURE), or
-- undefined behaviour (an access outside its block, a null pointer).
use Prim.Native.Nat.{ℕ, zero, suc, ◌≤◌, ◌<◌}
use mathlib.Core.Path.{◌≡◌, refl}
use mathlib.Core.Option.{none, some}
use mathlib.Core.List.{List, [], ◌∷◌}
use native.Mathlib.Omega.{arith}
use mathlib.Core.Bool.{Bool, true, false}
use image_app.Common.Tests.{if◌then◌else◌}
use image_app.Common.Lists.{length, get_elem?, take, Bytes}

pub data Outcome {ℓ} (A : Type ℓ) : Type ℓ where
  ok : A → Outcome A
  exit : Outcome A
  fault : Outcome A

infixl 5 ◌>>=◌ ◌>>◌
abbrev pub ◌>>=◌ {ℓ κ} : {A : Type ℓ} {B : Type κ} → Outcome A → (A → Outcome B) → Outcome B
ok a >>= f = f a
exit >>= f = exit
fault >>= f = fault

abbrev pub ◌>>◌ {ℓ κ} : {A : Type ℓ} {B : Type κ} → Outcome A → Outcome B → Outcome B
m >> k = m >>= λ _. k

-- p[i] as a value; a read outside the block is undefined behaviour.
abbrev pub load {ℓ} : {A : Type ℓ} → List A → ℕ → Outcome A
load xs i = elim (get_elem? xs i) [ none ↦ fault | some a ↦ ok a ]

-- p[i] = v.
abbrev pub store {ℓ} : {A : Type ℓ} → List A → ℕ → A → Outcome (List A)
store [] i v = fault
store (x ∷ xs) zero v = ok (v ∷ xs)
store (x ∷ xs) (suc i) v = store xs i v >>= λ ys. ok (x ∷ ys)

-- memcpy(p + i, src, length src), for a whole source.
abbrev pub memcpy_at : Bytes → ℕ → Bytes → Outcome Bytes
memcpy_at dst i [] = ok dst
memcpy_at dst i (c ∷ src) = store dst i c >>= λ d. memcpy_at d (suc i) src

-- The first n bytes at p + i of a block, all of which are read.
abbrev pub read_at : Bytes → ℕ → ℕ → Outcome Bytes
read_at b zero zero = ok []
read_at [] zero (suc n) = fault
read_at (c ∷ b) zero (suc n) = read_at b zero n >>= λ s. ok (c ∷ s)
read_at [] (suc i) n = fault
read_at (c ∷ b) (suc i) n = read_at b i n

pub read_at-short : (n : ℕ) (b : Bytes) → length b < n → read_at b 0 n ≡ fault
read_at-short zero b h = absurd (omega arith)
read_at-short (suc n) [] h = refl
read_at-short (suc n) (c ∷ b) h = rw (read_at-short n b (omega arith))

pub read_at-take : (n : ℕ) (b : Bytes) → n ≤ length b → read_at b 0 n ≡ ok (take n b)
read_at-take zero b h = refl
read_at-take (suc n) [] h = absurd (omega arith)
read_at-take (suc n) (c ∷ b) h = rw (read_at-take n b (omega arith))

-- Where a sequence has a value, its first part has one too.
pub first_of {ℓ κ} :
    {B : Type κ} {A : Type ℓ} {v : B} (first : Outcome A) (later : A → Outcome B)
    → (first >>= later) ≡ ok v
    → (u : A) × (first ≡ ok u) × (later u ≡ ok v)
first_of exit later e = absurd (cc)
first_of fault later e = absurd (cc)
first_of (ok u) later e = (u, refl, e)

-- What holds of the value, if there is one.
abbrev pub Ensures {ℓ κ} : {A : Type ℓ} → (A → Type κ) → Outcome A → Type κ
Ensures P (ok a) = P a
Ensures P exit = Unit
Ensures P fault = Unit

pub Ensures-bind {ℓ κ μ} :
    {A : Type ℓ} {B : Type κ} (P : B → Type μ) (m : Outcome A) (k : A → Outcome B)
    → ((a : A) → Ensures P (k a))
    → Ensures P (m >>= k)
Ensures-bind P (ok a) k h = h a
Ensures-bind P exit k h = tt
Ensures-bind P fault k h = tt

-- On both branches of a test.
pub Ensures-if {ℓ κ} :
    {A : Type ℓ} (P : A → Type κ) (b : Bool) (x y : Outcome A)
    → (b ≡ true → Ensures P x)
    → (b ≡ false → Ensures P y)
    → Ensures P (if b then x else y)
Ensures-if P true x y h k = h refl
Ensures-if P false x y h k = k refl

pub Ensures-ok {ℓ κ} :
    {A : Type ℓ} (P : A → Type κ) (m : Outcome A) {a : A} → Ensures P m → m ≡ ok a → P a
Ensures-ok P m h e = rw e at h

pub load-in {ℓ} : {A : Type ℓ} (xs : List A) (i : ℕ) → i < length xs → (a : A) × (load xs i ≡ ok a)
load-in [] i h = absurd (omega arith)
load-in (x ∷ xs) zero h = (x, refl)
load-in (x ∷ xs) (suc i) h = load-in xs i (omega arith)

pub load-some {ℓ} :
    {A : Type ℓ} (xs : List A) (i : ℕ) {a : A} → get_elem? xs i ≡ some a → load xs i ≡ ok a
load-some xs i e = rw (e, load)

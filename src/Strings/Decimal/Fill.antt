-- ===== src/Strings/Decimal/Fill.antt =====
-- The two loops against a plain specification of decimal numerals.
use native.Mathlib.Nat.{pow-suc}
use native.Mathlib.Numerals.{add-one}
use image_app.Common.{
  ℕ, zero, suc, ◌+◌, ◌-◌, ◌*◌, ◌/◌, ◌%◌, ◌^◌, ◌≤◌, ◌<◌, ◌≡◌, ◌≢◌, refl, ap, ◌∙◌, [], ◌∷◌, ◌++◌,
  Bytes, All, true, ok, store, ltb, leb, if◌then◌else◌, replicate, length, ℤ, pos_part, arith, inl,
  inr, Bool-cases, Lacks,
}
use image_app.Strings.Decimal.{
  count_ciphers, fill_ciphers, convert, convert_int_to_string, convert_long_to_string,
}

abbrev pub IsDigit : ℕ → Type 0
IsDigit c = (b'0' ≤ c) × (c ≤ b'9')

-- The number that decimal digits spell, behind the number `n`.
abbrev pub value : ℕ → Bytes → ℕ
value n [] = n
value n (c ∷ s) = value (n * 10 + (c - b'0')) s

pub digit-Lacks : (s : Bytes) → All IsDigit s → Lacks 0 s
digit-Lacks [] h = tt
digit-Lacks (c ∷ s) h = (omega arith, digit-Lacks s h.1)

-- The first byte, if there is one, is not the digit 0.
abbrev pub NoLeadingZero : Bytes → Type 0
NoLeadingZero [] = Unit
NoLeadingZero (c ∷ s) = c ≢ b'0'

-- `s` is the shortest decimal numeral of `n`, where that of 0 is the empty string.
pub record Spells (n : ℕ) (s : Bytes) : Type 0 where
  pub digits : All IsDigit s
  pub exact : value 0 s ≡ n
  pub shortest : NoLeadingZero s

-- The digits of `v` in front of `out`.
numeral : ℕ → ℕ → Bytes → Bytes
numeral zero v out = out
numeral (suc f) v out =
    let rest = numeral f (v / 10) ((v % 10 + b'0') ∷ out) in if ltb 0 v then rest else out

-- `numeral` on enough fuel, with nothing behind it.
unfoldable pub decimal : ℕ → Bytes
unfolding numeral
decimal v = numeral v v []

count-add : (f v c : ℕ) → count_ciphers f v c ≡ count_ciphers f v 0 + c
unfolding count_ciphers
count-add zero v c = omega arith
count-add (suc f) v c = ground (arith, count-add f (v / 10) (c + 1), count-add f (v / 10) 1)

store-replicate :
    (k d : ℕ) (s : Bytes) → store (replicate (suc k) 0 ++ s) k d ≡ ok (replicate k 0 ++ d ∷ s)
store-replicate zero d s = refl
store-replicate (suc k) d s = rw (store-replicate k d s)

-- With `k` free places in front of the digits written so far, for the `k` digits to come.
fill-numeral :
    (f v i k count : ℕ) (done : Bytes)
    → v ≤ f
    → k ≡ count_ciphers f v 0
    → i + k ≡ count + 1
    → fill_ciphers f v i count (replicate k 0 ++ done) ≡ ok (numeral f v done)
unfolding fill_ciphers numeral count_ciphers
fill-numeral zero v i zero count done h e q = refl
fill-numeral zero v i (suc k) count done h e q = absurd (omega arith)
fill-numeral (suc f) v i zero count done h e q = ground (arith, count-add f (v / 10) 1)
fill-numeral (suc f) v i (suc k) count done h e q = elim (Bool-cases (ltb 0 v)) [
  | inr stop ↦ absurd (ground arith)
  | inl go ↦
      let here : count - i ≡ k = omega arith in
      let room : leb i count ≡ true = ground arith in
      rw (go, room, here, store-replicate k (v % 10 + b'0') done)
        (fill-numeral f (v / 10) (i + 1) k count ((v % 10 + b'0') ∷ done) (ground arith)
          (ground (arith, count-add f (v / 10) 1)) (omega arith))
]

numeral-zero : (f : ℕ) (out : Bytes) → numeral f 0 out ≡ out
unfolding numeral
numeral-zero zero out = refl
numeral-zero (suc f) out = refl

length-numeral :
    (f v : ℕ) (out : Bytes) → length (numeral f v out) ≡ count_ciphers f v 0 + length out
unfolding numeral count_ciphers
length-numeral zero v out = omega arith
length-numeral (suc f) v out =
    ground (arith, length-numeral f (v / 10) ((v % 10 + b'0') ∷ out), count-add f (v / 10) 1)

digits-numeral : (f v : ℕ) (out : Bytes) → All IsDigit out → All IsDigit (numeral f v out)
unfolding numeral
digits-numeral zero v out h = h
digits-numeral (suc f) v out h = ground (arith, digits-numeral f (v / 10) ((v % 10 + b'0') ∷ out))

value-numeral : (f v : ℕ) (out : Bytes) → v ≤ f → value 0 (numeral f v out) ≡ value v out
unfolding numeral
value-numeral zero v out h = let e : v ≡ 0 = omega arith in rw e
value-numeral (suc f) v out h = elim (Bool-cases (ltb 0 v)) [
  | inl go ↦
      let last : (v / 10) * 10 + (v % 10 + b'0' - b'0') ≡ v = omega arith in
      rw go (
        value-numeral f (v / 10) ((v % 10 + b'0') ∷ out) (ground arith)
        ∙ ap (λ n. value n out) last)
  | inr stop ↦ let e : v ≡ 0 = ground arith in rw (stop, e)
]

shortest-numeral : (f v : ℕ) (out : Bytes) → v ≤ f → 0 < v → NoLeadingZero (numeral f v out)
unfolding numeral
shortest-numeral zero v out h p = absurd (omega arith)
shortest-numeral (suc f) v out h p = ground (
  arith,
  shortest-numeral f (v / 10) ((v % 10 + b'0') ∷ out),
  numeral-zero f ((v % 10 + b'0') ∷ out),
)

pub decimal-Spells : (v : ℕ) → Spells v (decimal v)
unfolding decimal
decimal-Spells zero = unfold numeral in record { digits = tt; exact = refl; shortest = tt }
decimal-Spells (suc v) = record {
  digits = digits-numeral (suc v) (suc v) [] tt;
  exact = value-numeral (suc v) (suc v) [] (omega arith);
  shortest = shortest-numeral (suc v) (suc v) [] (omega arith) (omega arith);
}

count-le : (k f v : ℕ) → v < 10 ^ k → count_ciphers f v 0 ≤ k
unfolding count_ciphers
count-le zero zero v h = omega arith
count-le zero (suc f) v h = ground arith
count-le (suc k) zero v h = omega arith
count-le (suc k) (suc f) v h =
    let small : v / 10 < 10 ^ k = omega (arith, pow-suc 10 k) in
    ground (arith, count-add f (v / 10) 1, count-le k f (v / 10) small)

pow-pos : (k : ℕ) → 0 < 10 ^ k
pow-pos zero = omega arith
pow-pos (suc k) = omega (arith, pow-suc 10 k, pow-pos k)

count-ge : (k f v : ℕ) → 10 ^ k ≤ v → v ≤ f → suc k ≤ count_ciphers f v 0
unfolding count_ciphers
count-ge zero zero v h e = absurd (omega arith)
count-ge zero (suc f) v h e = ground (arith, count-add f (v / 10) 1)
count-ge (suc k) zero v h e =
    let big : 10 ^ k ≤ v / 10 = omega (arith, pow-suc 10 k) in absurd (omega (arith, pow-pos k))
count-ge (suc k) (suc f) v h e =
    let big : 10 ^ k ≤ v / 10 = omega (arith, pow-suc 10 k) in
    let some_digit : 0 < 10 ^ k = pow-pos k in
    ground (arith, count-add f (v / 10) 1, count-ge k f (v / 10) big)

pub length-decimal-ge : (k v : ℕ) → 10 ^ k ≤ v → suc k ≤ length (decimal v)
unfolding decimal
length-decimal-ge k v h = omega (arith, length-numeral v v [], count-ge k v v h (omega arith))

-- A numeral is no longer than `k` digits if its number is below ten to the `k`.
pub length-decimal-le : (k v : ℕ) → v < 10 ^ k → length (decimal v) ≤ k
unfolding decimal
length-decimal-le k v h = omega (arith, length-numeral v v [], count-le k v v h)

numeral-append : (f v : ℕ) (out rest : Bytes) → numeral f v (out ++ rest) ≡ numeral f v out ++ rest
unfolding numeral
numeral-append zero v out rest = refl
numeral-append (suc f) v out rest =
    ground (arith, numeral-append f (v / 10) ((v % 10 + b'0') ∷ out) rest)

replicate-last : (k : ℕ) → ◌≡◌ {A = Bytes} (replicate (suc k) 0) (replicate k 0 ++ 0 ∷ [])
replicate-last zero = refl
replicate-last (suc k) = ap (◌∷◌ 0) (replicate-last k)

store-end : (s : Bytes) → store (s ++ 0 ∷ []) (length s) 0 ≡ ok (s ++ 0 ∷ [])
store-end [] = refl
store-end (c ∷ s) = rw (store-end s)

convert-decimal : (v : ℕ) → convert v ≡ ok (decimal v ++ 0 ∷ [])
unfolding convert decimal
convert-decimal v = rw (add-one count, replicate-last count, fill) ends
  where
    count : ℕ
    count = count_ciphers v v 0

    fill : fill_ciphers v v 1 count (replicate count 0 ++ 0 ∷ []) ≡ ok (decimal v ++ 0 ∷ [])
    fill =
        fill-numeral v v 1 count count (0 ∷ []) (omega arith) refl (omega arith)
        ∙ ap ok (numeral-append v v [] (0 ∷ []))

    size : count ≡ length (decimal v)
    size = omega (arith, length-numeral v v [])

    ends : store (decimal v ++ 0 ∷ []) count 0 ≡ ok (decimal v ++ 0 ∷ [])
    ends = rw size (store-end (decimal v))

-- What both conversions return, for every value: the block of the numeral of its positive part.
pub convert_int_to_string-decimal :
    (n : ℤ) → convert_int_to_string n ≡ ok (decimal (pos_part n) ++ 0 ∷ [])
unfolding convert_int_to_string
convert_int_to_string-decimal n = convert-decimal (pos_part n)

pub convert_long_to_string-decimal :
    (n : ℤ) → convert_long_to_string n ≡ ok (decimal (pos_part n) ++ 0 ∷ [])
unfolding convert_long_to_string
convert_long_to_string-decimal n = convert-decimal (pos_part n)

-- For every int `n` the function returns, without leaving its block, a block that holds a string and
-- its terminator. The string is the shortest decimal numeral of `n` if `n` is positive; of 0 and of
-- the negative values it is empty.
pub convert_int_to_string_lem :
    (n : ℤ)
    → (s : Bytes) × (convert_int_to_string n ≡ ok (s ++ 0 ∷ []))
      × Spells (pos_part n) s
      × (pos_part n ≡ 0 → s ≡ [])
convert_int_to_string_lem n =
    (decimal (pos_part n), convert_int_to_string-decimal n, decimal-Spells (pos_part n), none_left)
  where
    none_left : pos_part n ≡ 0 → decimal (pos_part n) ≡ []
    none_left e = rw e (unfold decimal numeral in refl)

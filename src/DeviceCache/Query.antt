-- ===== src/DeviceCache/Query.antt =====
-- When one query contains another: the quotation marks settle it for user agents without any.
use native.Mathlib.Nat.{zero-add}
use image_app.Common.{
  ℕ, suc, ◌+◌, ◌<◌, ◌≤◌, ◌≡◌, ◌≢◌, refl, ap, ◌∙◌, sym, true, false, [], ◌∷◌, ◌++◌, append_assoc,
  Bytes, Lacks, All-append, fault, ◌==◌, if◌then◌else◌, length, length-append, before, after,
  before-append, after-append, arith, ok,
}
use image_app.CString.{contains, strstr, starts_with}
use image_app.CString.Laws.{contains_split}
use image_app.DeviceCache.{select, query_of, build_query}

-- How often a byte occurs.
count : ℕ → Bytes → ℕ
count b [] = 0
count b (c ∷ s) = let rest = count b s in if c == b then suc rest else rest

count-append : (b : ℕ) (s t : Bytes) → count b (s ++ t) ≡ count b s + count b t
unfolding count
count-append b [] t = omega arith
count-append b (c ∷ s) t = ground (arith, count-append b s t)

count-Lacks : (b : ℕ) (s : Bytes) → Lacks b s → count b s ≡ 0
unfolding count
count-Lacks b [] h = refl
count-Lacks b (c ∷ s) h = ground (arith, count-Lacks b s h.1)

count_zero : (b : ℕ) (s : Bytes) → count b s ≡ 0 → Lacks b s
unfolding count
count_zero b [] h = tt
count_zero b (c ∷ s) h = ground (arith, count_zero b s)

select-Lacks : Lacks 39 select
select-Lacks = count_zero 39 select (unfold count in refl)

count-query_of : (ua : Bytes) → Lacks 39 ua → count 39 (query_of ua) ≡ 2
unfolding query_of
count-query_of ua h =
    count-append 39 select (39 ∷ (ua ++ 37 ∷ 39 ∷ 59 ∷ []))
    ∙ rw (count-Lacks 39 select select-Lacks, zero-add)
        (unfold count in rw (count-append 39 ua (37 ∷ 39 ∷ 59 ∷ []), count-Lacks 39 ua h))

-- A quotation mark ends the text in front of it.
front_unique :
    (b : ℕ) (x x' y y' : Bytes)
    → Lacks b x
    → Lacks b x'
    → x ++ b ∷ y ≡ x' ++ b ∷ y'
    → (x ≡ x') × (y ≡ y')
front_unique b x x' y y' h h' e = (
  sym (before-append b x y h) ∙ ap (before b) e ∙ before-append b x' y' h',
  sym (after-append b x y h) ∙ ap (after b) e ∙ after-append b x' y' h',
)

snoc_unique : (b : ℕ) (x y : Bytes) → x ++ b ∷ [] ≡ y ++ b ∷ [] → x ≡ y
snoc_unique b [] [] e = refl
snoc_unique b [] (d ∷ y) e = absurd (omega (arith, ap length e, length-append y (b ∷ [])))
snoc_unique b (c ∷ x) [] e = absurd (omega (arith, ap length e, length-append x (b ∷ [])))
snoc_unique b (c ∷ x) (d ∷ y) e = let ih = snoc_unique b x y in ground (arith, ih)

-- A query that contains another, both for user agents without a quotation mark, is that query.
pub contains-query_of :
    (ua ua' : Bytes)
    → Lacks 39 ua
    → Lacks 39 ua'
    → contains (query_of ua') (query_of ua) ≡ true
    → ua' ≡ ua
contains-query_of ua ua' h h' found = snoc_unique 37 ua' ua agents
  where
    split : (a : Bytes) × (b : Bytes) × (query_of ua' ≡ a ++ (query_of ua ++ b))
    split = contains_split (query_of ua') (query_of ua) found

    a : Bytes
    a = split.0

    b : Bytes
    b = split.1

    marks : 2 ≡ count 39 a + (2 + count 39 b)
    marks =
        sym (count-query_of ua' h')
        ∙ ap (count 39) split.2
        ∙ rw (
          count-append 39 a (query_of ua ++ b),
          count-append 39 (query_of ua) b,
          count-query_of ua h,
        )

    clean : Lacks 39 a
    clean = count_zero 39 a (omega (arith, marks))

    aligned :
        select ++ 39 ∷ (ua' ++ 37 ∷ 39 ∷ 59 ∷ []) ≡ (a ++ select) ++ 39 ∷ (ua ++ 37 ∷ 39 ∷ 59 ∷ b)
    aligned = unfold query_of in split.2 ∙ simp append_assoc

    tails : ua' ++ 37 ∷ 39 ∷ 59 ∷ [] ≡ ua ++ 37 ∷ 39 ∷ 59 ∷ b
    tails =
        (front_unique 39 select (a ++ select) (ua' ++ 37 ∷ 39 ∷ 59 ∷ []) (ua ++ 37 ∷ 39 ∷ 59 ∷ b)
          select-Lacks (All-append (λ c. c ≢ 39) a select clean select-Lacks) aligned).1

    agents : ua' ++ 37 ∷ [] ≡ ua ++ 37 ∷ []
    agents =
        (front_unique 39 (ua' ++ 37 ∷ []) (ua ++ 37 ∷ []) (59 ∷ []) (59 ∷ b)
          (All-append (λ c. c ≢ 39) ua' (37 ∷ []) h' (omega arith, tt))
          (All-append (λ c. c ≢ 39) ua (37 ∷ []) h (omega arith, tt))
          (append_assoc ua' (37 ∷ []) _ ∙ tails ∙ sym (append_assoc ua (37 ∷ []) _))).0

pub contains_empty : (ua : Bytes) → contains [] (query_of ua) ≡ false
unfolding query_of strstr starts_with
contains_empty ua = refl

length-query_of : (ua : Bytes) → length (query_of ua) ≡ length ua + 46
unfolding query_of
length-query_of ua =
    length-append select (39 ∷ (ua ++ 37 ∷ 39 ∷ 59 ∷ []))
    ∙ omega (arith, length-append ua (37 ∷ 39 ∷ 59 ∷ []))

-- The buffer for the query has room for 81 bytes of the user agent.
pub build_query_fits :
    (ua : Bytes) → 0 < length ua → length ua ≤ 81 → build_query ua ≡ ok (query_of ua)
unfolding build_query
build_query_fits [] h l = absurd (omega arith)
build_query_fits (c ∷ ua) h l = ground (arith, length-query_of (c ∷ ua))

pub build_query_long : (ua : Bytes) → 81 < length ua → build_query ua ≡ fault
unfolding build_query
build_query_long [] h = refl
build_query_long (c ∷ ua) h = ground (arith, length-query_of (c ∷ ua))

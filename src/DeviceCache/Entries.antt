-- ===== src/DeviceCache/Entries.antt =====
-- The entries of the cache of queries: when they are true of the database, and which one is found.
use image_app.Common.{
  ℕ, zero, suc, ◌<◌, ◌≡◌, refl, inl, inr, Option, none, some, List, [], ◌∷◌, Bytes, Lacks, Outcome,
  ok, exit, fault, set, length, All, arith, Bool-cases, replicate,
}
use image_app.CString.{contains}
use image_app.CString.Laws.{contains_self}
use image_app.DeviceCache.{
  no_value_in_db, Display, no_display, CacheQuery, DeviceCache, Database, query_of, find_query,
  fetch, empty_cache,
}
use image_app.DeviceCache.Query.{contains-query_of, contains_empty}

-- A user agent without a quotation mark.
abbrev pub Plain : Bytes → Type 0
Plain ua = Lacks 39 ua

-- The entry `e` has no query yet, or keeps what the database answers to its query.
pub data IsTrue (db : Database) (e : CacheQuery) : Type 0 where
  unused : e.query ≡ [] → IsTrue db e
  answered :
      (ua : Bytes)
      → Plain ua
      → e.query ≡ query_of ua
      → fetch db (query_of ua) ≡ ok (e.state, e.display)
      → IsTrue db e

-- Every entry of the cache is true of the database.
pub record Consistent (db : Database) (c : DeviceCache) : Type 0 where
  pub size : length c.entries ≡ 256
  pub entries_true : All (IsTrue db) c.entries

pub All-replicate {ℓ κ} :
    {A : Type ℓ} (P : A → Type κ) (n : ℕ) (a : A) → P a → All P (replicate n a)
All-replicate P zero a h = tt
All-replicate P (suc n) a h = (h, All-replicate P n a h)

pub All-set {ℓ κ} :
    {A : Type ℓ} (P : A → Type κ) (xs : List A) (i : ℕ) (v : A)
    → All P xs
    → P v
    → All P (set xs i v)
All-set P [] i v h p = tt
All-set P (x ∷ xs) zero v h p = (p, h.1)
All-set P (x ∷ xs) (suc i) v h p = (h.0, All-set P xs i v h.1 p)

-- An entry that the loop stops at was answered for this very user agent.
pub found-answered :
    (db : Database) (es : List CacheQuery) (ua : Bytes) (e : CacheQuery)
    → All (IsTrue db) es
    → Plain ua
    → find_query es (query_of ua) ≡ some e
    → fetch db (query_of ua) ≡ ok (e.state, e.display)
unfolding find_query
found-answered db [] ua e h p f = cc
found-answered db (x ∷ es) ua e h p f = elim (Bool-cases (contains x.query (query_of ua))) [
  | inr miss ↦ found-answered db es ua e h.1 p (rw (miss) at f)
  | inl hit ↦ elim h.0 [
    | unused q ↦ let never = contains_empty ua in absurd (cc)
    | answered ua' p' q a ↦
        let same : x ≡ e = ground arith in
        let agent : ua' ≡ ua = contains-query_of ua ua' p p' (rw (q) at hit) in
        rw (← same, ← agent) a
  ]
]

-- Once the query is in the cache, the loop stops.
pub found-set :
    (es : List CacheQuery) (i : ℕ) (e : CacheQuery)
    → i < length es
    → (e' : CacheQuery) × (find_query (set es i e) e.query ≡ some e')
unfolding find_query
found-set [] i e h = absurd (omega arith)
found-set (x ∷ es) zero e h = (e, rw (contains_self e.query))
found-set (x ∷ es) (suc i) e h = elim (Bool-cases (contains x.query e.query)) [
  | inl hit ↦ (x, rw hit)
  | inr miss ↦ let (e', f) = found-set es i e (omega arith) in (e', rw (miss) f)
]

pub fetch-absent :
    (db : Database) (q : Bytes) (d : Display) → fetch db q ≡ ok (no_value_in_db, d) → d ≡ no_display
unfolding fetch
fetch-absent db q d h = given (db q) refl
  where
    given : (o : Outcome (Option (List Bytes))) → db q ≡ o → d ≡ no_display
    given fault e = absurd (cc)
    given exit e = absurd (cc)
    given (ok none) e = cc
    given (ok (some row)) e = absurd (ground arith)

pub empty_cache-Consistent : (db : Database) → Consistent db empty_cache
unfolding empty_cache
empty_cache-Consistent db = record {
  size = refl;
  entries_true = All-replicate (IsTrue db) 256 _ (unused refl);
}

-- ===== src/ImageCache/State.antt =====
-- The state of the cache as a list of entries, and what a new entry makes of each part of it.

use image_app.Common.{
  zeros, memcpy-zeros, ℕ, suc, ◌+◌, ◌<◌, ◌≡◌, refl, ap, sym, List, [], ◌∷◌, ◌++◌, append_assoc,
  Bytes, map, ok, store, store-append, memcpy_at, length, length-append, replicate, arith,
}
use image_app.ImageCache.{size_file_listcache, FileCache}
use image_app.ImageCache.Lookup.{Entry, IsPath, Paths, flat}

-- A table of 128 numbers that starts with the values of a list.
abbrev pub Starts : List ℕ → List ℕ → Type 0
Starts table xs = (rest : List ℕ) × (table ≡ xs ++ rest) × (length table ≡ 128)

abbrev pub fds_of : List Entry → List ℕ
fds_of = map λ e. e.fd

abbrev pub sizes_of : List Entry → List ℕ
sizes_of = map λ e. e.file_size

-- The state `c` holds the entries `es`, oldest first, with `spare` bytes of the file left.
pub record Represents (c : FileCache) (es : List Entry) : Type 0 where
  pub spare : ℕ
  pub file : c.map ≡ flat es ++ replicate spare 0
  pub whole : length (flat es) + spare ≡ size_file_listcache
  pub paths : Paths es
  pub seek_end : c.seek ≡ length (flat es)
  pub fd_end : c.end ≡ length es
  pub fd_table : Starts c.fds (fds_of es)
  pub size_table : Starts c.sizes (sizes_of es)

pub Paths-append : (es : List Entry) (e : Entry) → Paths es → IsPath e.path → Paths (es ++ e ∷ [])
Paths-append [] e ps p = (p, tt)
Paths-append (x ∷ es) e ps p = (ps.0, Paths-append es e ps.1 p)

pub flat-append :
    (es : List Entry) (e : Entry) → flat (es ++ e ∷ []) ≡ flat es ++ (e.path ++ 0 ∷ [])
flat-append [] e = refl
flat-append (x ∷ es) e = rw (flat-append es e, append_assoc x.path (0 ∷ flat es) _)

-- The value behind the ones a table starts with.
pub store-Starts :
    (table xs : List ℕ) (v : ℕ)
    → Starts table xs
    → length xs < 128
    → (t : List ℕ) × (store table (length xs) v ≡ ok t) × Starts t (xs ++ v ∷ [])
store-Starts table xs v ([], e, size) h = absurd (omega (arith, ap length e, length-append xs []))
store-Starts table xs v (d ∷ rest, e, size) h = (
  xs ++ v ∷ rest,
  rw e (store-append xs rest d v),
  (
    rest,
    sym (append_assoc xs (v ∷ []) rest),
    omega (arith, ap length e, length-append xs (d ∷ rest), length-append xs (v ∷ rest)),
  ),
)

-- One table of the state after a new value.
pub store-table :
    (table xs : List ℕ) (v end : ℕ)
    → Starts table xs
    → end ≡ length xs
    → length xs < 128
    → (t : List ℕ) × (store table end v ≡ ok t) × Starts t (xs ++ v ∷ [])
store-table table xs v end s e h = rw e (store-Starts table xs v s h)

-- The file after a new path, with `z` bytes left.
pub file_copied :
    (map t p : Bytes) (seek z : ℕ)
    → map ≡ t ++ zeros (length p + suc z)
    → seek ≡ length t
    → memcpy_at map seek p ≡ ok (t ++ p ++ 0 ∷ zeros z)
file_copied map t p seek z e s = rw (e, s) (memcpy-zeros t p (suc z))

pub file_ended :
    (t p : Bytes) (seek z : ℕ)
    → seek ≡ length t
    → store (t ++ p ++ 0 ∷ zeros z) (seek + length p) 0 ≡ ok (t ++ p ++ 0 ∷ zeros z)
file_ended t p seek z s = rw (s, ← length-append t p) (store-append (t ++ p) (zeros z) 0 0)

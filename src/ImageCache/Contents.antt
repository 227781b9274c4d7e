-- ===== src/ImageCache/Contents.antt =====
-- The state of the cache as a list of entries: lookups find the first match, a new image is added at
-- the end, and the file overflows where its offset should start again.
use native.Mathlib.Nat.{zero-add, add-zero}
use native.Mathlib.Decide.{dec_lt}
use image_app.Common.{
  zeros, memcpy-out, memcpy-in, store-out, map-append, length-map, ℕ, zero, suc, ◌+◌, ◌-◌, ◌%◌, ◌<◌,
  ◌≡◌, refl, ap, ◌∙◌, sym, some, List, [], ◌∷◌, ◌++◌, append_assoc, Bytes, ok, fault, load,
  load-some, store, get_elem?, lt→ltb, length, length-append, replicate, arith, Bool-cases, inl,
  inr,
}
use image_app.CString.{cstr, contains}
use image_app.CString.Laws.{cstr-append, contains_self}
use image_app.ImageCache.{
  size_file_listcache, cached_image, not_cached_image, find_file_in_cache, FileCache, cached_file,
  remember,
}
use image_app.ImageCache.Lookup.{Entry, IsPath, flat, first_match, scan_map-entries}
use image_app.ImageCache.State.{
  Paths-append, Represents, Starts, fds_of, file_copied, file_ended, flat-append, sizes_of,
  store-table,
}

cstr-zeros : (z : ℕ) → 0 < z → cstr (replicate z 0) ≡ ok []
cstr-zeros zero h = absurd (omega arith)
cstr-zeros (suc z) h = cstr-append [] (replicate z 0) tt

-- When the cache holds the entries `es`, a lookup of a path that is not empty gives the place of
-- the first entry whose path contains it, and -1 if there is none. It ends, and stays in the
-- file and in its buffer.
pub find_file_in_cache_lem :
    (c : FileCache) (es : List Entry) (cache_path : Bytes)
    → Represents c es
    → 0 < length cache_path
    → find_file_in_cache cache_path c.map ≡ ok (first_match es cache_path 0)
unfolding find_file_in_cache first_match
find_file_in_cache_lem c [] cache_path r sought =
    rw (r.file, cstr-zeros r.spare (omega (arith, r.whole)), first_match)
find_file_in_cache_lem c (x ∷ es) cache_path r sought =
    rw
      (
        r.file,
        append_assoc x.path (0 ∷ flat es) _,
        cstr-append x.path _ r.paths.0.clean,
        lt→ltb 0 (length x.path) r.paths.0.some_byte,
      )
      (scan_map-entries cache_path (x.path ++ 0 ∷ (flat es ++ replicate r.spare 0)) sought (x ∷ es)
        r.spare size_file_listcache 0 [] (sym (append_assoc x.path (0 ∷ flat es) _))
        (omega (arith, r.whole)) (omega arith) r.paths)

-- As long as the file has room for the path and its terminator with a byte to spare, and the
-- tables for two more entries, a new image whose path has 1 to 127 bytes, none of them zero,
-- goes behind the ones that are there, with its path, its descriptor and its size.
pub remember-Represents :
    (c : FileCache) (es : List Entry) (new : Entry)
    → Represents c es
    → IsPath new.path
    → length (flat es) + length new.path + 1 < size_file_listcache
    → length es < 127
    → (d : FileCache) × (remember c new.path new.fd new.file_size ≡ ok d)
      × Represents d (es ++ new ∷ [])
unfolding remember
remember-Represents c es new r p room few = (
  record {
    map = flat es ++ new.path ++ 0 ∷ zeros z;
    seek = (c.seek + length new.path + 1) % size_file_listcache;
    fds = fds.0;
    sizes = sizes.0;
    end = (c.end + 1) % 128;
  },
  rw (
    file_copied c.map (flat es) new.path c.seek z (r.file ∙ ap (λ n. flat es ++ zeros n) left)
        r.seek_end,
    file_ended (flat es) new.path c.seek z r.seek_end,
    fds.1,
    sizes.1,
  ),
  record {
    spare = z;
    file = rw (flat-append es new) (simp append_assoc);
    whole = omega (arith, grown, r.whole, left);
    paths = Paths-append es new r.paths p;
    seek_end = omega (arith, grown, r.seek_end);
    fd_end = omega (arith, r.fd_end, length-append es (new ∷ []));
    fd_table = rw (map-append) fds.2;
    size_table = rw (map-append) sizes.2;
  },
)
  where
    z : ℕ
    z = r.spare - length new.path - 1

    left : r.spare ≡ length new.path + suc z
    left = omega (arith, r.whole)

    grown : length (flat (es ++ new ∷ [])) ≡ length (flat es) + length new.path + 1
    grown =
        ap length (flat-append es new)
        ∙ omega
            (arith, length-append (flat es) (new.path ++ 0 ∷ []), length-append new.path (0 ∷ []))

    fds : (t : List ℕ) × (store c.fds c.end new.fd ≡ ok t) × Starts t (fds_of es ++ new.fd ∷ [])
    fds =
        store-table c.fds (fds_of es) new.fd c.end r.fd_table
          (r.fd_end ∙ sym (length-map (λ e. e.fd) es))
          (omega (arith, length-map (λ (e : Entry). e.fd) es))

    sizes :
        (t : List ℕ) × (store c.sizes c.end new.file_size ≡ ok t)
        × Starts t (sizes_of es ++ new.file_size ∷ [])
    sizes =
        store-table c.sizes (sizes_of es) new.file_size c.end r.size_table
          (r.fd_end ∙ sym (length-map (λ e. e.file_size) es))
          (omega (arith, length-map (λ (e : Entry). e.file_size) es))

get_elem?-append {ℓ} :
    {A : Type ℓ} (xs : List A) (v : A) (rest : List A)
    → get_elem? (xs ++ v ∷ rest) (length xs) ≡ some v
get_elem?-append [] v rest = refl
get_elem?-append (x ∷ xs) v rest = get_elem?-append xs v rest

first_match-append :
    (es : List Entry) (new : Entry) (i : ℕ)
    → first_match es new.path i ≡ not_cached_image
    → first_match (es ++ new ∷ []) new.path i ≡ cached_image (i + length es)
unfolding first_match
first_match-append [] new i h = rw (contains_self new.path, add-zero)
first_match-append (x ∷ es) new i h = elim (Bool-cases (contains x.path new.path)) [
  | inl hit ↦ absurd (ground arith)
  | inr miss ↦
      let more : i + suc (length es) ≡ i + 1 + length es = omega arith in
      rw (miss, more) (first_match-append es new (i + 1) (rw (miss) at h))
]

stored :
    (table xs : List ℕ) (v n : ℕ)
    → Starts table (xs ++ v ∷ [])
    → n ≡ length xs
    → load table n ≡ ok v
stored table xs v n (rest, e, size) h =
    load-some table n (rw (e, h, append_assoc xs (v ∷ []) rest) (get_elem?-append xs v rest))

-- An image that is added while the file and the tables have room, whose path has 1 to 127 bytes,
-- none of them zero, and is contained in no earlier path, is found by the next lookup of its
-- path, at the index at which its own descriptor and size are stored.
pub remember-find :
    (c : FileCache) (es : List Entry) (new : Entry)
    → Represents c es
    → IsPath new.path
    → length (flat es) + length new.path + 1 < size_file_listcache
    → length es < 127
    → first_match es new.path 0 ≡ not_cached_image
    → (d : FileCache) × (remember c new.path new.fd new.file_size ≡ ok d)
      × (find_file_in_cache new.path d.map ≡ ok (cached_image (length es)))
      × (cached_file d (length es) ≡ ok (new.fd, new.file_size))
unfolding cached_file
remember-find c es new r p room few fresh =
    let (d, e, q) = remember-Represents c es new r p room few in
    (
      d,
      e,
      find_file_in_cache_lem d (es ++ new ∷ []) new.path q p.some_byte
          ∙ ap ok (first_match-append es new 0 fresh ∙ ap cached_image (zero-add (length es))),
      rw (
        stored d.sizes (sizes_of es) new.file_size (length es) (rw map-append at q.size_table)
            (sym (length-map (λ e. e.file_size) es)),
        stored d.fds (fds_of es) new.fd (length es) (rw map-append at q.fd_table)
            (sym (length-map (λ e. e.fd) es)),
      ),
    )

-- A path that does not fit, with its terminator, into the rest of the file is written over the
-- end of the mapping.
pub remember_overflow :
    (c : FileCache) (cache_path : Bytes) (fd file_size : ℕ)
    → length c.map ≡ size_file_listcache
    → c.seek < size_file_listcache
    → size_file_listcache < c.seek + length cache_path + 1
    → remember c cache_path fd file_size ≡ fault
unfolding remember
remember_overflow c cache_path fd file_size size inside over =
    elim (dec_lt size_file_listcache (c.seek + length cache_path)) [
      | yes out ↦ rw (memcpy-out cache_path c.map c.seek (omega arith) (omega arith))
      | no exact ↦
          let (m, e, l) = memcpy-in cache_path c.map c.seek (omega arith) in
          rw (e, store-out m (c.seek + length cache_path) 0 (omega arith))
    ]

-- ===== src/ImageCache/Lookup.antt =====
-- The lookup in the mapped file against a list of entries.

use image_app.Common.{
  ℕ, zero, suc, ◌+◌, ◌≤◌, ◌<◌, ◌≡◌, refl, ap, ◌∙◌, sym, false, List, [], ◌∷◌, ◌++◌, append_assoc,
  Bytes, Lacks, ok, if◌then◌else◌, lt→ltb, length, length-append, drop, replicate, arith,
  Bool-cases, inl, inr,
}
use image_app.CString.{contains, strstr, starts_with}
use image_app.CString.Laws.{cstr-append}
use image_app.ImageCache.{
  size_file_listcache, CacheFile, cached_image, not_cached_image, copy_entry, scan_map,
}

-- What the cache remembers of one image.
pub record Entry : Type 0 where
  pub path : Bytes
  pub fd : ℕ
  pub file_size : ℕ

-- A path that the file and the buffer of the lookup can hold.
pub record IsPath (p : Bytes) : Type 0 where
  pub clean : Lacks 0 p
  pub short : length p < 128
  pub some_byte : 0 < length p

abbrev pub Paths : List Entry → Type 0
Paths [] = Unit
Paths (e ∷ es) = IsPath e.path × Paths es

-- The text of the file: each path with its terminator.
abbrev pub flat : List Entry → Bytes
flat [] = []
flat (e ∷ es) = e.path ++ 0 ∷ flat es

-- The first entry whose path contains the path that is sought, counted from `i` on.
unfoldable pub first_match : List Entry → Bytes → ℕ → CacheFile
first_match [] cache_path i = not_cached_image
first_match (e ∷ es) cache_path i =
    if contains e.path cache_path then cached_image i else first_match es cache_path (i + 1)

drop-append : (w r : Bytes) → drop (length w) (w ++ r) ≡ r
drop-append [] r = refl
drop-append (x ∷ w) r = drop-append w r

copy_entry_at :
    (map pre p r : Bytes)
    → map ≡ pre ++ (p ++ 0 ∷ r)
    → Lacks 0 p
    → length p < 128
    → copy_entry map (length pre) ≡ ok p
unfolding copy_entry
copy_entry_at map pre p r e clean short =
    rw (e, drop-append pre (p ++ 0 ∷ r), cstr-append p r clean, lt→ltb (length p) 128 short)

-- One round of the loop, on an entry that is there.
scan_map-step :
    (fuel i : ℕ) (cache_path map pre p r : Bytes)
    → map ≡ pre ++ (p ++ 0 ∷ r)
    → Lacks 0 p
    → length p < 128
    → length pre < size_file_listcache
    → scan_map (suc fuel) cache_path map (length pre) i ≡ (
        if contains p cache_path
        then ok (cached_image i)
        else scan_map fuel cache_path map (length (pre ++ (p ++ 0 ∷ []))) (i + 1))
unfolding scan_map
scan_map-step fuel i cache_path map pre p r e clean short inside =
    rw (lt→ltb (length pre) size_file_listcache inside, copy_entry_at map pre p r e clean short)
      (rw size)
  where
    size : length (pre ++ (p ++ 0 ∷ [])) ≡ length pre + (length p + 1)
    size = rw (length-append pre (p ++ 0 ∷ []), length-append p (0 ∷ []))

scan_map-end :
    (fuel : ℕ) (cache_path map : Bytes) (len i : ℕ)
    → size_file_listcache ≤ len
    → scan_map fuel cache_path map len i ≡ ok not_cached_image
unfolding scan_map
scan_map-end zero cache_path map len i h = refl
scan_map-end (suc fuel) cache_path map len i h = ground arith

contains-nil : (n : Bytes) → 0 < length n → contains [] n ≡ false
unfolding strstr starts_with
contains-nil [] h = absurd (omega arith)
contains-nil (c ∷ n) h = refl

module _ (cache_path map : Bytes) (sought : 0 < length cache_path) where
  -- The rest of the file is empty strings, and the loop ends with the file.
  scan_map-zeros :
      (z fuel i : ℕ) (pre : Bytes)
      → map ≡ pre ++ replicate z 0
      → length pre + z ≡ size_file_listcache
      → z ≤ fuel
      → scan_map fuel cache_path map (length pre) i ≡ ok not_cached_image
  scan_map-zeros zero fuel i pre e size h =
      scan_map-end fuel cache_path map (length pre) i (omega arith)
  scan_map-zeros (suc z) zero i pre e size h = absurd (omega arith)
  scan_map-zeros (suc z) (suc fuel) i pre e size h =
      scan_map-step fuel i cache_path map pre [] (replicate z 0) e tt (omega arith) (omega arith)
      ∙ rw (contains-nil cache_path sought) (
          scan_map-zeros z fuel (i + 1) (pre ++ 0 ∷ []) (e ∙ sym (append_assoc pre (0 ∷ []) _))
            (omega (arith, length-append pre (0 ∷ []))) (omega arith))

  pub scan_map-entries :
      (es : List Entry) (z fuel i : ℕ) (pre : Bytes)
      → map ≡ pre ++ (flat es ++ replicate z 0)
      → length pre + length (flat es) + z ≡ size_file_listcache
      → size_file_listcache ≤ fuel + length pre
      → Paths es
      → scan_map fuel cache_path map (length pre) i ≡ ok (first_match es cache_path i)
  unfolding first_match
  scan_map-entries [] z fuel i pre e size h ps =
      scan_map-zeros z fuel i pre e (omega arith) (omega arith)
  scan_map-entries (x ∷ es) z zero i pre e size h (p, ps) =
      absurd (omega (arith, length-append x.path (0 ∷ flat es)))
  scan_map-entries (x ∷ es) z (suc fuel) i pre e size h (p, ps) =
      scan_map-step fuel i cache_path map pre x.path rest shape p.clean p.short inside
      ∙ elim (Bool-cases (contains x.path cache_path)) [
        | inl hit ↦ rw hit
        | inr miss ↦ rw miss (
            scan_map-entries es z fuel (i + 1) (pre ++ (x.path ++ 0 ∷ [])) further
              (omega (arith, total, grown)) (omega (arith, grown)) ps)
      ]
    where
      rest : Bytes
      rest = flat es ++ replicate z 0

      shape : map ≡ pre ++ (x.path ++ 0 ∷ rest)
      shape = e ∙ ap (◌++◌ pre) (append_assoc x.path (0 ∷ flat es) (replicate z 0))

      further : map ≡ pre ++ (x.path ++ 0 ∷ []) ++ rest
      further = shape ∙ simp append_assoc

      total : length (flat (x ∷ es)) ≡ length x.path + suc (length (flat es))
      total = length-append x.path (0 ∷ flat es)

      grown : length (pre ++ (x.path ++ 0 ∷ [])) ≡ length pre + (length x.path + 1)
      grown = rw (length-append pre (x.path ++ 0 ∷ []), length-append x.path (0 ∷ []))

      inside : length pre < size_file_listcache
      inside = omega (arith, length-append x.path (0 ∷ flat es))

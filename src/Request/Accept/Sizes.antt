-- ===== src/Request/Accept/Sizes.antt =====
-- How many media types `get_list_accept_image` can take, and what it makes of them.
use native.Mathlib.Decide.{dec_lt}
use image_app.CString.Laws.{cstr-ne-exit}
use image_app.Common.{
  ℕ, ◌+◌, ◌≤◌, ◌<◌, ◌≡◌, refl, ap, true, Option, none, some, List, [], ◌∷◌, ◌++◌, Bytes, map, codes,
  All, Lacks, Outcome, ok, exit, fault, ◌>>=◌, if◌then◌else◌, length, inl, inr, arith, ◌≢◌, drop,
  Option-cases, occurs-Lacks, before-Lacks,
}
use image_app.CString.{contains, same, strstr, starts_with}
use image_app.Request.Accept.{
  all_ext, Quality, skip, cut, strtok, tokens, discarded, block_size, collect, ImageNode, plain_ext,
  parse_tokens, second, parse_type, parse_all, free_last, get_list_accept_image, quality,
}

-- The media types of an accept line that name neither text nor an application.
unfoldable pub kept : List Bytes → List Bytes
kept [] = []
kept (t ∷ ts) = if discarded t then kept ts else t ∷ kept ts

collect-kept :
    (ts : List Bytes) (dim : ℕ) → dim + length (kept ts) ≤ 4 → collect ts dim ≡ ok (kept ts)
unfolding collect kept
collect-kept [] dim h = refl
collect-kept (t ∷ ts) dim h = ground (arith, collect-kept ts dim, collect-kept ts (dim + 1))

collect-full :
    (ts : List Bytes) (dim : ℕ) → 4 < dim + length (kept ts) → dim ≤ 4 → collect ts dim ≡ fault
unfolding collect kept
collect-full [] dim h l = absurd (omega arith)
collect-full (t ∷ ts) dim h l = ground (arith, collect-full ts dim, collect-full ts (dim + 1))

bind_fault {ℓ κ} :
    {A : Type ℓ} {B : Type κ} (m : Outcome A) (k : A → Outcome B)
    → m ≢ exit
    → ((a : A) → k a ≡ fault)
    → (m >>= k) ≡ fault
bind_fault (ok a) k h f = f a
bind_fault exit k h f = absurd (h refl)
bind_fault fault k h f = refl

module _ (Q : Quality) where
  quality-ne-exit : (t : Bytes × Option Bytes) → quality Q t ≢ exit
  unfolding quality
  quality-ne-exit (t, none) h = ground (arith, cstr-ne-exit (drop 3 (t ++ 0 ∷ [])))
  quality-ne-exit (t, some r) h = ground (arith, cstr-ne-exit (drop 3 (t ++ 0 ∷ (r ++ 0 ∷ []))))

  parse_tokens-ne-exit :
      (t : Bytes) (t2 : Option (Bytes × Option Bytes)) → parse_tokens Q t t2 ≢ exit
  unfolding parse_tokens
  parse_tokens-ne-exit t none h = ground arith
  parse_tokens-ne-exit t (some t2) h = ground (arith, quality-ne-exit t2)

  parse_type-ne-exit : (t : Bytes) → parse_type Q t ≢ exit
  unfolding parse_type
  parse_type-ne-exit t h = elim (Option-cases (strtok b';' t)) [
    | inl e ↦ ground arith
    | inr (p, e) ↦ ground (arith, parse_tokens-ne-exit p.0 (second Q p.1))
  ]

  -- Behind the wrong reallocation the fields of the first node are outside the block.
  parse_all-small : (t : Bytes) (types : List Bytes) → parse_all Q 8 0 (t ∷ types) ≡ fault
  unfolding parse_all
  parse_all-small t types = bind_fault (parse_type Q t) _ (parse_type-ne-exit t) (λ n. refl)

  full-fault :
      (types : List Bytes)
      → 4 ≤ length types
      → parse_all Q (block_size (length types)) 0 types ≡ fault
  unfolding block_size
  full-fault [] h = absurd (omega arith)
  full-fault (t ∷ types) h = ground (arith, parse_all-small t types)

  -- With four or more types in the accept line that name neither text nor an application, the
  -- function leaves its block.
  pub get_list_accept_image_overflow :
      (accept_line : Bytes)
      → 4 ≤ length (kept (tokens [] accept_line))
      → get_list_accept_image Q accept_line ≡ fault
  unfolding get_list_accept_image
  get_list_accept_image_overflow accept_line h = elim (dec_lt 4 (length (kept ts))) [
    | yes more ↦ rw (collect-full ts 0 (omega arith) (omega arith))
    | no full ↦ rw (collect-kept ts 0 (omega arith), full-fault (kept ts) h)
  ]
    where
      ts : List Bytes
      ts = tokens [] accept_line

  -- An accept line in which every type names text or an application ends the whole process.
  pub get_list_accept_image_exit :
      (accept_line : Bytes)
      → kept (tokens [] accept_line) ≡ []
      → get_list_accept_image Q accept_line ≡ exit
  unfolding get_list_accept_image parse_all
  get_list_accept_image_exit accept_line h =
      rw (collect-kept (tokens [] accept_line) 0 (omega (arith, ap length h)), h)

  -- A media type "image/…" without parameters.
  abbrev pub IsPlain : Bytes → Type 0
  IsPlain t = Lacks b';' t × (contains t (codes "image/") ≡ true)

  -- The node that such a type is given: quality 1, and the extension that its name holds.
  unfoldable pub plain_node : Bytes → ImageNode Q
  plain_node t = record {
    type = t;
    q = Q.one;
    extension = if same t (codes "image/*") then all_ext else plain_ext Q t;
  }

  strtok-plain : (t : Bytes) → IsPlain t → strtok b';' t ≡ some (t, none)
  unfolding strtok skip cut
  strtok-plain [] h = absurd (unfold strstr starts_with in cc)
  strtok-plain (c ∷ t) h =
      ground (arith, occurs-Lacks b';' (c ∷ t) h.0, before-Lacks b';' (c ∷ t) h.0)

  parse_type-plain : (t : Bytes) → IsPlain t → parse_type Q t ≡ ok (plain_node t)
  unfolding parse_type plain_node
  parse_type-plain t h = rw (strtok-plain t h, parse_type, h.1) (ground arith)

  parse_all-plain :
      (i : ℕ) (types : List Bytes)
      → All IsPlain types
      → i + length types ≤ 4
      → parse_all Q 64 i types ≡ ok (map plain_node types)
  unfolding parse_all
  parse_all-plain i [] h l = refl
  parse_all-plain i (t ∷ types) h l =
      ground (arith, parse_type-plain t h.0, parse_all-plain (i + 1) types h.1)

  free_last-plain : (types : List Bytes) → All IsPlain types → free_last Q types ≡ ok tt
  unfolding free_last
  free_last-plain [] h = refl
  free_last-plain ([] ∷ []) h = refl
  free_last-plain ((c ∷ t) ∷ []) h = ground arith
  free_last-plain (t ∷ u ∷ types) h = free_last-plain (u ∷ types) h.1

  -- If one to three types of the accept line name neither text nor an application, and each of
  -- these names an image and has no parameter, there is a node for each of them, in their order,
  -- with the quality 1.
  pub get_list_accept_image_plain :
      (accept_line : Bytes)
      → All IsPlain (kept (tokens [] accept_line))
      → 1 ≤ length (kept (tokens [] accept_line))
      → length (kept (tokens [] accept_line)) ≤ 3
      → get_list_accept_image Q accept_line ≡ ok (map plain_node (kept (tokens [] accept_line)))
  unfolding get_list_accept_image block_size
  get_list_accept_image_plain accept_line plain some_type few =
      rw (collect-kept (tokens [] accept_line) 0 (omega arith))
        (ground (arith, parse_all-plain 0 ts plain, free_last-plain ts plain))
    where
      ts : List Bytes
      ts = kept (tokens [] accept_line)

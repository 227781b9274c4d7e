-- ===== src/Request/Accept.antt =====
-- `get_list_accept_image` of Request.c: the media types of the accept line and their qualities.
pub mod Sizes
use image_app.Common.{
  ℕ, zero, suc, ◌+◌, ◌*◌, ◌≡◌, refl, Bool, true, false, ◌||◌, ◌&&◌, Option, none, some, List, [],
  ◌∷◌, ◌++◌, Bytes, codes, Outcome, ok, exit, fault, ◌>>=◌, ◌>>◌, leb, ◌==◌, if◌then◌else◌, length,
  drop, occurs, before, after,
}
use image_app.CString.{contains, same, cstr}

-- `enum ext_image` of HandleImage.h.
pub data ImageExt : Type 0 where
  jpg jxr png webp all_ext : ImageExt

-- What the code does with values of type float: constants, the test for zero, and strtof with the
-- test whether it set errno.
pub record Quality : Type 1 where
  pub Float : Type 0
  pub nought : Float
  pub one : Float
  pub eight_tenths : Float
  pub is_nought : Float → Bool
  pub strtof : Bytes → Float × Bool

-- strtok for one separator: leading separators are skipped, and NULL is returned at the end. The
-- second part of a token is the text behind the separator that ended it, if one did.
skip : ℕ → Bytes → Bytes
skip sep [] = []
skip sep (c ∷ s) = if c == sep then skip sep s else c ∷ s

cut : ℕ → Bytes → Option (Bytes × Option Bytes)
cut sep [] = none
cut sep (c ∷ s) =
    some (before sep (c ∷ s), if occurs sep (c ∷ s) then some (after sep (c ∷ s)) else none)

strtok : ℕ → Bytes → Option (Bytes × Option Bytes)
strtok sep s = cut sep (skip sep s)

-- The first loop over strtok(…, ","): the token being read, then the rest of the line.
unfoldable pub tokens : Bytes → Bytes → List Bytes
tokens [] [] = []
tokens (c ∷ cur) [] = (c ∷ cur) ∷ []
tokens [] (d ∷ s) = tokens (if d == b',' then [] else d ∷ []) s
tokens (c ∷ cur) (d ∷ s) = elim (d == b',') [
  | true ↦ (c ∷ cur) ∷ tokens [] s
  | false ↦ tokens (c ∷ cur ++ d ∷ []) s
]

unfoldable pub discarded : Bytes → Bool
discarded t = contains t (codes "text") || contains t (codes "application")

-- The block has four nodes of 16 bytes. When the fourth is in use, realloc is called with
-- `preallocation + preallocation`, which is eight bytes; it is not called again.
block_size : ℕ → ℕ
block_size dim = if leb 4 dim then 8 else 64

-- An access to the bytes of node `i` up to `end`: 8 for its type, 12 for q, 16 for the extension.
touch : ℕ → ℕ → ℕ → Outcome (Unit {0})
touch size i end = if leb (i * 16 + end) size then ok tt else fault

-- The types that are kept, in order, from the dimension reached so far.
collect : List Bytes → ℕ → Outcome (List Bytes)
unfolding touch block_size
collect [] dim = ok []
collect (t ∷ ts) dim =
    let kept = touch (block_size dim) dim 8 >> (collect ts (dim + 1) >>= λ r. ok (t ∷ r)) in
    let rest = collect ts dim in if discarded t then rest else kept

module _ (Q : Quality) where
  open Q use {Float, nought, one, eight_tenths, is_nought, strtof}

  pub record ImageNode : Type 0 where
    pub type : Bytes
    pub q : Float
    pub extension : ImageExt

  -- strtof(token2 + 3, &s), on the block from `token2` on.
  quality : Bytes × Option Bytes → Outcome (Float × Bool)
  quality (t, none) = cstr (drop 3 (t ++ 0 ∷ [])) >>= λ s. ok (strtof s)
  quality (t, some more) = cstr (drop 3 (t ++ 0 ∷ (more ++ 0 ∷ []))) >>= λ s. ok (strtof s)

  -- The extension of a type without parameters; no match leaves the 0 of calloc, which is JPG.
  pub plain_ext : Bytes → ImageExt
  plain_ext t =
      if contains t (codes "jpg")
      then jpg
      else if contains t (codes "jpeg")
      then jpg
      else if contains t (codes "png")
      then png
      else if contains t (codes "webp")
      then webp
      else if contains t (codes "jxr")
      then jxr
      else jpg

  -- The three tests at the end of the loop, each of which may overwrite the one before.
  last_ext : Bytes → ImageExt
  last_ext t =
      if contains t (codes "png")
      then png
      else if contains t (codes "jpeg")
      then jpg
      else if contains t (codes "jpg")
      then jpg
      else jpg

  node : Bytes → Float → ImageExt → Outcome ImageNode
  node t q e = ok (record { type = t; q = q; extension = e })

  -- The node of one type with its first two tokens, where all fields are in the block.
  parse_tokens : Bytes → Option (Bytes × Option Bytes) → Outcome ImageNode
  unfolding plain_ext last_ext node
  parse_tokens t none =
      if contains t (codes "image/")
      then (if same t (codes "image/*") then node t one all_ext else node t one (plain_ext t))
      else if contains t (codes "*/*")
      then node t nought all_ext
      else node t nought (last_ext t)
  parse_tokens t (some t2) =
      if contains t (codes "*/*")
      then (quality t2 >>= λ r. node t (if is_nought r.0 then eight_tenths else r.0) all_ext)
      else (quality t2 >>= λ r. node t (if r.1 then eight_tenths else r.0) (last_ext t))

  second : Option Bytes → Option (Bytes × Option Bytes)
  unfolding strtok cut skip
  second none = none
  second (some rest) = strtok b';' rest

  -- A type of separators only has no token, and strstr of a null pointer is undefined.
  parse_type : Bytes → Outcome ImageNode
  unfolding second parse_tokens
  parse_type type = elim (strtok b';' type) [
    | none ↦ fault
    | some (t, rest) ↦ parse_tokens t (second rest)
  ]

  -- The second loop, from node `i` on, in a block of `size` bytes.
  parse_all : ℕ → ℕ → List Bytes → Outcome (List ImageNode)
  unfolding touch
  parse_all size i [] = ok []
  parse_all size i (type ∷ types) =
      touch size i 8
      >> (parse_type type >>= λ n.
          touch size i 16 >> (parse_all size (i + 1) types >>= λ r. ok (n ∷ r)))

  -- free(token1): the pointer of the last type's first token, which is the start of its block only
  -- if the type does not begin with a separator.
  free_last : List Bytes → Outcome (Unit {0})
  free_last [] = ok tt
  free_last ([] ∷ []) = ok tt
  free_last ((c ∷ t) ∷ []) = if c == b';' then fault else ok tt
  free_last (t ∷ u ∷ types) = free_last (u ∷ types)

  -- realloc to no bytes returns a null pointer in glibc, and the process ends.
  unfoldable pub get_list_accept_image : Bytes → Outcome (List ImageNode)
  unfolding collect parse_all block_size touch parse_type second parse_tokens quality plain_ext
      last_ext node strtok cut skip free_last
  get_list_accept_image accept_line = do
    types ← collect (tokens [] accept_line) 0
    nodes ← parse_all (block_size (length types)) 0 types
    if length types == 0 then exit else (free_last types >> ok nodes)

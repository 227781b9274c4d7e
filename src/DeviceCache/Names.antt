-- ===== src/DeviceCache/Names.antt =====
-- The name under which an image is cached, for a request whose media types have no parameters.
use image_app.Common.{
  ℕ, ◌≡◌, ◌≤◌, some, List, [], ◌∷◌, ◌++◌, append_assoc, Bytes, map, ok, All-append, Lacks, length,
  pos_part, arith, ◌≢◌,
}
use image_app.CString.{cstr}
use image_app.Request.Accept.{Quality}
use image_app.Request.Accept.Sizes.{plain_node}
use image_app.Request.Parse.{Request}
use image_app.Strings.Decimal.Fill.{decimal, decimal-Spells, digit-Lacks}
use image_app.Strings.CacheName.{Floats, convert_float_to_string}
use image_app.Strings.CacheName.Shape.{build_image_name_cache_lem}
use image_app.DeviceCache.{Display, head_quality, string_of, set_display}

-- The name: that of the image, the text of the quality, and the numerals of the display.
abbrev pub name_for : Bytes → Bytes → Display → Bytes
name_for name q d =
    name
    ++ (q
        ++ (decimal (pos_part d.width)
            ++ (decimal (pos_part d.height) ++ decimal (pos_part d.colors))))

decimal-Lacks : (v : ℕ) → Lacks 0 (decimal v)
decimal-Lacks v = digit-Lacks (decimal v) (decimal-Spells v).digits

pub name_for-Lacks :
    (name q : Bytes) (d : Display) → Lacks 0 name → Lacks 0 q → Lacks 0 (name_for name q d)
name_for-Lacks name q d clean clean_q = both name _ clean (
    both q _ clean_q (
      both (decimal (pos_part d.width)) _ (decimal-Lacks _)
        (both (decimal (pos_part d.height)) _ (decimal-Lacks _) (decimal-Lacks _))))
  where
    both : (s t : Bytes) → Lacks 0 s → Lacks 0 t → Lacks 0 (s ++ t)
    both = All-append (λ c. c ≢ 0)

module _ (Q : Quality) (F : Floats) (as_float : Q.Float → F.Float) where
  pub set_display-plain :
      (r : Request Q) (d : Display) (name : Bytes) (types : List Bytes) {b q : Bytes}
      → r.image_name ≡ some name
      → r.image_list ≡ some (map (plain_node Q) types)
      → 1 ≤ length types
      → convert_float_to_string F (as_float Q.one) ≡ ok b
      → cstr b ≡ ok q
      → set_display Q F as_float r d
        ≡ ok (record r {
          colors = d.colors;
          width = d.width;
          height = d.height;
          cache_name = some (name_for name q d ++ 0 ∷ []);
        })
  unfolding set_display head_quality string_of plain_node
  set_display-plain r d name [] named listed some_type eb eq = absurd (omega arith)
  set_display-plain r d name (t ∷ ts) {b} {q} named listed some_type eb eq =
      rw
        (
          named,
          listed,
          build_image_name_cache_lem F name (as_float Q.one) d.width d.height d.colors eb eq,
        )
        (simp append_assoc)

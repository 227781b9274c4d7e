-- ===== src/Common/Split.antt =====
-- The text before the first occurrence of a byte, and what that view determines.
use Prim.Native.Nat.{ℕ}
use mathlib.Core.Path.{◌≡◌, refl}
use mathlib.Core.Bool.{Bool, false, ◌||◌}
use mathlib.Core.List.{[], ◌∷◌, ◌++◌}
use native.Mathlib.Omega.{arith}
use image_app.Common.Tests.{◌==◌, if◌then◌else◌}
use image_app.Common.Lists.{Bytes, Lacks}

-- The bytes before the first `b`: all of them if there is none.
abbrev pub before : ℕ → Bytes → Bytes
before b [] = []
before b (c ∷ s) = if c == b then [] else c ∷ before b s

-- The bytes after the first `b`.
abbrev pub after : ℕ → Bytes → Bytes
after b [] = []
after b (c ∷ s) = if c == b then s else after b s

pub before-append : (b : ℕ) (x y : Bytes) → Lacks b x → before b (x ++ b ∷ y) ≡ x
before-append b [] y h = ground arith
before-append b (c ∷ x) y h = ground (arith, before-append b x y h.1)

pub after-append : (b : ℕ) (x y : Bytes) → Lacks b x → after b (x ++ b ∷ y) ≡ y
after-append b [] y h = ground arith
after-append b (c ∷ x) y h = ground (arith, after-append b x y h.1)

-- Whether a byte occurs.
abbrev pub occurs : ℕ → Bytes → Bool
occurs b [] = false
occurs b (c ∷ s) = (c == b) || occurs b s

pub occurs-Lacks : (b : ℕ) (s : Bytes) → Lacks b s → occurs b s ≡ false
occurs-Lacks b [] h = refl
occurs-Lacks b (c ∷ s) h = ground (arith, occurs-Lacks b s h.1)

pub before-Lacks : (b : ℕ) (s : Bytes) → Lacks b s → before b s ≡ s
before-Lacks b [] h = refl
before-Lacks b (c ∷ s) h = ground (arith, before-Lacks b s h.1)

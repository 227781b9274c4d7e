-- ===== src/Transfer/Ends.antt =====
-- What holds of the value of a run, if it returns.
use image_app.Common.{
  ◌≡◌, refl, Bool, true, false, List, Bytes, Outcome, ok, exit, fault, if◌then◌else◌,
}
use image_app.Transfer.{Answer, Run, done, waiting, exited, broken, emit, then_run, run}

module _ {ℓ} {A : Type 0} (P : A → Type ℓ) where
  abbrev pub Ends : Run A → Type ℓ
  Ends (done a s rest) = P a
  Ends (waiting s) = Unit
  Ends exited = Unit
  Ends broken = Unit

  Ends-emit : (s : Bytes) (m : Run A) → Ends m → Ends (emit s m)
  Ends-emit s (done a s' rest) h = h
  Ends-emit s (waiting s') h = tt
  Ends-emit s exited h = tt
  Ends-emit s broken h = tt

  pub Ends-then_run :
      {B : Type 0} (m : Run B) (f : B → List Answer → Run A)
      → ((b : B) (rest : List Answer) → Ends (f b rest))
      → Ends (then_run m f)
  Ends-then_run (done b s rest) f h = Ends-emit s (f b rest) (h b rest)
  Ends-then_run (waiting s) f h = tt
  Ends-then_run exited f h = tt
  Ends-then_run broken f h = tt

  pub Ends-run :
      {B : Type 0} (m : Outcome B) (f : B → Run A)
      → ((b : B) → m ≡ ok b → Ends (f b))
      → Ends (run m f)
  Ends-run (ok b) f h = h b refl
  Ends-run exit f h = tt
  Ends-run fault f h = tt

  pub Ends-if :
      (b : Bool) (x y : Run A)
      → (b ≡ true → Ends x)
      → (b ≡ false → Ends y)
      → Ends (if b then x else y)
  Ends-if true x y h k = h refl
  Ends-if false x y h k = k refl

  pub Ends-done :
      (m : Run A) {a : A} {s : Bytes} {rest : List Answer} → Ends m → m ≡ done a s rest → P a
  Ends-done m h e = rw e at h

pub Ends-map {ℓ κ} :
    {A : Type 0} {P : A → Type ℓ} {R : A → Type κ}
    → ((a : A) → P a → R a)
    → (m : Run A) → Ends P m
    → Ends R m
Ends-map f (done a s rest) h = f a h
Ends-map f (waiting s) h = tt
Ends-map f exited h = tt
Ends-map f broken h = tt

-- A run and what follows it.
pub Ends-bind {ℓ κ} :
    {A B : Type 0} (P : A → Type ℓ) (R : B → Type κ) (m : Run A) (f : A → List Answer → Run B)
    → Ends P m
    → ((a : A) (rest : List Answer) → P a → Ends R (f a rest))
    → Ends R (then_run m f)
Ends-bind P R (done a s rest) f p h = Ends-emit R s (f a rest) (h a rest p)
Ends-bind P R (waiting s) f p h = tt
Ends-bind P R exited f p h = tt
Ends-bind P R broken f p h = tt

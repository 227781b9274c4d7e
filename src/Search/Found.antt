-- ===== src/Search/Found.antt =====
-- What `get_E` has found.
use image_app.Common.{ℕ, ◌≡◌, ◌∙◌, false, some, get_elem?, get_elem?-set_ne, arith}
use image_app.Search.{
  SearchPc, testing, found, full_waiting, Search, not_full, Move, see_free, give_back, closer_get,
  closer_signal, closer_release, Leads, here, then_move, wake_spuriously,
}

-- A slot that `get_E` has found is free.
abbrev FoundFree : Search → Type 0
FoundFree s = (nE : ℕ) → s.pc ≡ found nE → get_elem? s.used nE ≡ some false

not_full-found : (pc : SearchPc) (nE : ℕ) → not_full pc ≡ found nE → pc ≡ found nE
not_full-found full_waiting nE e = absurd (cc)
not_full-found pc nE e = e

Move-FoundFree : {s t : Search} → Move s t → FoundFree s → FoundFree t
Move-FoundFree {s} (see_free i at below is_free) f nE e = ground (arith, is_free)
Move-FoundFree {s} (give_back j was_used) f nE e =
    get_elem?-set_ne s.used j nE false (λ same. ground (arith, f nE e)) ∙ f nE e
Move-FoundFree {s} (closer_signal k) f nE e = f nE (not_full-found s.pc nE e)
Move-FoundFree (closer_get n more k) f nE e = f nE e
Move-FoundFree (closer_release k) f nE e = f nE e
Move-FoundFree m f nE e = absurd (cc)

Leads-FoundFree : {s t : Search} → FoundFree s → Leads s t → FoundFree t
Leads-FoundFree f here = f
Leads-FoundFree f (then_move r m) = Move-FoundFree m (Leads-FoundFree f r)
Leads-FoundFree f (wake_spuriously r e) = λ nE there. absurd (cc (there))

-- From the start of a search on, whatever slots the threads give back: a slot that `get_E` has
-- found is a slot of the pool and still free when it is filled.
pub found_lem :
    {s t : Search} (nE : ℕ)
    → s.pc ≡ testing 0
    → Leads s t
    → t.pc ≡ found nE
    → get_elem? t.used nE ≡ some false
found_lem nE at_start r e = Leads-FoundFree (λ k f. absurd (cc)) r nE e

-- ===== src/Search/Deadlock.antt =====
-- A search that waits although every slot is free.
use native.Mathlib.Nat.{mod-lt}
use image_app.Common.{
  ℕ, zero, suc, ◌+◌, ◌<◌, ◌≡◌, refl, ap, sym, subst, Bool, true, false, some, List, [], ◌∷◌, ◌++◌,
  append_assoc, get_elem?, set, replicate, length, length-replicate, arith,
}
use image_app.Search.{
  no_keeper, SearchPc, testing, none_free, full_waiting, Search, Move, see_used, see_free, see_all,
  search_get, search_wait, search_wake, search_again, fill, give_back, closer_get, closer_signal,
  closer_release, Leads, here, then_move, wake_spuriously,
}

get_elem?-replicate : (n i : ℕ) (b : Bool) → i < n → get_elem? (replicate n b) i ≡ some b
get_elem?-replicate zero i b h = absurd (omega arith)
get_elem?-replicate (suc n) zero b h = refl
get_elem?-replicate (suc n) (suc i) b h = get_elem?-replicate n i b (omega arith)

get_elem?-middle : (xs ys : List Bool) (b : Bool) → get_elem? (xs ++ b ∷ ys) (length xs) ≡ some b
get_elem?-middle [] ys b = refl
get_elem?-middle (x ∷ xs) ys b = get_elem?-middle xs ys b

set-middle : (xs ys : List Bool) (b c : Bool) → set (xs ++ b ∷ ys) (length xs) c ≡ xs ++ c ∷ ys
set-middle [] ys b c = refl
set-middle (x ∷ xs) ys b c = ap (◌∷◌ x) (set-middle xs ys b c)

-- The pool, while no thread is between its write of `used` and its signal.
abbrev pub search : ℕ → List Bool → SearchPc → Search
search end used pc = record { end = end; used = used; keeper = no_keeper; pc = pc; closers = 0 }

chain : {s t u : Search} → Leads s t → Leads t u → Leads s u
chain r here = r
chain r (then_move l m) = then_move (chain r l) m
chain r (wake_spuriously l e) = wake_spuriously (chain r l) e

-- A search of a pool whose slots are all in use goes past every one of them.
passes :
    (end n i left : ℕ)
    → 0 < n
    → i + left ≡ n
    → Leads (search end (replicate n true) (testing i)) (search end (replicate n true) none_free)
passes end n i zero h e = then_move here (see_all i refl (omega (arith, length-replicate n true)))
passes end n i (suc left) h e =
    chain
      (then_move here (
        see_used i refl (omega (arith, size))
          (get_elem?-replicate n _ true (rw size (mod-lt (end + i) h)))))
      (passes end n (suc i) left h (omega arith))
  where
    size : length (replicate n true) ≡ n
    size = length-replicate n true

-- A thread gives a slot back, and its signal is lost.
slot_back :
    (end : ℕ) (xs ys : List Bool)
    → Leads (search end (xs ++ true ∷ ys) none_free) (search end (xs ++ false ∷ ys) none_free)
slot_back end xs ys =
    subst (λ used. Leads (search end (xs ++ true ∷ ys) none_free) (search end used none_free))
      (set-middle xs ys true false)
      (then_move
        (then_move
          (then_move (then_move here (give_back (length xs) (get_elem?-middle xs ys true)))
            (closer_get 0 refl refl))
          (closer_signal refl))
        (closer_release refl))

-- All threads give their slots back.
all_back :
    (end : ℕ) (xs : List Bool) (n : ℕ)
    → Leads
        (search end (xs ++ replicate n true) none_free)
        (search end (xs ++ replicate n false) none_free)
all_back end xs zero = here
all_back end xs (suc n) = chain (slot_back end xs (replicate n true)) (
    rw
      (
        sym (append_assoc xs (false ∷ []) (replicate n true)),
        sym (append_assoc xs (false ∷ []) (replicate n false)),
      )
      (all_back end (xs ++ false ∷ []) n))

-- Nothing moves a search that waits while no slot is in use and no signal is to come.
no_move : (end n : ℕ) {t : Search} → Move (search end (replicate n false) full_waiting) t → ⊥
no_move end n (give_back j was_used) = not_used n j was_used
  where
    not_used : (n j : ℕ) → get_elem? (replicate n false) j ≡ some true → ⊥
    not_used zero j e = cc
    not_used (suc n) zero e = cc
    not_used (suc n) (suc j) e = not_used n j e
no_move end n (see_used i e at below) = cc
no_move end n (see_free i e at below) = cc
no_move end n (see_all i e at) = cc
no_move end n (search_get e k) = cc
no_move end n (search_wait e) = cc
no_move end n (search_wake e k) = cc
no_move end n (search_again e) = cc
no_move end n (fill nE e) = cc
no_move end n (closer_get k more e) = cc
no_move end n (closer_signal e) = cc
no_move end n (closer_release e) = cc

-- In a pool whose slots are all in use, a search can end in a deadlock: every slot is free, `get_E`
-- waits, and neither it nor a thread of the pool has a move: only a wait that comes back without a
-- signal leads out of it.
pub search_deadlocks :
    (end n : ℕ)
    → 0 < n
    → Leads
        (search end (replicate n true) (testing 0))
        (search end (replicate n false) full_waiting)
      × ((t : Search) → Move (search end (replicate n false) full_waiting) t → ⊥)
search_deadlocks end n h = (
  then_move
      (then_move (chain (passes end n 0 n h (omega arith)) (all_back end [] n))
        (search_get refl refl))
      (search_wait refl),
  λ t m. no_move end n m,
)

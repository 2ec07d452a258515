-- ===== src/Prelude/Ascending.antt =====
-- A set of numbers as a list without repeats, and its items in ascending order.
use Prim.Native.Nat.{ℕ, ◌<◌}
use mathlib.Core.Path.{◌≡◌, refl}
use mathlib.Core.Bool.{Bool, true, false, ◌||◌}
use mathlib.Core.Logic.{inl, inr}
use mathlib.Core.List.{List, [], ◌∷◌}
use native.Mathlib.Omega.{arith}
use ccs2_plus.Prelude.Tests.{ltb, eqb, eqb_iff, if◌then◌else◌, Bool-cases}
use ccs2_plus.Prelude.Lists.{All, All-map}

abbrev pub contains : ℕ → List ℕ → Bool
contains a [] = false
contains a (x ∷ xs) = eqb x a || contains a xs

-- `if _, ok := seen[key]; !ok { seen[key] = … }`.
unfoldable pub note : ℕ → List ℕ → List ℕ
note a xs = if contains a xs then xs else a ∷ xs

unfoldable pub place_number : ℕ → List ℕ → List ℕ
place_number a [] = a ∷ []
place_number a (x ∷ xs) = let rest = place_number a xs in if ltb x a then x ∷ rest else a ∷ x ∷ xs

-- `sort.Strings` of keys that have the order of their numbers.
unfoldable pub ascending : List ℕ → List ℕ
ascending [] = []
ascending (x ∷ xs) = place_number x (ascending xs)

abbrev pub IsDistinct : List ℕ → Type 0
IsDistinct [] = Unit
IsDistinct (x ∷ xs) = (contains x xs ≡ false) × IsDistinct xs

abbrev pub IsAscending : List ℕ → Type 0
IsAscending [] = Unit
IsAscending (x ∷ xs) = All (λ y. x < y) xs × IsAscending xs

pub note-IsDistinct : (a : ℕ) (xs : List ℕ) → IsDistinct xs → IsDistinct (note a xs)
unfolding note
note-IsDistinct a xs d = by_test (contains a xs) refl
  where
    by_test : (b : Bool) → contains a xs ≡ b → IsDistinct (if b then xs else a ∷ xs)
    by_test true e = d
    by_test false e = (e, d)

pub contains-note : (a k : ℕ) (xs : List ℕ) → contains a (note k xs) ≡ (eqb k a || contains a xs)
unfolding note
contains-note a k xs = elim (Bool-cases (eqb k a)) [
  | inl e ↦ ground (arith, eqb_iff k a)
  | inr e ↦ ground (arith, eqb_iff k a)
]

pub contains-place_number :
    (a k : ℕ) (xs : List ℕ) → contains a (place_number k xs) ≡ (eqb k a || contains a xs)
unfolding place_number
contains-place_number a k [] = refl
contains-place_number a k (x ∷ xs) = ground (arith, contains-place_number a k xs)

pub contains-ascending : (a : ℕ) (xs : List ℕ) → contains a (ascending xs) ≡ contains a xs
unfolding ascending
contains-ascending a [] = refl
contains-ascending a (x ∷ xs) =
    rw (contains-place_number a x (ascending xs), contains-ascending a xs) refl

All-place_number :
    (P : ℕ → Type 0) (a : ℕ) (xs : List ℕ) → P a → All P xs → All P (place_number a xs)
unfolding place_number
All-place_number P a [] p h = (p, tt)
All-place_number P a (x ∷ xs) p h = by_test (ltb x a) (All-place_number P a xs p h.1)
  where
    by_test :
        (b : Bool)
        → All P (place_number a xs)
        → All P (if b then x ∷ place_number a xs else a ∷ x ∷ xs)
    by_test true rest = (h.0, rest)
    by_test false rest = (p, h)

place_number-IsAscending :
    (a : ℕ) (xs : List ℕ) → contains a xs ≡ false → IsAscending xs → IsAscending (place_number a xs)
unfolding place_number
place_number-IsAscending a [] n h = (tt, tt)
place_number-IsAscending a (x ∷ xs) n h =
    by_test (ltb x a) refl (place_number-IsAscending a xs (ground arith) h.1)
  where
    by_test :
        (b : Bool)
        → ltb x a ≡ b
        → IsAscending (place_number a xs)
        → IsAscending (if b then x ∷ place_number a xs else a ∷ x ∷ xs)
    by_test true e rest = (All-place_number (λ y. x < y) a xs (ground arith) h.0, rest)
    by_test false e rest =
        let first : a < x = ground (arith, eqb_iff x a) in
        ((first, All-map (λ y. x < y) (λ y. a < y) xs (λ y. λ lt. omega arith) h.0), h)

-- The items of a list without repeats come out in strictly ascending order.
pub ascending-IsAscending : (xs : List ℕ) → IsDistinct xs → IsAscending (ascending xs)
unfolding ascending
ascending-IsAscending [] d = tt
ascending-IsAscending (x ∷ xs) d =
    place_number-IsAscending x (ascending xs) (rw (contains-ascending x xs) d.0)
      (ascending-IsAscending xs d.1)

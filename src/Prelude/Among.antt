-- ===== src/Prelude/Among.antt =====
-- A list whose items stand in another list in the same order.
use mathlib.Core.Path.{◌≡◌, refl, sym, ap, subst}
use mathlib.Core.List.{List, [], ◌∷◌, ◌++◌}
use native.Mathlib.Omega.{arith}

-- The items of the first list stand in the second in the same order.
pub data Among {A : Type 0} : List A → List A → Type 0 where
  done : {ys : List A} → Among [] ys
  both : {x : A} {xs ys : List A} → Among xs ys → Among (x ∷ xs) (x ∷ ys)
  skip : {y : A} {xs ys : List A} → Among xs ys → Among xs (y ∷ ys)

pub Among-more : {A : Type 0} {xs ys : List A} (y : A) → Among xs ys → Among xs (ys ++ y ∷ [])
Among-more y done = done
Among-more y (both a) = both (Among-more y a)
Among-more y (skip a) = skip (Among-more y a)

pub Among-end : {A : Type 0} (ys : List A) (y : A) → Among (y ∷ []) (ys ++ y ∷ [])
Among-end [] y = both done
Among-end (x ∷ ys) y = skip (Among-end ys y)

pub Among-both :
    {A : Type 0} {xs ys : List A} (y : A) → Among xs ys → Among (xs ++ y ∷ []) (ys ++ y ∷ [])
Among-both {ys} y done = Among-end ys y
Among-both y (both a) = both (Among-both y a)
Among-both y (skip a) = skip (Among-both y a)

pub Among-part :
    {A : Type 0} {zs ys : List A} → Among zs ys → (xs rest : List A) → zs ≡ xs ++ rest → Among xs ys
Among-part a [] rest e = done
Among-part done (x ∷ xs) rest e = cc
Among-part (both {x = z} {xs = zs} {ys = ys} a) (x ∷ xs) rest e =
    let head : z ≡ x = ground arith in
    let tail : zs ≡ xs ++ rest = ground arith in
    subst (λ w. Among (x ∷ xs) (w ∷ ys)) (sym head) (both (Among-part a xs rest tail))
Among-part (skip a) (x ∷ xs) rest e = skip (Among-part a (x ∷ xs) rest e)

pub Among-cut : {A : Type 0} (xs rest : List A) {ys : List A} → Among (xs ++ rest) ys → Among xs ys
Among-cut xs rest a = Among-part a xs rest refl

pub append_assoc : {A : Type 0} (xs ys zs : List A) → xs ++ (ys ++ zs) ≡ (xs ++ ys) ++ zs
append_assoc [] ys zs = refl
append_assoc (x ∷ xs) ys zs = ap (λ l. x ∷ l) (append_assoc xs ys zs)

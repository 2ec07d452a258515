-- ===== src/Prelude/Table.antt =====
-- A Go map with string keys as an association list: `lookup` reads the first entry of a key, and
-- `insert` writes over it or adds the entry at the end.
use Prim.Native.String.{String}
use mathlib.Core.Path.{◌≡◌, refl}
use mathlib.Core.List.{List, [], ◌∷◌}
use mathlib.Core.Option.{Option, none, some}
use native.Mathlib.Omega.{arith}
use text.Mathlib.Text.{◌==◌}
use text.Mathlib.TextEquality.{eq_iff}
use mathlib.Core.Bool.{Bool, true, false}
use mathlib.Core.Logic.{inl, inr}
use mathlib.Core.Path.{subst}
use ccs2_plus.Prelude.Lists.{All}
use ccs2_plus.Prelude.Tests.{if◌then◌else◌, Bool-cases}

abbrev pub Table {ℓ} : Type ℓ → Type ℓ
Table V = List (String × V)

module _ {ℓ} {V : Type ℓ} where
  -- `v, ok := m[key]`.
  unfoldable pub lookup : String → Table V → Option V
  lookup key [] = none
  lookup key ((name, here) ∷ rest) =
      let below = lookup key rest in if name == key then some here else below

  -- `m[key] = value`.
  unfoldable pub insert : String → V → Table V → Table V
  insert key value [] = (key, value) ∷ []
  insert key value ((name, here) ∷ rest) =
      let below = insert key value rest in
      if name == key then (key, value) ∷ rest else (name, here) ∷ below

  pub lookup-insert :
      (key other : String) (value : V) (table : Table V)
      → lookup other (insert key value table)
        ≡ (if key == other then some value else lookup other table)
  unfolding lookup insert
  lookup-insert key other value [] = refl
  lookup-insert key other value ((name, here) ∷ rest) = ground (
    arith,
    lookup-insert key other value rest,
    eq_iff name key,
    eq_iff name other,
    eq_iff key other,
  )

  All-if {κ} :
      (P : String × V → Type κ) (b : Bool) (k : String) (v : V) (j : String) (w : V) (m n : Table V)
      → P (j, w) × All P m
      → P (k, v)
      → All P n
      → All P (if b then (k, v) ∷ m else (j, w) ∷ n)
  All-if P true k v j w m n h p q = (p, h.1)
  All-if P false k v j w m n h p q = (h.0, q)

  -- What holds of every entry is kept by an entry for which it holds, and holds of what is found.
  pub All-insert {κ} :
      (P : String × V → Type κ) (k : String) (v : V) (m : Table V)
      → All P m
      → P (k, v)
      → All P (insert k v m)
  unfolding insert
  All-insert P k v [] h p = (p, tt)
  All-insert P k v ((j, w) ∷ m) h p =
      All-if P (j == k) k v j w m (insert k v m) h p (All-insert P k v m h.1 p)

  pub All-lookup {κ} :
      (P : String × V → Type κ) (k : String) (v : V) (m : Table V)
      → All P m
      → lookup k m ≡ some v
      → P (k, v)
  unfolding lookup
  All-lookup P k v [] h e = cc
  All-lookup P k v ((j, w) ∷ m) h e = elim (Bool-cases (j == k)) [
    | inl same ↦
        let here : ◌≡◌ {A = String × V} (j, w) (k, v) = ground (arith, eq_iff j k) in
        subst P here h.0
    | inr other ↦ All-lookup P k v m h.1 (ground arith)
  ]

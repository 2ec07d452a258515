-- ===== src/Prelude/Text.antt =====
-- What the program uses of Go's `fmt` and `strings` on texts: decimal and hexadecimal printing,
-- and the test that a text is empty once `strings.TrimSpace` has cut it.
use Prim.Native.Nat.{ℕ, zero, suc, ◌/◌, ◌%◌}
use Prim.Native.Char.{code}
use Prim.Native.String.{String, ◌++◌ as append}
use mathlib.Core.Bool.{Bool, true, ◌&&◌, ◌||◌}
use mathlib.Core.List.{List, [], ◌∷◌}
use text.Mathlib.Text.{◌==◌}
use ccs2_plus.Prelude.Tests.{ltb, leb, eqb, if◌then◌else◌}

-- One digit of a base up to 16, in upper case.
abbrev digit : ℕ → String
digit n =
    if eqb n 0
    then "0"
    else if eqb n 1
    then "1"
    else if eqb n 2
    then "2"
    else if eqb n 3
    then "3"
    else if eqb n 4
    then "4"
    else if eqb n 5
    then "5"
    else if eqb n 6
    then "6"
    else if eqb n 7
    then "7"
    else if eqb n 8
    then "8"
    else if eqb n 9
    then "9"
    else if eqb n 10
    then "A"
    else if eqb n 11
    then "B"
    else if eqb n 12
    then "C"
    else if eqb n 13
    then "D"
    else if eqb n 14
    then "E"
    else "F"

-- A number has no more decimal digits than it has units, plus one for 0.
decimal_from : ℕ → ℕ → String
decimal_from zero n = digit n
decimal_from (suc fuel) n =
    let rest = append (decimal_from fuel (n / 10)) (digit (n % 10)) in
    if ltb n 10 then digit n else rest

-- `%d` of a number that is not negative, below 10 ^ 41.
unfoldable pub decimal : ℕ → String
unfolding decimal_from
decimal n = decimal_from 40 n

-- `% X` of a slice of bytes: two hexadecimal digits for each, with a space between.
unfoldable pub hex_bytes : List ℕ → String
hex_bytes [] = ""
hex_bytes (b ∷ []) = append (digit (b / 16)) (digit (b % 16))
hex_bytes (b ∷ c ∷ bs) =
    append (append (digit (b / 16)) (digit (b % 16))) (append " " (hex_bytes (c ∷ bs)))

-- `unicode.IsSpace`.
is_space : ℕ → Bool
is_space c =
    (leb 9 c && leb c 13)
    || eqb c 0x20
    || eqb c 0x85
    || eqb c 0xa0
    || eqb c 0x1680
    || (leb 0x2000 c && leb c 0x200a)
    || eqb c 0x2028
    || eqb c 0x2029
    || eqb c 0x202f
    || eqb c 0x205f
    || eqb c 0x3000

-- `strings.TrimSpace(s) == ""`: every character is a space.
unfoldable pub is_blank : String → Bool
unfolding is_space
is_blank String.[] = true
is_blank (String.◌∷◌ c s) = is_space (code c) && is_blank s

-- `TRIM` of SQL: the spaces at both ends go.
trim_left : String → String
trim_left String.[] = ""
trim_left (String.◌∷◌ c s) =
    let rest = trim_left s in if eqb (code c) 0x20 then rest else String.◌∷◌ c s

trim_right : String → String
trim_right String.[] = ""
trim_right (String.◌∷◌ c s) =
    let rest = trim_right s in if eqb (code c) 0x20 && rest == "" then "" else String.◌∷◌ c rest

unfoldable pub trim : String → String
unfolding trim_left trim_right
trim s = trim_right (trim_left s)

-- `strings.TrimSpace`.
trim_left_space : String → String
trim_left_space String.[] = ""
trim_left_space (String.◌∷◌ c s) =
    let rest = trim_left_space s in if is_space (code c) then rest else String.◌∷◌ c s

trim_right_space : String → String
trim_right_space String.[] = ""
trim_right_space (String.◌∷◌ c s) =
    let rest = trim_right_space s in
    if is_space (code c) && rest == "" then "" else String.◌∷◌ c rest

unfoldable pub trim_space : String → String
unfolding is_space trim_left_space trim_right_space
trim_space s = trim_right_space (trim_left_space s)

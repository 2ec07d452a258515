-- ===== src/Web/Paths.antt =====
-- The functions on paths that the routes of go-backend/internal/httpapi/server.go use, from `strings`.
use Prim.Native.Char.{code}
use Prim.Native.String.{String, ◌++◌ as append}
use ccs2_plus.Prelude.{
  ℕ, ◌&&◌, Option, none, some, List, [], ◌∷◌, eqb, ◌==◌, if◌then◌else◌, Bool, true, false,
}

abbrev pub slash : ℕ
slash = 0x2f

-- What stands behind a prefix, if the text has it.
unfoldable pub behind : String → String → Option String
behind String.[] s = some s
behind (String.◌∷◌ c prefix) String.[] = none
behind (String.◌∷◌ c prefix) (String.◌∷◌ d s) =
    let rest = behind prefix s in if eqb (code c) (code d) then rest else none

abbrev pub or_all : String → Option String → String
or_all s none = s
or_all s (some rest) = rest

-- `strings.TrimPrefix`.
unfoldable pub trim_prefix : String → String → String
trim_prefix s prefix = or_all s (behind prefix s)

-- `strings.Trim(s, "/")`.
unfoldable pub trim_left_slash : String → String
trim_left_slash String.[] = ""
trim_left_slash (String.◌∷◌ c s) =
    let rest = trim_left_slash s in if eqb (code c) slash then rest else String.◌∷◌ c s

unfoldable pub trim_right_slash : String → String
trim_right_slash String.[] = ""
trim_right_slash (String.◌∷◌ c s) =
    let rest = trim_right_slash s in
    if eqb (code c) slash && rest == "" then "" else String.◌∷◌ c rest

unfoldable pub trim_slashes : String → String
trim_slashes s = trim_right_slash (trim_left_slash s)

abbrev pub before_first : String → List String → List String
before_first c [] = c ∷ []
before_first c (part ∷ parts) = append c part ∷ parts

-- `strings.Split(s, "/")`.
unfoldable pub split_slash : String → List String
split_slash String.[] = "" ∷ []
split_slash (String.◌∷◌ c s) =
    let rest = split_slash s in
    if eqb (code c) slash then "" ∷ rest else before_first (String.◌∷◌ c "") rest

-- Whether the text starts with a prefix.
abbrev pub is_some : Option String → Bool
is_some none = false
is_some (some s) = true

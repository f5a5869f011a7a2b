-- ===== src/Tools/Paths.antt =====
-- The parts of `str` and `pathlib` that src/evoci/tools rests on: `strip`, `lower`, the components
-- of a POSIX path, and lexical resolution against a root. Symbolic links are not modelled.
pub mod Split
use Prim.Native.Char.{Char, code}
use mathlib.Core.List.{reverse}
use evo_ci.Prelude.{
  ℕ, ◌+◌, String, Option, none, some, List, [], ◌∷◌, ◌++◌, Bool, true, false, not, ◌&&◌, ◌||◌, ◌==◌,
  leb, eqb, if◌then◌else◌, keep, Outcome, ok, raise, policy_violation, any, map, ◌⧺◌,
}

abbrev pub codes : String → List ℕ
codes String.[] = []
codes (String.◌∷◌ c s) = code c ∷ codes s

-- `str.isspace` of one character
abbrev pub is_space : ℕ → Bool
is_space c =
    (leb 9 c && leb c 13)
    || (leb 28 c && leb c 32)
    || eqb c 133
    || eqb c 160
    || eqb c 5760
    || (leb 8192 c && leb c 8202)
    || eqb c 8232
    || eqb c 8233
    || eqb c 8239
    || eqb c 8287
    || eqb c 12288

pub lstrip : String → String
lstrip String.[] = String.[]
lstrip (String.◌∷◌ c s) = let rest = lstrip s in if is_space (code c) then rest else String.◌∷◌ c s

pub rstrip : String → String
rstrip String.[] = String.[]
rstrip (String.◌∷◌ c s) =
    let rest = rstrip s in if is_space (code c) && rest == "" then "" else String.◌∷◌ c rest

unfoldable pub strip : String → String
unfolding lstrip rstrip
strip s = rstrip (lstrip s)

-- `str.lower` as far as its result can hold ASCII letters: A to Z, and the Kelvin sign.
abbrev pub lower_code : ℕ → ℕ
lower_code c = if leb 65 c && leb c 90 then c + 32 else if eqb c 8490 then 107 else c

abbrev pub lower : String → List ℕ
lower s = map lower_code (codes s)

abbrev pub begins : List ℕ → List ℕ → Bool
begins [] s = true
begins (t ∷ ts) [] = false
begins (t ∷ ts) (c ∷ s) = eqb t c && begins ts s

-- `token in s`
abbrev pub occurs : List ℕ → List ℕ → Bool
occurs t [] = begins t []
occurs t (c ∷ s) = begins t (c ∷ s) || occurs t s

abbrev pub is_slash : Char → Bool
is_slash c = eqb (code c) b'/'

abbrev pub attach : Char → List String → List String
attach c [] = String.◌∷◌ c "" ∷ []
attach c (w ∷ ws) = String.◌∷◌ c w ∷ ws

-- `s.split("/")`
unfoldable pub split : String → List String
split String.[] = "" ∷ []
split (String.◌∷◌ c s) = let rest = split s in if is_slash c then "" ∷ rest else attach c rest

abbrev pub is_component : String → Bool
is_component p = not (p == "" || p == ".")

-- `PurePosixPath(s).parts`, without the root
unfoldable pub parts : String → List String
parts s = keep is_component (split s)

abbrev pub is_absolute : String → Bool
is_absolute String.[] = false
is_absolute (String.◌∷◌ c s) = is_slash c

-- `str(PurePosixPath(*parts))` of one component or more
unfoldable pub join : List String → String
join [] = "."
join (p ∷ []) = p
join (p ∷ q ∷ ps) = p ⧺ "/" ⧺ join (q ∷ ps)

-- `Path.resolve` without symbolic links; `stack` holds the components so far, the last one first.
abbrev pub pop : List String → List String
pop [] = []
pop (p ∷ ps) = ps

unfoldable pub collapse : List String → List String → List String
collapse stack [] = stack
collapse stack (p ∷ ps) = collapse (if p == ".." then pop stack else p ∷ stack) ps

-- The components of `path` below `root`, where it lies there.
unfoldable pub below : List String → List String → Option (List String)
below [] path = some path
below (r ∷ rs) [] = none
below (r ∷ rs) (p ∷ ps) = let rest = below rs ps in if r == p then rest else none

-- `WorkspaceBoundary(root).resolve(path)`: the components below the root, or a violation.
unfoldable pub resolve : List String → String → Outcome (List String)
resolve root path =
    let start = if is_absolute path then [] else reverse root in
    elim (below root (reverse (collapse start (parts path)))) [
      | some key ↦ ok key
      | none ↦ raise (policy_violation ("path escapes workspace: " ⧺ path))
    ]

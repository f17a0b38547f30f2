-- ===== src/Common/Text.antt =====
-- What the program uses of Rust's `str`: prefixes, words, trimming, splitting, and paths of Unix.
use Prim.Native.Char.{Char, code}
use Prim.Native.String.{String}
use Prim.Native.Nat.{ℕ}
use mathlib.Core.Bool.{Bool, true, ◌&&◌, ◌||◌}
use mathlib.Core.Option.{Option, none, some}
use mathlib.Core.List.{List, [], ◌∷◌}
use text.Mathlib.Text.{◌==◌}
use codex_bridge.Common.Tests.{leb, nat_eq, if◌then◌else◌}

-- char::is_whitespace
unfoldable pub is_whitespace : ℕ → Bool
is_whitespace c =
    (leb 9 c && leb c 13)
    || (nat_eq c 32
        || (nat_eq c 133
            || (nat_eq c 160
                || (nat_eq c 5760
                    || ((leb 8192 c && leb c 8202)
                        || (nat_eq c 8232
                            || (nat_eq c 8233
                                || (nat_eq c 8239 || (nat_eq c 8287 || nat_eq c 12288)))))))))

-- `strip_prefix`: what follows the text `p`.
unfoldable pub strip_prefix : String → String → Option String
strip_prefix String.[] s = some s
strip_prefix (String.◌∷◌ c p) String.[] = none
strip_prefix (String.◌∷◌ c p) (String.◌∷◌ d s) =
    let rest = strip_prefix p s in if nat_eq (code c) (code d) then rest else none

-- The characters before the first white space.
unfoldable pub token : String → String
unfolding is_whitespace
token String.[] = String.[]
token (String.◌∷◌ c s) =
    let rest = token s in if is_whitespace (code c) then String.[] else String.◌∷◌ c rest

-- str::contains
unfoldable pub contains : String → String → Bool
unfolding strip_prefix
contains p String.[] = p == ""
contains p (String.◌∷◌ c s) = elim (strip_prefix p (String.◌∷◌ c s)) [
  | some _ ↦ true
  | none ↦ contains p s
]

-- str::trim
unfoldable pub trim_start : String → String
unfolding is_whitespace
trim_start String.[] = String.[]
trim_start (String.◌∷◌ c s) =
    let rest = trim_start s in if is_whitespace (code c) then rest else String.◌∷◌ c s

unfoldable pub trim_end : String → String
unfolding is_whitespace
trim_end String.[] = String.[]
trim_end (String.◌∷◌ c s) =
    let rest = trim_end s in
    if is_whitespace (code c) && rest == "" then String.[] else String.◌∷◌ c rest

-- str::split_once
unfoldable pub split_once : String → String → Option (String × String)
unfolding strip_prefix
split_once p String.[] = if p == "" then some ("", "") else none
split_once p (String.◌∷◌ c s) = elim (strip_prefix p (String.◌∷◌ c s)) [
  | some rest ↦ some ("", rest)
  | none ↦ elim (split_once p s) [
    | none ↦ none
    | some (before, after) ↦ some (String.◌∷◌ c before, after)
  ]
]

-- The text before the first slash, and `split('/')`.
unfoldable pub before_slash : String → String
before_slash String.[] = String.[]
before_slash (String.◌∷◌ c s) =
    let rest = before_slash s in if nat_eq (code c) b'/' then String.[] else String.◌∷◌ c rest

abbrev cons_char : Char → List String → List String
cons_char c [] = String.◌∷◌ c String.[] ∷ []
cons_char c (x ∷ xs) = String.◌∷◌ c x ∷ xs

unfoldable pub split_slash : String → List String
split_slash String.[] = "" ∷ []
split_slash (String.◌∷◌ c s) =
    let rest = split_slash s in if nat_eq (code c) b'/' then "" ∷ rest else cons_char c rest

-- std::path::Component
pub data Component : Type 0 where
  root_dir cur_dir parent_dir : Component
  normal : String → Component

-- Behind the first component, empty parts and "." are skipped.
unfoldable pub later_components : List String → List Component
later_components [] = []
later_components (x ∷ xs) =
    let rest = later_components xs in
    if x == "" || x == "." then rest else if x == ".." then parent_dir ∷ rest else normal x ∷ rest

-- An empty first part is that of a path from the root, or of the empty path.
first_components : List String → List Component
unfolding later_components
first_components [] = []
first_components (x ∷ []) =
    if x == "" then [] else if x == "." then cur_dir ∷ [] else later_components (x ∷ [])
first_components (x ∷ xs) =
    if x == ""
    then root_dir ∷ later_components xs
    else if x == "."
    then cur_dir ∷ later_components xs
    else later_components (x ∷ xs)

-- Path::components
unfoldable pub components : String → List Component
unfolding split_slash first_components
components path = first_components (split_slash path)

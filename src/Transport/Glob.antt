-- ===== src/Transport/Glob.antt =====
-- Python's `fnmatch.fnmatch` and `str.replace`, as the transports use them. A pattern is compiled
-- to tokens; a token `set` holds the characters and ranges of a bracket.
pub mod Relation
use observer_pattern.Prelude.{
  ℕ, zero, suc, ◌+◌, ◌-◌, Bool, true, false, not, ◌&&◌, ◌||◌, Option, none, some, List, [], ◌∷◌,
  ◌++◌, if◌then◌else◌, leb, ◌==◌, Text, length, nat_eq,
}
use mathlib.Core.Option

pub data Token : Type 0 where
  star any : Token
  lit : ℕ → Token
  set : Bool → Text → Token

-- The members of a bracket: `x-y` is a range, any other character stands for itself.
unfoldable pub member : ℕ → Text → Bool
member c [] = false
member c (x ∷ []) = c == x
member c (x ∷ y ∷ []) = c == x || c == y
member c (x ∷ y ∷ z ∷ r) = elim (y == b'-') [
  | true ↦ leb x c && leb c z || member c r
  | false ↦ c == x || member c (y ∷ z ∷ r)
]

unfoldable pub accepts : Token → ℕ → Bool
accepts star c = true
accepts any c = true
accepts (lit x) c = c == x
accepts (set negated body) c = if negated then not (member c body) else member c body

-- The text up to the next `]`.
unfoldable pub until_close : Text → Option Text
until_close [] = none
until_close (c ∷ s) = if c == b']' then some [] else Option.map (λ r. c ∷ r) (until_close s)

-- A `]` that comes first does not close the bracket.
unfoldable pub after_bang : Text → Option Text
after_bang [] = none
after_bang (c ∷ s) =
    if c == b']' then Option.map (λ r. c ∷ r) (until_close s) else until_close (c ∷ s)

unfoldable pub class_body : Text → Option Text
class_body [] = none
class_body (c ∷ s) =
    if c == b'!' then Option.map (λ r. c ∷ r) (after_bang s) else after_bang (c ∷ s)

abbrev pub class_token : Text → Token
class_token [] = set false []
class_token (c ∷ body) = if c == b'!' then set true body else set false (c ∷ body)

-- `fnmatch.translate`; the number is how many characters a bracket has still to pass over.
unfoldable pub translate_from : ℕ → Text → List Token
translate_from skip [] = []
translate_from (suc skip) (c ∷ s) = translate_from skip s
translate_from zero (c ∷ s) = elim (c == b'*') [
  | true ↦ star ∷ translate_from zero s
  | false ↦ elim (c == b'?') [
    | true ↦ any ∷ translate_from zero s
    | false ↦ elim (c == b'[') [
      | true ↦ elim (class_body s) [
        | none ↦ lit c ∷ translate_from zero s
        | some body ↦ class_token body ∷ translate_from (suc (length body)) s
      ]
      | false ↦ lit c ∷ translate_from zero s
    ]
  ]
]

abbrev pub translate : Text → List Token
translate = translate_from zero

unfoldable pub matches : List Token → Text → Bool
matches [] [] = true
matches [] (c ∷ s) = false
matches (star ∷ ts) [] = matches ts []
matches (star ∷ ts) (c ∷ s) =
    let here = matches ts (c ∷ s) in
    let later = matches (star ∷ ts) s in if here then true else later
matches (t ∷ ts) [] = false
matches (t ∷ ts) (c ∷ s) = let rest = matches ts s in if accepts t c then rest else false

-- `fnmatch.fnmatch(name, pattern)`, on a system whose file names are case-sensitive
unfoldable pub fnmatch : Text → Text → Bool
fnmatch name pattern = matches (translate pattern) name

unfoldable pub starts_with : Text → Text → Bool
starts_with [] s = true
starts_with (c ∷ p) [] = false
starts_with (c ∷ p) (d ∷ s) = c == d && starts_with p s

-- `s.replace(old, new)` for a non-empty `old`; the number counts the rest of an occurrence.
unfoldable pub replace_from : ℕ → Text → Text → Text → Text
replace_from skip old new [] = []
replace_from (suc skip) old new (c ∷ s) = replace_from skip old new s
replace_from zero old new (c ∷ s) = elim (starts_with old (c ∷ s)) [
  | true ↦ new ++ replace_from (length old - 1) old new s
  | false ↦ c ∷ replace_from zero old new s
]

abbrev pub replace : Text → Text → Text → Text
replace = replace_from zero

-- ===== src/Transport/Segments.antt =====
-- eventforge/transports: `_matches` of redis.py and of nats.py, which are the same text. The
-- regular expression that it builds is a list of parts; `re.match` tries them from left to right.
pub mod Fits
pub mod Trailing
use observer_pattern.Prelude.{
  Bool, true, false, not, ◌&&◌, List, [], ◌∷◌, if◌then◌else◌, ℕ, ◌==◌, Text, nat_eq, text_eq,
}

-- `.*`, `[^.]*` and an escaped character.
pub data Part : Type 0 where
  rest segment : Part
  lit : ℕ → Part

abbrev pub newline : ℕ
newline = 10

abbrev pub part_of : ℕ → Part
part_of c = if c == b'*' then segment else lit c

unfoldable pub parts : Text → List Part
parts [] = []
parts (c ∷ []) = part_of c ∷ []
parts (c ∷ d ∷ s) = elim (c == b'*' && d == b'*') [
  | true ↦ rest ∷ parts s
  | false ↦ part_of c ∷ parts (d ∷ s)
]

-- `$` stands at the end, and before a newline that ends the text.
unfoldable pub at_end : Text → Bool
at_end [] = true
at_end (c ∷ []) = c == newline
at_end (c ∷ d ∷ s) = false

-- `.` is any character but a newline.
unfoldable pub takes : Part → ℕ → Bool
takes rest c = not (c == newline)
takes segment c = not (c == b'.')
takes (lit x) c = c == x

unfoldable pub re_match : List Part → Text → Bool
re_match [] s = at_end s
re_match (lit x ∷ ps) [] = false
re_match (lit x ∷ ps) (c ∷ s) =
    let later = re_match ps s in if takes (lit x) c then later else false
re_match (p ∷ ps) [] = re_match ps []
re_match (p ∷ ps) (c ∷ s) =
    let now = re_match ps (c ∷ s) in
    let later = re_match (p ∷ ps) s in if now then true else if takes p c then later else false

unfoldable pub segment_matches : Text → Text → Bool
segment_matches topic pattern = if pattern == topic then true else re_match (parts pattern) topic

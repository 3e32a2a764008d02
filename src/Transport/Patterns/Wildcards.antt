-- ===== src/Transport/Patterns/Wildcards.antt =====
-- What a wildcard at the end of a pattern matches, on the in-memory and on the TCP transport.
use observer_pattern.Prelude.{
  ℕ, zero, ◌≡◌, ◌≢◌, refl, inl, inr, Bool, true, false, ◌||◌, [], ◌∷◌, ◌++◌, arith, if◌then◌else◌,
  ◌==◌, Text, codes, All, Bool-cases, nat_eq, text_eq,
}
use mathlib.Core.List.{append-nil}
use observer_pattern.Prelude.Keys.{text_beq, text_beq_iff}
use observer_pattern.Transport.Glob.{
  star, member, accepts, translate_from, matches, fnmatch, starts_with, replace_from, class_body,
  after_bang, until_close,
}
use observer_pattern.Transport.Patterns.{memory_pattern, memory_matches, tcp_matches}

-- No character that the pattern language or the replacements read.
abbrev pub IsPlain : Text → Type 0
IsPlain = All (λ c. (c ≢ b'*') × (c ≢ b'?') × (c ≢ b'[') × (c ≢ b'_'))

-- A text that begins otherwise is copied up to the part that is not plain.
replace_plain :
    (o : ℕ) (old new p s : Text)
    → All (λ c. c ≢ o) p
    → replace_from zero (o ∷ old) new (p ++ s) ≡ p ++ replace_from zero (o ∷ old) new s
unfolding replace_from starts_with
replace_plain o old new [] s a = refl
replace_plain o old new (c ∷ p) s a = ground (arith, replace_plain o old new p s a.1)

translate_plain :
    (p s : Text)
    → IsPlain p
    → (t : Text)
    → matches (translate_from zero (p ++ s)) (p ++ t) ≡ matches (translate_from zero s) t
unfolding translate_from matches accepts
translate_plain [] s a t = refl
translate_plain (c ∷ p) s a t = ground (arith, translate_plain p s a.1 t)

no_star : (p : Text) → IsPlain p → All (λ c. c ≢ b'*') p
no_star [] a = tt
no_star (c ∷ p) a = (a.0.0, no_star p a.1)

no_underscore : (p : Text) → IsPlain p → All (λ c. c ≢ b'_') p
no_underscore [] a = tt
no_underscore (c ∷ p) a = (a.0.3, no_underscore p a.1)

memory_pattern_star : (p : Text) → IsPlain p → memory_pattern (p ++ codes "*") ≡ p ++ codes "[^.]*"
unfolding memory_pattern replace_from starts_with
memory_pattern_star p a =
    rw (replace_plain b'*' (codes "*") (codes "__DOUBLE__") p (codes "*") (no_star p a)) (
      rw (replace_plain b'*' [] (codes "[^.]*") p (codes "*") (no_star p a)) (
        rw (
          replace_plain b'_' (codes "_DOUBLE__") (codes "*") p (codes "[^.]*")
            (no_underscore p a))))

memory_pattern_double_star :
    (p : Text) → IsPlain p → memory_pattern (p ++ codes "**") ≡ p ++ codes "*"
unfolding memory_pattern replace_from starts_with
memory_pattern_double_star p a =
    rw (replace_plain b'*' (codes "*") (codes "__DOUBLE__") p (codes "**") (no_star p a)) (
      rw (replace_plain b'*' [] (codes "[^.]*") p (codes "__DOUBLE__") (no_star p a)) (
        rw (
          replace_plain b'_' (codes "_DOUBLE__") (codes "*") p (codes "__DOUBLE__")
            (no_underscore p a))))

matches-star : (s : Text) → matches (star ∷ []) s ≡ true
unfolding matches
matches-star [] = refl
matches-star (c ∷ s) = matches-star s

or_true : (b : Bool) → (if b then true else true) ≡ true
or_true true = refl
or_true false = refl

memory_pattern_plain : (p : Text) → IsPlain p → memory_pattern p ≡ p
unfolding memory_pattern replace_from starts_with
memory_pattern_plain p a =
    let same = append-nil p in
    let star : (new : Text) → replace_from zero (codes "*") new p ≡ p =
      λ new. rw same at (replace_plain b'*' [] new p [] (no_star p a)) in
    let double : replace_from zero (codes "**") (codes "__DOUBLE__") p ≡ p =
      rw same at (replace_plain b'*' (codes "*") (codes "__DOUBLE__") p [] (no_star p a)) in
    let back : replace_from zero (codes "__DOUBLE__") (codes "*") p ≡ p =
      rw same at (replace_plain b'_' (codes "_DOUBLE__") (codes "*") p [] (no_underscore p a)) in
    rw double (rw (star (codes "[^.]*")) back)

plain_matches : (p s : Text) → IsPlain p → matches (translate_from zero p) s ≡ true → p ≡ s
unfolding translate_from matches accepts
plain_matches [] [] a h = refl
plain_matches [] (d ∷ s) a h = absurd (cc h)
plain_matches (c ∷ p) [] a h = absurd (ground arith)
plain_matches (c ∷ p) (d ∷ s) a h = ground (arith, plain_matches p s a.1)

-- A topic is a pattern for itself.
pub memory_matches_self : (topic : Text) → memory_matches topic topic ≡ true
unfolding memory_matches
memory_matches_self topic = rw ((text_beq_iff topic topic).1 refl) refl

-- A topic without wildcards is no pattern for another one.
pub memory_matches_plain : (topic p : Text) → IsPlain p → p ≢ topic → memory_matches topic p ≡ false
unfolding memory_matches fnmatch
memory_matches_plain topic p a n = elim (Bool-cases (text_beq p topic)) [
  | inl q ↦ absurd (n ((text_beq_iff p topic).0 q))
  | inr q ↦ rw q (
      rw (memory_pattern_plain p a) (elim (Bool-cases (matches (translate_from zero p) topic)) [
        | inl m ↦ absurd (n (plain_matches p topic a m))
        | inr m ↦ m
      ]))
]

-- `prefix**` matches every topic that begins with the prefix, on the in-memory transport.
pub memory_matches-double_star :
    (p s : Text) → IsPlain p → memory_matches (p ++ s) (p ++ codes "**") ≡ true
unfolding memory_matches fnmatch translate_from
memory_matches-double_star p s a =
    rw (memory_pattern_double_star p a)
      (rw (translate_plain p (codes "*") a s) (rw (matches-star s) (or_true _)))

-- `prefix*` should stand for one more segment. On the in-memory transport, for a prefix with none
-- of *?[_, it matches, of the longer topics with that prefix other than itself, exactly those
-- whose next character is `^` or `.`.
pub memory_matches-star :
    (p : Text) (c : ℕ) (s : Text)
    → IsPlain p
    → p ++ codes "*" ≢ p ++ c ∷ s
    → memory_matches (p ++ c ∷ s) (p ++ codes "*") ≡ (c == b'^' || c == b'.')
unfolding memory_matches fnmatch translate_from class_body after_bang until_close matches accepts
    member
memory_matches-star p c s a n = elim (Bool-cases (text_beq (p ++ codes "*") (p ++ c ∷ s))) [
  | inl q ↦ absurd (n ((text_beq_iff _ _).0 q))
  | inr q ↦ rw q (
      rw (memory_pattern_star p a)
        (rw (translate_plain p (codes "[^.]*") a (c ∷ s)) (ground (arith, matches-star s))))
]

-- On the TCP transports `prefix*` matches every topic that begins with the prefix, further segments
-- included.
pub tcp_matches-star : (p s : Text) → IsPlain p → tcp_matches (p ++ s) (p ++ codes "*") ≡ true
unfolding tcp_matches fnmatch translate_from
tcp_matches-star p s a = rw (translate_plain p (codes "*") a s) (rw (matches-star s) (or_true _))

-- ===== src/Transport/Glob/Relation.antt =====
-- What a list of tokens matches, as a relation, and that `matches` decides it.
use observer_pattern.Prelude.{
  ℕ, ◌≡◌, ◌↔◌, refl, inl, inr, true, List, [], ◌∷◌, arith, Text, Bool-cases,
}
use observer_pattern.Transport.Glob.{Token, star, accepts, matches}

-- `star` stands for any text, every other token for one character that it accepts.
pub data Matches : List Token → Text → Type 0 where
  done : Matches [] []
  skip : {ts : List Token} {s : Text} → Matches ts s → Matches (star ∷ ts) s
  eat : {ts : List Token} {c : ℕ} {s : Text} → Matches (star ∷ ts) s → Matches (star ∷ ts) (c ∷ s)
  one :
      {t : Token} {ts : List Token} {c : ℕ} {s : Text}
      → (t ≡ star → ⊥)
      → accepts t c ≡ true
      → Matches ts s
      → Matches (t ∷ ts) (c ∷ s)

matches_sound : (ts : List Token) (s : Text) → matches ts s ≡ true → Matches ts s
unfolding matches
matches_sound [] [] h = done
matches_sound [] (c ∷ s) h = cc
matches_sound (star ∷ ts) [] h = skip (matches_sound ts [] h)
matches_sound (star ∷ ts) (c ∷ s) h = elim (Bool-cases (matches ts (c ∷ s))) [
  | inl q ↦ skip (matches_sound ts (c ∷ s) q)
  | inr q ↦ eat (matches_sound (star ∷ ts) s (rw q at h))
]
matches_sound (t ∷ ts) [] h = cc
matches_sound (t ∷ ts) (c ∷ s) h = elim (Bool-cases (accepts t c)) [
  | inl q ↦ one (λ e. cc) q (matches_sound ts s (rw q at h))
  | inr q ↦ cc (q, h)
]

matches-skip : (ts : List Token) (s : Text) → matches ts s ≡ true → matches (star ∷ ts) s ≡ true
unfolding matches
matches-skip ts [] h = h
matches-skip ts (c ∷ s) h = rw h

matches-eat :
    (ts : List Token) (c : ℕ) (s : Text)
    → matches (star ∷ ts) s ≡ true
    → matches (star ∷ ts) (c ∷ s) ≡ true
unfolding matches
matches-eat ts c s h = ground arith

matches-one :
    (t : Token) (ts : List Token) (c : ℕ) (s : Text)
    → (t ≡ star → ⊥)
    → accepts t c ≡ true
    → matches ts s ≡ true
    → matches (t ∷ ts) (c ∷ s) ≡ true
unfolding matches
matches-one star ts c s n a h = absurd (n refl)
matches-one t ts c s n a h = rw a h

matches_complete : {ts : List Token} {s : Text} → Matches ts s → matches ts s ≡ true
unfolding matches
matches_complete done = refl
matches_complete (skip {ts = ts} {s = s} m) = matches-skip ts s (matches_complete m)
matches_complete (eat {ts = ts} {c = c} {s = s} m) = matches-eat ts c s (matches_complete m)
matches_complete (one {t = t} {ts = ts} {c = c} {s = s} n a m) =
    matches-one t ts c s n a (matches_complete m)

-- The matcher decides the relation: it answers True exactly for the texts that the tokens match.
pub matches_iff : (ts : List Token) (s : Text) → (matches ts s ≡ true) ↔ Matches ts s
matches_iff ts s = (matches_sound ts s, λ m. matches_complete m)

-- ===== src/Transport/Segments/Fits.antt =====
-- What a topic pattern of redis.py and nats.py stands for, and that `_matches` decides it.
use observer_pattern.Prelude.{
  ℕ, ◌≡◌, ◌≢◌, ◌↔◌, ◌⊎◌, refl, sym, ap, ◌∙◌, inl, inr, true, false, List, [], ◌∷◌, ◌++◌, arith,
  Text, All, Bool-cases, nat_eq, text_eq, if◌then◌else◌,
}
use observer_pattern.Prelude.Keys.{text_beq_iff, text_beq}
use observer_pattern.Transport.Segments.{
  Part, rest, segment, lit, newline, parts, at_end, takes, re_match, segment_matches,
}

-- A text of the parts, one after the other: `*` is a text without dots, `**` one without newlines,
-- and a newline may stand at the end.
abbrev pub Fits : List Part → Text → Type 0
Fits [] s = (s ≡ []) ⊎ (s ≡ newline ∷ [])
Fits (lit x ∷ ps) s = (r : Text) × (s ≡ x ∷ r) × Fits ps r
Fits (segment ∷ ps) s = (t : Text) × (r : Text) × (s ≡ t ++ r) × All (λ c. c ≢ b'.') t × Fits ps r
Fits (rest ∷ ps) s = (t : Text) × (r : Text) × (s ≡ t ++ r) × All (λ c. c ≢ newline) t × Fits ps r

at_end_iff : (s : Text) → (at_end s ≡ true) ↔ ((s ≡ []) ⊎ (s ≡ newline ∷ []))
unfolding at_end
at_end_iff [] = (λ h. inl refl, λ h. refl)
at_end_iff (c ∷ []) =
    (λ h. inr (ground arith), λ h. elim h [ inl e ↦ absurd (cc e) | inr e ↦ ground arith ])
at_end_iff (c ∷ d ∷ s) =
    (λ h. absurd (cc h), λ h. elim h [ inl e ↦ absurd (cc e) | inr e ↦ absurd (cc e) ])

-- One part that stands for a run of characters, by the test that they pass.
module _ (p : Part) (ps : List Part) (P : ℕ → Type 0) (test : (c : ℕ) → (takes p c ≡ true) ↔ P c)
    (nil : re_match (p ∷ ps) [] ≡ re_match ps [])
    (cons : (c : ℕ) (s : Text)
      → re_match (p ∷ ps) (c ∷ s) ≡ (
          if re_match ps (c ∷ s)
          then true
          else if takes p c
          then re_match (p ∷ ps) s
          else false)) where
  abbrev Runs : Text → Type 0
  Runs s = (t : Text) × (r : Text) × (s ≡ t ++ r) × All P t × (re_match ps r ≡ true)

  run_sound : (s : Text) → re_match (p ∷ ps) s ≡ true → Runs s
  run_sound [] h = ([], [], refl, tt, sym nil ∙ h)
  run_sound (c ∷ s) h = elim (Bool-cases (re_match ps (c ∷ s))) [
    | inl q ↦ ([], c ∷ s, refl, tt, q)
    | inr q ↦ elim (Bool-cases (takes p c)) [
      | inl k ↦
          let (t, r, e, a, m) = run_sound s (ground (arith, cons c s)) in
          (c ∷ t, r, ap (◌∷◌ c) e, ((test c).0 k, a), m)
      | inr k ↦ absurd (ground (arith, cons c s))
    ]
  ]

  run_complete : (t r : Text) → All P t → re_match ps r ≡ true → re_match (p ∷ ps) (t ++ r) ≡ true
  run_complete [] [] a m = nil ∙ m
  run_complete [] (c ∷ r) a m = ground (arith, cons c r)
  run_complete (c ∷ t) r a m =
      ground (arith, cons c (t ++ r), (test c).1 a.0, run_complete t r a.1 m)

not_newline : (c : ℕ) → (takes rest c ≡ true) ↔ (c ≢ newline)
unfolding takes
not_newline c = (λ h e. ground arith, λ n. ground arith)

not_dot : (c : ℕ) → (takes segment c ≡ true) ↔ (c ≢ b'.')
unfolding takes
not_dot c = (λ h e. ground arith, λ n. ground arith)

re_match_sound : (ps : List Part) (s : Text) → re_match ps s ≡ true → Fits ps s
unfolding re_match takes
re_match_sound [] s h = (at_end_iff s).0 h
re_match_sound (lit x ∷ ps) [] h = absurd (cc h)
re_match_sound (lit x ∷ ps) (c ∷ s) h =
    (s, ap (λ y. y ∷ s) (ground arith), re_match_sound ps s (ground arith))
re_match_sound (rest ∷ ps) s h =
    let (t, r, e, a, m) = run_sound rest ps (λ c. c ≢ newline) not_newline refl (λ c s. refl) s h in
    (t, r, e, a, re_match_sound ps r m)
re_match_sound (segment ∷ ps) s h =
    let (t, r, e, a, m) = run_sound segment ps (λ c. c ≢ b'.') not_dot refl (λ c s. refl) s h in
    (t, r, e, a, re_match_sound ps r m)

re_match_complete : (ps : List Part) (s : Text) → Fits ps s → re_match ps s ≡ true
unfolding re_match takes
re_match_complete [] s h = (at_end_iff s).1 h
re_match_complete (lit x ∷ ps) s (r, e, f) = rw e (ground (arith, re_match_complete ps r f))
re_match_complete (rest ∷ ps) s (t, r, e, a, f) = rw e (
    run_complete rest ps (λ c. c ≢ newline) not_newline refl (λ c s. refl) t r a
      (re_match_complete ps r f))
re_match_complete (segment ∷ ps) s (t, r, e, a, f) = rw e (
    run_complete segment ps (λ c. c ≢ b'.') not_dot refl (λ c s. refl) t r a
      (re_match_complete ps r f))

-- `_matches` of redis.py and nats.py answers True exactly if the pattern is the topic, or the
-- topic is made of the pattern's parts: each `**` is a text without newlines, each other `*` a
-- text without dots, any other character itself; a newline may follow.
pub segment_matches-Fits :
    (topic pattern : Text)
    → (segment_matches topic pattern ≡ true) ↔ ((pattern ≡ topic) ⊎ Fits (parts pattern) topic)
unfolding segment_matches
segment_matches-Fits topic pattern = elim (Bool-cases (text_beq pattern topic)) [
  | inl q ↦ (λ h. inl ((text_beq_iff pattern topic).0 q), λ h. rw q refl)
  | inr q ↦ (
    λ h. inr (re_match_sound (parts pattern) topic (rw q at h)),
    λ h. elim h [
      | inl e ↦ absurd (cc ((text_beq_iff pattern topic).1 e, q))
      | inr f ↦ rw q (re_match_complete (parts pattern) topic f)
    ],
  )
]

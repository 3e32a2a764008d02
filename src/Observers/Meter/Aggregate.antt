-- ===== src/Observers/Meter/Aggregate.antt =====
-- eventforge/observers.py, `Meter`: the running state is that of the list of the observations.
use observer_pattern.Prelude.{
  ℕ, suc, ◌+◌, ◌-◌, ◌<◌, ◌≡◌, refl, subst, ◌∙◌, ◌⊎◌, inl, inr, true, List, [], ◌∷◌, arith, All,
  Bool-cases,
}
use observer_pattern.Observers.Meter.{Numbers, Meter, reset, update, larger, smaller}

abbrev pub count_of : {V : Type 0} → List (V × ℕ) → ℕ
count_of [] = 0
count_of ((val, n) ∷ l) = n + count_of l

-- A value that was observed.
abbrev pub IsAmong : {V : Type 0} → V → List (V × ℕ) → Type 0
IsAmong x [] = ⊥
IsAmong x ((val, n) ∷ l) = (x ≡ val) ⊎ IsAmong x l

abbrev pub ArePositive : {V : Type 0} → List (V × ℕ) → Type 0
ArePositive = All (λ o. 0 < o.1)

module _ {V : Type 0} ⦃N : Numbers V⦄ where
  -- Observations, each so many times, in order.
  abbrev pub observe : List (V × ℕ) → Meter V → Meter V
  observe [] m = m
  observe ((val, n) ∷ l) m = observe l (update val n m)

  -- The values added to a number one after the other.
  abbrev pub added : V → List (V × ℕ) → V
  added acc [] = acc
  added acc ((val, n) ∷ l) = added (N.plus acc (N.times val n)) l

  abbrev pub AtMost : V → V → Type 0
  AtMost a b = N.at_most a b ≡ true

  AtMost-refl : (a : V) → AtMost a a
  AtMost-refl a = elim (N.total a a) [ inl h ↦ h | inr h ↦ h ]

  larger_lem :
      (a b : V)
      → AtMost a (larger a b) × AtMost b (larger a b) × ((larger a b ≡ a) ⊎ (larger a b ≡ b))
  unfolding larger
  larger_lem a b = elim (Bool-cases (N.at_most b a)) [
    | inl q ↦ rw (q, larger) (AtMost-refl a, q, inl refl)
    | inr q ↦
        rw (q, larger)
          (elim (N.total a b) [ inl h ↦ h | inr h ↦ absurd (cc (h, q)) ], AtMost-refl b, inr refl)
  ]

  smaller_lem :
      (a b : V)
      → AtMost (smaller a b) a × AtMost (smaller a b) b × ((smaller a b ≡ a) ⊎ (smaller a b ≡ b))
  unfolding smaller
  smaller_lem a b = elim (Bool-cases (N.at_most a b)) [
    | inl q ↦ rw (q, smaller) (AtMost-refl a, q, inl refl)
    | inr q ↦
        rw (q, smaller)
          (elim (N.total a b) [ inl h ↦ absurd (cc (h, q)) | inr h ↦ h ], AtMost-refl b, inr refl)
  ]

  -- `lo` and `hi` bound the values of the list, and each is one of them or the one given.
  abbrev pub Extremes : V → V → V → V → List (V × ℕ) → Type 0
  Extremes lo₀ hi₀ lo hi l =
      AtMost lo lo₀
      × AtMost hi₀ hi
      × All (λ o. AtMost lo o.0 × AtMost o.0 hi) l
      × ((lo ≡ lo₀) ⊎ IsAmong lo l)
      × ((hi ≡ hi₀) ⊎ IsAmong hi l)

  extremes_started :
      (val : V) (n k : ℕ) (m : Meter V)
      → m.number ≡ suc k
      → ((update val n m).max_val ≡ larger m.max_val val)
        × ((update val n m).min_val ≡ smaller m.min_val val)
  unfolding update
  extremes_started val n k m e = rw (e, update) (refl, refl)

  observe_started :
      (l : List (V × ℕ)) (m : Meter V) (k : ℕ)
      → m.number ≡ suc k
      → let u = observe l m in
        (u.sum_val ≡ added m.sum_val l)
        × (u.number ≡ m.number + count_of l)
        × Extremes m.min_val m.max_val u.min_val u.max_val l
  unfolding update
  observe_started [] m k h =
      (refl, omega arith, (AtMost-refl m.min_val, AtMost-refl m.max_val, tt, inl refl, inl refl))
  observe_started ((val, n) ∷ l) m k h =
      let m₁ : Meter V = update val n m in
      let x = extremes_started val n k m h in
      let hi = larger_lem m.max_val val in
      let lo = smaller_lem m.min_val val in
      let r = observe_started l m₁ (k + n) (omega (arith, h)) in
      let u : Meter V = observe l m₁ in
      let e : Extremes (smaller m.min_val val) (larger m.max_val val) u.min_val u.max_val l =
        subst (λ lo. Extremes lo (larger m.max_val val) u.min_val u.max_val l) x.1
          (subst (λ hi. Extremes m₁.min_val hi u.min_val u.max_val l) x.0 r.2) in
      (
        r.0,
        omega (arith, r.1),
        (
          N.trans _ _ _ e.0 lo.0,
          N.trans _ _ _ hi.0 e.1,
          ((N.trans _ _ _ e.0 lo.1, N.trans _ _ _ hi.1 e.1), e.2),
          elim e.3 [
            | inl a ↦ elim lo.2 [ inl b ↦ inl (a ∙ b) | inr b ↦ inr (inl (a ∙ b)) ]
            | inr a ↦ inr (inr a)
          ],
          elim e.4 [
            | inl a ↦ elim hi.2 [ inl b ↦ inl (a ∙ b) | inr b ↦ inr (inl (a ∙ b)) ]
            | inr a ↦ inr (inr a)
          ],
        ),
      )

  -- Whatever the numbers are, positive or negative, after a reset and at least one observation,
  -- each of a positive number of times, the meter holds the count of the observations and their
  -- sum, added up in order; and its extremes are among the values observed and bound them all.
  pub observe_aggregates :
      (val : V) (n : ℕ) (l : List (V × ℕ)) (m : Meter V)
      → ArePositive ((val, n) ∷ l)
      → let u = observe ((val, n) ∷ l) (reset m) in
        (u.sum_val ≡ added N.zero_value ((val, n) ∷ l))
        × (u.number ≡ count_of ((val, n) ∷ l))
        × All (λ o. AtMost u.min_val o.0 × AtMost o.0 u.max_val) ((val, n) ∷ l)
        × IsAmong u.min_val ((val, n) ∷ l)
        × IsAmong u.max_val ((val, n) ∷ l)
  unfolding update reset
  observe_aggregates val n l m a =
      let r = observe_started l (update val n (reset m)) (n - 1) (omega (arith, a.0)) in
      let e = r.2 in (r.0, omega (arith, r.1), ((e.0, e.1), e.2), e.3, e.4)

-- ===== src/Prelude/Dict/Entries.antt =====
-- Laws of a dict seen as its entries: distinct keys, sums over the values, predicates of all.
use Prim.Native.Nat.{ℕ, ◌+◌}
use mathlib.Core.Logic.{inl, inr}
use mathlib.Core.Path.{◌≡◌, refl, sym, subst}
use mathlib.Core.List.{List, [], ◌∷◌}
use mathlib.Core.Bool.{true}
use mathlib.Core.Option.{none, some}
use native.Mathlib.Omega.{arith}
use observer_pattern.Prelude.Tests.{Bool-cases, Option-cases}
use observer_pattern.Prelude.Lists.{All}
use observer_pattern.Prelude.Keys.{Eq, ◌==◌, ==_refl}
use observer_pattern.Prelude.Dict.Defs.{
  Dict, keys, contains, get_or, get, set, erase, get-set, get-erase,
}

module _ {K V : Type 0} ⦃e : Eq K⦄ where
  -- No key stands twice.
  abbrev pub IsDict : Dict K V → Type 0
  IsDict [] = Unit
  IsDict ((k, v) ∷ d) = (get k d ≡ none) × IsDict d

  pub set-IsDict : (k : K) (v : V) (d : Dict K V) → IsDict d → IsDict (set k v d)
  unfolding set get
  set-IsDict k v [] h = (refl, tt)
  set-IsDict k v ((j, w) ∷ d) h =
      ground (arith, set-IsDict k v d h.1, get-set k j v d, e.beq_iff j k, e.beq_iff k j)

  pub erase-IsDict : (k : K) (d : Dict K V) → IsDict d → IsDict (erase k d)
  unfolding erase
  erase-IsDict k [] h = tt
  erase-IsDict k ((j, w) ∷ d) h = ground (arith, erase-IsDict k d h.1, get-erase k j d)

  pub erase_absent : (k : K) (d : Dict K V) → get k d ≡ none → erase k d ≡ d
  unfolding erase get
  erase_absent k [] h = refl
  erase_absent k ((j, w) ∷ d) h = ground (arith, erase_absent k d)

  -- The sum of a weight over the values.
  unfoldable pub total : (V → ℕ) → Dict K V → ℕ
  total f [] = 0
  total f ((k, v) ∷ d) = f v + total f d

  -- The weight of what a key holds.
  unfoldable pub weight_at : (V → ℕ) → K → Dict K V → ℕ
  weight_at f k d = elim (get k d) [ none ↦ 0 | some v ↦ f v ]

  pub total-set :
      (f : V → ℕ) (k : K) (v : V) (d : Dict K V)
      → total f (set k v d) + weight_at f k d ≡ total f d + f v
  unfolding total set weight_at get
  total-set f k v [] = omega arith
  total-set f k v ((j, w) ∷ d) = ground (arith, total-set f k v d)

  pub total-erase :
      (f : V → ℕ) (k : K) (d : Dict K V)
      → IsDict d
      → total f (erase k d) + weight_at f k d ≡ total f d
  unfolding total erase weight_at get
  total-erase f k [] h = omega arith
  total-erase f k ((j, w) ∷ d) h =
      ground (arith, total-erase f k d h.1, erase_absent k d, e.beq_iff j k)

  module _ {ℓ} (P : K × V → Type ℓ) where
    -- `set` keeps the key that is there, which is the one given.
    pub All-set : (k : K) (v : V) (d : Dict K V) → P (k, v) → All P d → All P (set k v d)
    unfolding set
    All-set k v [] p h = (p, h)
    All-set k v ((j, w) ∷ d) p h = elim (Bool-cases (j == k)) [
      | inl q ↦ rw q (subst (λ i. P (i, v)) (sym ((e.beq_iff j k).0 q)) p, h.1)
      | inr q ↦ rw q (h.0, All-set k v d p h.1)
    ]

    pub All-erase : (k : K) (d : Dict K V) → All P d → All P (erase k d)
    unfolding erase
    All-erase k [] h = h
    All-erase k ((j, w) ∷ d) h = elim (Bool-cases (j == k)) [
      | inl q ↦ rw q (All-erase k d h.1)
      | inr q ↦ rw q (h.0, All-erase k d h.1)
    ]

    pub get-All : (k : K) (v : V) (d : Dict K V) → All P d → get k d ≡ some v → P (k, v)
    unfolding get
    get-All k v [] h q = cc
    get-All k v ((j, w) ∷ d) h q = elim (Bool-cases (j == k)) [
      | inl r ↦ let s : some w ≡ some v = rw r at q in subst P (cc ((e.beq_iff j k).0 r, s)) h.0
      | inr r ↦ get-All k v d h.1 (rw r at q)
    ]

module _ {K V : Type 0} ⦃e : Eq K⦄ where
  pub get_or-All :
      (P : V → Type 0) (k : K) (v : V) (d : Dict K V)
      → All (λ g. P g.1) d
      → contains k d ≡ true
      → P (get_or k v d)
  unfolding contains get_or
  get_or-All P k v d a h = elim (Option-cases (get k d)) [
    | inl q ↦ absurd (cc (q, h))
    | inr (w, q) ↦ rw (q, get_or) (get-All (λ g. P g.1) k w d a q)
  ]

  contains-cons :
      (k j : K) (w : V) (d : Dict K V) → contains k d ≡ true → contains k ((j, w) ∷ d) ≡ true
  unfolding contains get
  contains-cons k j w d h = ground arith

  contains-cons_All :
      (j : K) (w : V) (d : Dict K V) (l : List K)
      → All (λ k. contains k d ≡ true) l
      → All (λ k. contains k ((j, w) ∷ d) ≡ true) l
  contains-cons_All j w d [] a = tt
  contains-cons_All j w d (k ∷ l) a = (contains-cons k j w d a.0, contains-cons_All j w d l a.1)

  -- Every key is found.
  pub contains-keys : (d : Dict K V) → All (λ k. contains k d ≡ true) (keys d)
  unfolding contains get
  contains-keys [] = tt
  contains-keys ((j, w) ∷ d) =
      (ground (arith, ==_refl j), contains-cons_All j w d (keys d) (contains-keys d))

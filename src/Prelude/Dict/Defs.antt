-- ===== src/Prelude/Dict/Defs.antt =====
-- Python's `dict`: pairs in insertion order. `set` keeps the place of a key that is there.
use mathlib.Core.Path.{◌≡◌, refl}
use mathlib.Core.Logic.{◌≢◌}
use mathlib.Core.Bool.{Bool, true, false}
use mathlib.Core.List.{List, [], ◌∷◌, map}
use mathlib.Core.Option.{Option, none, some}
use native.Mathlib.Omega.{arith}
use observer_pattern.Prelude.Tests.{if◌then◌else◌}
use observer_pattern.Prelude.Keys.{Eq, ◌==◌}

abbrev pub Dict {ℓ κ} : Type ℓ → Type κ → Type (ℓ ⊔ κ)
Dict K V = List (K × V)

abbrev pub keys {ℓ κ} : {K : Type ℓ} {V : Type κ} → Dict K V → List K
keys = map (λ e. e.0)

abbrev pub values {ℓ κ} : {K : Type ℓ} {V : Type κ} → Dict K V → List V
values = map (λ e. e.1)

module _ {K V : Type 0} ⦃e : Eq K⦄ where
  -- d.get(k)
  unfoldable pub get : K → Dict K V → Option V
  get k [] = none
  get k ((j, v) ∷ d) = if j == k then some v else get k d

  -- d.get(k, v)
  unfoldable pub get_or : K → V → Dict K V → V
  get_or k v d = elim (get k d) [ none ↦ v | some w ↦ w ]

  -- k in d
  unfoldable pub contains : K → Dict K V → Bool
  contains k d = elim (get k d) [ none ↦ false | some _ ↦ true ]

  -- d[k] = v
  unfoldable pub set : K → V → Dict K V → Dict K V
  set k v [] = (k, v) ∷ []
  set k v ((j, w) ∷ d) = if j == k then (j, v) ∷ d else (j, w) ∷ set k v d

  -- del d[k], d.pop(k, None)
  unfoldable pub erase : K → Dict K V → Dict K V
  erase k [] = []
  erase k ((j, w) ∷ d) = if j == k then erase k d else (j, w) ∷ erase k d

  pub get-set :
      (k j : K) (v : V) (d : Dict K V) → get j (set k v d) ≡ (if k == j then some v else get j d)
  unfolding get set
  get-set k j v [] = refl
  get-set k j v ((i, w) ∷ d) =
      ground (arith, e.beq_iff k j, e.beq_iff i k, e.beq_iff i j, get-set k j v d)

  pub get-erase : (k j : K) (d : Dict K V) → get j (erase k d) ≡ (if k == j then none else get j d)
  unfolding get erase
  get-erase k j [] = ground arith
  get-erase k j ((i, w) ∷ d) =
      ground (arith, e.beq_iff k j, e.beq_iff i k, e.beq_iff i j, get-erase k j d)

  pub get-set_self : (k : K) (v : V) (d : Dict K V) → get k (set k v d) ≡ some v
  get-set_self k v d = ground (arith, get-set k k v d, e.beq_iff k k)

  pub get-set_ne : (k j : K) (v : V) (d : Dict K V) → k ≢ j → get j (set k v d) ≡ get j d
  get-set_ne k j v d h = ground (arith, get-set k j v d, e.beq_iff k j)

  pub get-erase_self : (k : K) (d : Dict K V) → get k (erase k d) ≡ none
  get-erase_self k d = ground (arith, get-erase k k d, e.beq_iff k k)

  pub get-erase_ne : (k j : K) (d : Dict K V) → k ≢ j → get j (erase k d) ≡ get j d
  get-erase_ne k j d h = ground (arith, get-erase k j d, e.beq_iff k j)

  pub contains-set_self : (k : K) (v : V) (d : Dict K V) → contains k (set k v d) ≡ true
  unfolding contains
  contains-set_self k v d = rw (get-set_self k v d, contains)

  pub contains-erase_self : (k : K) (d : Dict K V) → contains k (erase k d) ≡ false
  unfolding contains
  contains-erase_self k d = rw (get-erase_self k d, contains)

-- ===== src/Observers/Node/Least.antt =====
-- eventforge/observers.py, `LeastLoadedDispatcher._select`: nobody with room has less load.
use observer_pattern.Prelude.{
  ℕ, ◌<◌, ◌≤◌, ◌*◌, inl, inr, ◌⊎◌, Bool, List, [], ◌∷◌, arith, if_cases, ltb, leb, Bool-cases,
  Option-cases, All, All-map, nat_eq,
}
use native.Mathlib.Nat.{mul_right_comm, mul-le-mul_right, le_of_mul-le-mul_right}
use observer_pattern.Prelude.Dict
use observer_pattern.Prelude.Dict.{Dict}
use observer_pattern.Types.{Result, ok, err}
use observer_pattern.Observers.Node.{
  Node, capacity, load, try_acquire, Subscriber, node, other, load_of, load_leb, insert,
  sort_by_load, pick, select,
}
use observer_pattern.Observers.Node.Slots.{IsFull, sort_by_load-All}

-- `a / b <= c / d`
abbrev pub AtMost : ℕ × ℕ → ℕ × ℕ → Type 0
AtMost (a, b) (c, d) = a * d ≤ c * b

AtMost-trans : (x y z : ℕ × ℕ) → AtMost x y → AtMost y z → 0 < y.1 → AtMost x z
AtMost-trans (a, b) (c, d) (e, f) xy yz pos =
    let h₁ = mul-le-mul_right f xy in
    let h₂ = mul-le-mul_right b yz in
    le_of_mul-le-mul_right {k = d}
      (omega (arith, mul_right_comm a f d, mul_right_comm c b f, mul_right_comm e d b, h₁, h₂)) pos

module _ (store : Dict ℕ Node) where
  -- Its load is a number.
  abbrev pub IsLoad : Subscriber → Type 0
  IsLoad s = 0 < (load_of store s).1

  abbrev pub NoMore : Subscriber → Subscriber → Type 0
  NoMore s t = AtMost (load_of store s) (load_of store t)

  abbrev AreSorted : List Subscriber → Type 0
  AreSorted [] = Unit
  AreSorted (s ∷ subs) = All (NoMore s) subs × AreSorted subs

  All-insert :
      (P : Subscriber → Type 0) (s : Subscriber) (subs : List Subscriber)
      → P s
      → All P subs
      → All P (insert store s subs)
  unfolding insert
  All-insert P s [] p a = (p, tt)
  All-insert P s (t ∷ subs) p a =
      if_cases (All P) (load_leb (load_of store s) (load_of store t)) _ _ (λ b. (p, a))
        (λ b. (a.0, All-insert P s subs p a.1))

  All-sort_by_load :
      (P : Subscriber → Type 0) (subs : List Subscriber)
      → All P subs
      → All P (sort_by_load store subs)
  unfolding sort_by_load
  All-sort_by_load P [] a = tt
  All-sort_by_load P (s ∷ subs) a =
      All-insert P s (sort_by_load store subs) a.0 (All-sort_by_load P subs a.1)

  insert-AreSorted :
      (s : Subscriber) (subs : List Subscriber)
      → All IsLoad subs
      → AreSorted subs
      → AreSorted (insert store s subs)
  unfolding insert load_leb
  insert-AreSorted s [] pos sorted = (tt, tt)
  insert-AreSorted s (t ∷ subs) pos sorted =
      if_cases AreSorted (load_leb (load_of store s) (load_of store t)) _ _
        (λ b.
          let le : NoMore s t = ground (arith, b) in
          (
            (
              le,
              All-map (NoMore t) subs
                  (λ u tu.
                    AtMost-trans (load_of store s) (load_of store t) (load_of store u) le tu pos.0)
                  sorted.0,
            ),
            sorted,
          ))
        (λ b.
          let le : NoMore t s = ground (arith, b) in
          (All-insert (NoMore t) s subs le sorted.0, insert-AreSorted s subs pos.1 sorted.1))

  sort_by_load-AreSorted :
      (subs : List Subscriber) → All IsLoad subs → AreSorted (sort_by_load store subs)
  unfolding sort_by_load
  sort_by_load-AreSorted [] pos = tt
  sort_by_load-AreSorted (s ∷ subs) pos =
      insert-AreSorted s (sort_by_load store subs) (All-sort_by_load IsLoad subs pos.1)
        (sort_by_load-AreSorted subs pos.1)

  -- Whoever has room has no less load than the one that is chosen.
  abbrev pub IsLeast : List Subscriber → Result (Subscriber × Bool) × Dict ℕ Node → Type 0
  IsLeast subs (err e, after) = Unit
  IsLeast subs (ok (s, reserved), after) = All (λ t. IsFull store t ⊎ NoMore s t) subs

  IsLeast-full :
      (s : Subscriber) (subs : List Subscriber) (r : Result (Subscriber × Bool) × Dict ℕ Node)
      → IsFull store s
      → IsLeast subs r
      → IsLeast (s ∷ subs) r
  IsLeast-full s subs (err e, after) f l = tt
  IsLeast-full s subs (ok (t, reserved), after) f l = (inl f, l)

  first_least :
      (s : Subscriber) (subs : List Subscriber)
      → All (NoMore s) subs
      → All (λ t. IsFull store t ⊎ NoMore s t) (s ∷ subs)
  first_least s subs sorted = (inr (omega arith), All-map (NoMore s) subs (λ t le. inr le) sorted)

  pick-IsLeast : (subs : List Subscriber) → AreSorted subs → IsLeast subs (pick store subs)
  unfolding pick try_acquire
  pick-IsLeast [] sorted = tt
  pick-IsLeast (other (a, b) ∷ subs) sorted =
      if_cases {A = Result (Subscriber × Bool) × Dict ℕ Node} (IsLeast (other (a, b) ∷ subs))
        (ltb a b) _ _ (λ l. first_least (other (a, b)) subs sorted.0)
        (λ l.
          IsLeast-full (other (a, b)) subs (pick store subs) (unfold load_of in ground (arith, l))
            (pick-IsLeast subs sorted.1))
  pick-IsLeast (node k ∷ subs) sorted = elim (Option-cases (Dict.get k store)) [
    | inl q ↦
        rw (q, pick)
          (IsLeast-full (node k) subs (pick store subs)
            (unfold load_of in rw (q, load_of) (omega arith)) (pick-IsLeast subs sorted.1))
    | inr (n, q) ↦ elim (Bool-cases (leb (capacity n) n.in_flight)) [
      | inl b ↦
          rw (q, pick, try_acquire, b)
            (IsLeast-full (node k) subs (pick store subs)
              (unfold load_of load in rw (q, load_of) (ground (arith, b)))
              (pick-IsLeast subs sorted.1))
      | inr b ↦ rw (q, pick, try_acquire, b) (first_least (node k) subs sorted.0)
    ]
  ]

  IsLeast-sorted :
      (subs : List Subscriber) (r : Result (Subscriber × Bool) × Dict ℕ Node)
      → IsLeast (sort_by_load store subs) r
      → IsLeast subs r
  IsLeast-sorted subs (err e, after) l = tt
  IsLeast-sorted subs (ok (s, reserved), after) l =
      sort_by_load-All (λ t. IsFull store t ⊎ NoMore s t) store subs l

  pub select-IsLeast : (subs : List Subscriber) → All IsLoad subs → IsLeast subs (select store subs)
  unfolding select
  select-IsLeast subs pos =
      IsLeast-sorted subs (select store subs)
        (pick-IsLeast (sort_by_load store subs) (sort_by_load-AreSorted subs pos))

-- ===== src/Observers/Node/Routed.antt =====
-- eventforge/observers.py, `LeastLoadedDispatcher.route`: one call, and the slot is given back.
use observer_pattern.Prelude.{
  ◌⊎◌, All, ℕ, suc, ◌≡◌, refl, ap, subst, ◌==◌, sym, ◌∙◌, inl, inr, Bool, true, false, some, List,
  arith, if_cases, ltb, Bool-cases, All, nat_eq, if◌then◌else◌,
}
use mathlib.Core.List.{Memᴰ}
use observer_pattern.Prelude.Dict
use observer_pattern.Prelude.Dict.{Dict}
use observer_pattern.Types.{Result, ok, err, runtime_error}
use observer_pattern.Observers.Node.{
  Node, release, Subscriber, node, other, select, release_slot, route,
}
use observer_pattern.Observers.Node.Least.{IsLoad, NoMore, IsLeast, select-IsLeast}
use observer_pattern.Observers.Node.Slots.{IsFull, Chosen, Picks, select_lem}

release_lem : (n : Node) → release (record n { in_flight = suc n.in_flight }) ≡ n
unfolding release
release_lem n =
    if_cases (λ m. m ≡ n) (ltb 0 (suc n.in_flight)) _ _
      (λ _. ap (λ i. record n { in_flight = i }) (omega arith)) (λ b. absurd (ground (arith, b)))

release_slot_lem :
    (k : ℕ) (n : Node) (store : Dict ℕ Node)
    → Dict.get k store ≡ some n
    → (j : ℕ)
    → Dict.get j
        (release_slot (node k) (Dict.set k (record n { in_flight = suc n.in_flight }) store))
      ≡ Dict.get j store
unfolding release_slot
release_slot_lem k n store q j =
    let n₁ : Node = record n { in_flight = suc n.in_flight } in
    let during : Dict ℕ Node = Dict.set k n₁ store in
    rw (Dict.get-set_self k n₁ store, release_slot)
      (rw (release_lem n) (elim (Bool-cases (k == j)) [
        | inl b ↦
            Dict.get-set k j n during
            ∙ rw (b) (sym (subst (λ i. Dict.get i store ≡ some n) ((nat_eq.beq_iff k j).0 b) q))
        | inr b ↦ Dict.get-set k j n during ∙ rw (b) (Dict.get-set k j n₁ store ∙ rw (b) refl)
      ]))

module _ {V E : Type 0} (call : Subscriber → Dict ℕ Node → E → Result V × E) where
  -- A handler that sees the nodes and leaves them alone.
  abbrev pub seeing : Subscriber → Bool → Dict ℕ Node × E → Result V × (Dict ℕ Node × E)
  seeing s reserved (store, env) = let (r, env₁) = call s store env in (r, (store, env₁))

  -- What `route` does: one call, of a subscriber that was chosen, or none where all are full.
  pub data Routes (store : Dict ℕ Node) (subs : List Subscriber) (env : E)
      : Result V → E → Type 0 where
    called :
        (s : Subscriber) (reserved : Bool) (during : Dict ℕ Node)
        → Memᴰ s subs
        → Chosen store (s, reserved) during
        → All (λ t. IsFull store t ⊎ NoMore store s t) subs
        → Routes store subs env (call s during env).0 (call s during env).1
    saturated : All (IsFull store) subs → Routes store subs env (err runtime_error) env

  abbrev pub Settles : Dict ℕ Node → List Subscriber → E → Result V × (Dict ℕ Node × E) → Type 0
  Settles store subs env (r, (after, env₁)) =
      Routes store subs env r env₁ × ((k : ℕ) → Dict.get k after ≡ Dict.get k store)

  abbrev routing : E → Result (Subscriber × Bool) × Dict ℕ Node → Result V × (Dict ℕ Node × E)
  routing env x = elim x.0 [
    | err e ↦ (err e, (x.1, env))
    | ok (chosen, reserved) ↦
        let (answer, (store₂, env₁)) = seeing chosen reserved (x.1, env) in
        (answer, (if reserved then release_slot chosen store₂ else store₂, env₁))
  ]

  routing-Settles :
      (store : Dict ℕ Node) (subs : List Subscriber) (env : E)
      (r : Result (Subscriber × Bool) × Dict ℕ Node)
      → Picks store subs r
      → IsLeast store subs r
      → Settles store subs env (routing env r)
  routing-Settles store subs env (err e, after) p l = (
    subst (λ e. Routes store subs env (err e) env) (sym p.0) (saturated p.2),
    λ k. ap (Dict.get k) p.1,
  )
  routing-Settles store subs env (ok (other (a, b), false), after) p l =
      (called (other (a, b)) false after p.0 p.1 l, λ k. ap (Dict.get k) p.1.1)
  routing-Settles store subs env (ok (other (a, b), true), after) p l = absurd p.1
  routing-Settles store subs env (ok (node j, false), after) p l = absurd p.1
  routing-Settles store subs env (ok (node j, true), after) p l =
      let (n, q, room, same) = p.1 in
      (
        called (node j) true after p.0 p.1 l,
        λ k. ap (λ d. Dict.get k (release_slot (node j) d)) same ∙ release_slot_lem j n store q k,
      )

-- If the handlers leave the nodes' counts alone and every load is a number, `route` calls exactly
-- one of the subscribers, one that has room and of those with room the least load, with a slot of
-- it taken if it is a node, and answers what the call answers, its exception included; or, only if
-- every subscriber is full, it calls none and raises. Either way every node has as much in flight
-- afterwards as before.
pub route-Settles :
    {V E : Type 0} (call : Subscriber → Dict ℕ Node → E → Result V × E) (store : Dict ℕ Node)
    (subs : List Subscriber) (env : E)
    → All (IsLoad store) subs
    → Settles call store subs env (route (seeing call) subs (store, env))
unfolding route
route-Settles call store subs env loads =
    routing-Settles call store subs env (select store subs) (select_lem store subs)
      (select-IsLeast store subs loads)

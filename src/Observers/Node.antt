-- ===== src/Observers/Node.antt =====
-- eventforge/observers.py: `Node` and `LeastLoadedDispatcher`. Nodes are objects that a list of
-- subscribers may hold more than once: they stand in a store, by number. A load is a fraction.
pub mod Slots
pub mod Least
pub mod Routed
use observer_pattern.Prelude.{
  ℕ, zero, suc, ◌+◌, ◌-◌, ◌*◌, ◌/◌, Bool, true, false, not, Option, none, some, List, [], ◌∷◌,
  if◌then◌else◌, ltb, leb, length, nat_eq,
}
use observer_pattern.Prelude.Dict
use observer_pattern.Prelude.Dict.{Dict}
use observer_pattern.Types.{Result, ok, err, runtime_error}

-- Its name, memory and handler do not matter here.
pub record Node : Type 0 where
  pub cpus : ℕ
  pub gpus : List ℕ
  pub in_flight : ℕ

-- `len(self.gpus) or max(self.cpus // 4, 1)`
unfoldable pub capacity : Node → ℕ
capacity n = elim n.gpus [
  | [] ↦ if leb (n.cpus / 4) 1 then 1 else n.cpus / 4
  | g ∷ gpus ↦ suc (length gpus)
]

-- `load`, as numerator and denominator
unfoldable pub load : Node → ℕ × ℕ
load n = (n.in_flight, capacity n)

unfoldable pub try_acquire : Node → Bool × Node
try_acquire n =
    if leb (capacity n) n.in_flight
    then (false, n)
    else (true, record n { in_flight = suc n.in_flight })

unfoldable pub release : Node → Node
release n = if ltb 0 n.in_flight then record n { in_flight = n.in_flight - 1 } else n

-- The two sections of `__call__`, around the handler.
unfoldable pub begin_call : Node → Node
begin_call n = record n { in_flight = suc n.in_flight }

unfoldable pub end_call : Node → Node
end_call n = record n { in_flight = n.in_flight - 1 }

-- A subscriber: a node of the store, or some other callable with the load that it reports.
pub data Subscriber : Type 0 where
  node : ℕ → Subscriber
  other : ℕ × ℕ → Subscriber

-- A reference is always in the store; one that were not would count as full.
unfoldable pub load_of : Dict ℕ Node → Subscriber → ℕ × ℕ
load_of store (node k) = elim (Dict.get k store) [ none ↦ (1, 1) | some n ↦ load n ]
load_of store (other l) = l

-- `a <= b` of two fractions
unfoldable pub load_leb : ℕ × ℕ → ℕ × ℕ → Bool
load_leb (a, b) (c, d) = leb (a * d) (c * b)

-- `sorted(subscribers, key=load)`, which keeps the order of equal loads
unfoldable pub insert : Dict ℕ Node → Subscriber → List Subscriber → List Subscriber
insert store s [] = s ∷ []
insert store s (t ∷ subs) =
    let rest = insert store s subs in
    if load_leb (load_of store s) (load_of store t) then s ∷ t ∷ subs else t ∷ rest

unfoldable pub sort_by_load : Dict ℕ Node → List Subscriber → List Subscriber
sort_by_load store [] = []
sort_by_load store (s ∷ subs) = insert store s (sort_by_load store subs)

-- The loop of `_select`: the subscriber, and whether a slot of it was reserved.
unfoldable pub pick : Dict ℕ Node → List Subscriber → Result (Subscriber × Bool) × Dict ℕ Node
pick store [] = (err runtime_error, store)
pick store (other (a, b) ∷ subs) =
    let rest = pick store subs in if ltb a b then (ok (other (a, b), false), store) else rest
pick store (node k ∷ subs) =
    let rest = pick store subs in
    elim (Dict.get k store) [
      | none ↦ rest
      | some n ↦
          let (acquired, n₁) = try_acquire n in
          if acquired then (ok (node k, true), Dict.set k n₁ store) else rest
    ]

unfoldable pub select : Dict ℕ Node → List Subscriber → Result (Subscriber × Bool) × Dict ℕ Node
select store subs = pick store (sort_by_load store subs)

-- `chosen.release()`, of a node
unfoldable pub release_slot : Subscriber → Dict ℕ Node → Dict ℕ Node
release_slot (other l) store = store
release_slot (node k) store = elim (Dict.get k store) [
  | none ↦ store
  | some n ↦ Dict.set k (release n) store
]

module _ {V E : Type 0}
    (invoke : Subscriber → Bool → Dict ℕ Node × E → Result V × (Dict ℕ Node × E)) where
  -- `LeastLoadedDispatcher.route`; `invoke` calls the handler of a node that is reserved.
  unfoldable pub route : List Subscriber → Dict ℕ Node × E → Result V × (Dict ℕ Node × E)
  route subs (store, env) =
      let (r, store₁) = select store subs in
      elim r [
        | err e ↦ (err e, (store₁, env))
        | ok (chosen, reserved) ↦
            let (answer, (store₂, env₁)) = invoke chosen reserved (store₁, env) in
            (answer, (if reserved then release_slot chosen store₂ else store₂, env₁))
      ]

  -- `LeastLoadedDispatcher.dispatch`: an exception of the subscriber is logged.
  unfoldable pub dispatch :
      List Subscriber → Dict ℕ Node × E → Result (Unit {0}) × (Dict ℕ Node × E)
  dispatch [] world = (ok tt, world)
  dispatch (s ∷ subs) (store, env) =
      let (r, store₁) = select store (s ∷ subs) in
      elim r [
        | err e ↦ (err e, (store₁, env))
        | ok (chosen, reserved) ↦
            let (store₂, env₁) = (invoke chosen reserved (store₁, env)).1 in
            (ok tt, (if reserved then release_slot chosen store₂ else store₂, env₁))
      ]

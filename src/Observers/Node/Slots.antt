-- ===== src/Observers/Node/Slots.antt =====
-- eventforge/observers.py, `LeastLoadedDispatcher._select`: a node never takes more than it can,
-- and nobody is refused while there is room.
use observer_pattern.Prelude.{
  ℕ, suc, ◌<◌, ◌≤◌, ◌≡◌, refl, ap, subst, ◌==◌, sym, ◌∙◌, inl, inr, Bool, true, false, some, List,
  [], ◌∷◌, arith, if_cases, ltb, leb, Bool-cases, Option-cases, All, nat_eq,
}
use mathlib.Core.List.{Memᴰ}
use mathlib.Core.List.Memᴰ
use observer_pattern.Prelude.Dict
use observer_pattern.Prelude.Dict.{Dict}
use observer_pattern.Types.{Result, ok, err, runtime_error}
use observer_pattern.Observers.Node.{
  Node, capacity, load, try_acquire, Subscriber, node, other, load_of, load_leb, insert,
  sort_by_load, pick, select,
}

-- No more is in flight than the node has slots.
abbrev pub IsWithin : Node → Type 0
IsWithin n = n.in_flight ≤ capacity n

abbrev pub AreWithin : Dict ℕ Node → Type 0
AreWithin store = (k : ℕ) (n : Node) → Dict.get k store ≡ some n → IsWithin n

-- No room: its load is 1 or more.
abbrev pub IsFull : Dict ℕ Node → Subscriber → Type 0
IsFull store s = (load_of store s).1 ≤ (load_of store s).0

insert-All :
    (P : Subscriber → Type 0) (store : Dict ℕ Node) (s : Subscriber) (subs : List Subscriber)
    → All P (insert store s subs)
    → P s × All P subs
unfolding insert
insert-All P store s [] a = a
insert-All P store s (t ∷ subs) a =
    if_cases (λ l. All P l → P s × All P (t ∷ subs)) (load_leb (load_of store s) (load_of store t))
      _ _ (λ b h. (h.0, h.1)) (λ b h. let r = insert-All P store s subs h.1 in (r.0, (h.0, r.1))) a

pub sort_by_load-All :
    (P : Subscriber → Type 0) (store : Dict ℕ Node) (subs : List Subscriber)
    → All P (sort_by_load store subs)
    → All P subs
unfolding sort_by_load
sort_by_load-All P store [] a = tt
sort_by_load-All P store (s ∷ subs) a =
    let r = insert-All P store s (sort_by_load store subs) a in
    (r.0, sort_by_load-All P store subs r.1)

insert_mem :
    (store : Dict ℕ Node) (s x : Subscriber) (subs : List Subscriber)
    → Memᴰ x (insert store s subs)
    → Memᴰ x (s ∷ subs)
unfolding insert
insert_mem store s x [] m = m
insert_mem store s x (t ∷ subs) m =
    if_cases (λ l. Memᴰ x l → Memᴰ x (s ∷ t ∷ subs)) (load_leb (load_of store s) (load_of store t))
      _ _ (λ b h. h)
      (λ b h. elim (Memᴰ.cases_cons h) [
        | inl e ↦ Memᴰ.tail (Memᴰ.head e)
        | inr h₁ ↦ elim (Memᴰ.cases_cons (insert_mem store s x subs h₁)) [
          | inl e ↦ Memᴰ.head e
          | inr h₂ ↦ Memᴰ.tail (Memᴰ.tail h₂)
        ]
      ])
      m

sort_by_load_mem :
    (store : Dict ℕ Node) (x : Subscriber) (subs : List Subscriber)
    → Memᴰ x (sort_by_load store subs)
    → Memᴰ x subs
unfolding sort_by_load
sort_by_load_mem store x [] m = m
sort_by_load_mem store x (s ∷ subs) m =
    elim (Memᴰ.cases_cons (insert_mem store s x (sort_by_load store subs) m)) [
      | inl e ↦ Memᴰ.head e
      | inr h ↦ Memᴰ.tail (sort_by_load_mem store x subs h)
    ]

-- A subscriber with room was chosen, and a slot reserved if it is a node.
abbrev pub Chosen : Dict ℕ Node → Subscriber × Bool → Dict ℕ Node → Type 0
Chosen store (node k, true) after =
    (n : Node) × (Dict.get k store ≡ some n)
    × (n.in_flight < capacity n)
    × (after ≡ Dict.set k (record n { in_flight = suc n.in_flight }) store)
Chosen store (other (a, b), false) after = (a < b) × (after ≡ store)
Chosen store _ after = ⊥

abbrev pub Picks : Dict ℕ Node → List Subscriber → Result (Subscriber × Bool) × Dict ℕ Node → Type 0
Picks store subs (ok chosen, after) = Memᴰ chosen.0 subs × Chosen store chosen after
Picks store subs (err e, after) = (e ≡ runtime_error) × (after ≡ store) × All (IsFull store) subs

-- One more subscriber in front that is full.
Picks-full :
    (store : Dict ℕ Node) (s : Subscriber) (subs : List Subscriber)
    (r : Result (Subscriber × Bool) × Dict ℕ Node)
    → IsFull store s
    → Picks store subs r
    → Picks store (s ∷ subs) r
Picks-full store s subs (ok chosen, after) f p = (Memᴰ.tail p.0, p.1)
Picks-full store s subs (err e, after) f p = (p.0, p.1, (f, p.2))

pick-Picks : (store : Dict ℕ Node) (subs : List Subscriber) → Picks store subs (pick store subs)
unfolding pick try_acquire
pick-Picks store [] = (refl, refl, tt)
pick-Picks store (other (a, b) ∷ subs) =
    if_cases {A = Result (Subscriber × Bool) × Dict ℕ Node} (Picks store (other (a, b) ∷ subs))
      (ltb a b) _ _ (λ l. (Memᴰ.head refl, (ground (arith, l), refl)))
      (λ l.
        Picks-full store (other (a, b)) subs (pick store subs) (unfold load_of in ground (arith, l))
          (pick-Picks store subs))
pick-Picks store (node k ∷ subs) = elim (Option-cases (Dict.get k store)) [
  | inl q ↦
      rw (q, pick)
        (Picks-full store (node k) subs (pick store subs)
          (unfold load_of in rw (q, load_of) (omega arith)) (pick-Picks store subs))
  | inr (n, q) ↦ elim (Bool-cases (leb (capacity n) n.in_flight)) [
    | inl b ↦
        rw (q, pick, try_acquire, b)
          (Picks-full store (node k) subs (pick store subs)
            (unfold load_of load in rw (q, load_of) (ground (arith, b))) (pick-Picks store subs))
    | inr b ↦ rw (q, pick, try_acquire, b) (Memᴰ.head refl, (n, q, ground (arith, b), refl))
  ]
]

Picks-sorted :
    (store : Dict ℕ Node) (subs : List Subscriber) (r : Result (Subscriber × Bool) × Dict ℕ Node)
    → Picks store (sort_by_load store subs) r
    → Picks store subs r
Picks-sorted store subs (ok chosen, after) p = (sort_by_load_mem store chosen.0 subs p.0, p.1)
Picks-sorted store subs (err e, after) p =
    (p.0, p.1, sort_by_load-All (IsFull store) store subs p.2)

Picks-AreWithin :
    (store : Dict ℕ Node) (subs : List Subscriber) (r : Result (Subscriber × Bool) × Dict ℕ Node)
    → AreWithin store
    → Picks store subs r
    → AreWithin r.1
unfolding capacity
Picks-AreWithin store subs (err e, after) w p k n h = w k n (ap (Dict.get k) (sym p.1) ∙ h)
Picks-AreWithin store subs (ok (other (a, b), false), after) w p k n h =
    w k n (ap (Dict.get k) (sym p.1.1) ∙ h)
Picks-AreWithin store subs (ok (other (a, b), true), after) w p k n h = absurd p.1
Picks-AreWithin store subs (ok (node j, false), after) w p k n h = absurd p.1
Picks-AreWithin store subs (ok (node j, true), after) w (_, (m, q, room, same)) k n h =
    let m₁ : Node = record m { in_flight = suc m.in_flight } in
    let g : Dict.get k (Dict.set j m₁ store) ≡ some n = ap (Dict.get k) (sym same) ∙ h in
    if_cases (λ x. x ≡ some n → IsWithin n) (j == k) (some m₁) (Dict.get k store)
      (λ b e. let eq : m₁ ≡ n = cc e in subst IsWithin eq (omega (arith, room))) (λ b e. w k n e)
      (sym (Dict.get-set j k m₁ store) ∙ g)

pub select_lem :
    (store : Dict ℕ Node) (subs : List Subscriber) → Picks store subs (select store subs)
unfolding select
select_lem store subs =
    Picks-sorted store subs (select store subs) (pick-Picks store (sort_by_load store subs))

-- If no node has more in flight than it can take, `_select` keeps it so. It chooses one of the
-- subscribers that has room, and reserves a slot of it if it is a node; it raises only if every
-- one is full, and reserves nothing then.
pub select-Picks :
    (store : Dict ℕ Node) (subs : List Subscriber)
    → AreWithin store
    → Picks store subs (select store subs) × AreWithin (select store subs).1
select-Picks store subs w =
    let p = select_lem store subs in (p, Picks-AreWithin store subs (select store subs) w p)

-- ===== src/WorkQueue/Conservation/Dispatch.antt =====
-- eventforge/work_queue.py, `_try_dispatch`: every pending message goes once to each group.
use observer_pattern.Prelude.{
  ℕ, ◌+◌, ◌*◌, ◌<◌, ◌≡◌, refl, ap, sym, ◌∙◌, ◌⊎◌, inl, inr, Bool, true, List, [], ◌∷◌, ◌++◌, arith,
  ltb, ◌==◌, Text, length, All, All-filter, All-map, nat_eq, text_eq, pair_eq, List-cases, subst,
}
use observer_pattern.Prelude.Dict
use observer_pattern.Prelude.Dict.{Dict}
use observer_pattern.Types.{Value, Message}
use observer_pattern.WorkQueue.State.{WorkQueue, pending_of, set_pending, push_back}
use observer_pattern.WorkQueue.Delivery.{
  start_reaper_if_needed, make_in_flight, deliver_to, deliver_to_group, deliver_to_groups, drain,
  try_dispatch, groups_of,
}
use observer_pattern.WorkQueue.Tracked.{
  IsTracked, set_pending-IsTracked, deliver_to-IsTracked, deliver_to_groups-IsTracked,
}
use observer_pattern.WorkQueue.Conservation.{
  weigh, outstanding, outstanding-set_pending, outstanding-deliver_to,
}

module _ {C Q : Type 0} where
  -- The group of the key has a consumer.
  abbrev pub IsManned : WorkQueue C Q → Text × Text → Type 0
  IsManned s key = 0 < length (Dict.get_or key [] s.consumer_groups)

  pub groups_of-IsManned :
      (topic : Text) (s : WorkQueue C Q) → IsTracked s → All (IsManned s) (groups_of topic s)
  groups_of-IsManned topic s v =
      All-filter (IsManned s) (λ key. key.0 == topic) (Dict.keys s.consumer_groups)
        (All-map _ (Dict.keys s.consumer_groups)
          (λ k c. Dict.get_or-All (λ l. 0 < length l) k [] s.consumer_groups v.manned c)
          (Dict.contains-keys s.consumer_groups))

  pub pending_of-set_pending :
      (topic : Text) (l : List Message) (s : WorkQueue C Q)
      → pending_of topic (set_pending topic l s) ≡ l
  unfolding pending_of set_pending Dict.get_or
  pending_of-set_pending topic l s = ground (arith, Dict.get-set_self topic l s.pending)

  pub pending_of-push_back :
      (topic : Text) (m : Message) (s : WorkQueue C Q)
      → pending_of topic (push_back topic m s) ≡ pending_of topic s ++ m ∷ []
  unfolding push_back
  pending_of-push_back topic m s = pending_of-set_pending topic _ s

  -- A delivery changes neither the groups nor what is pending.
  pub deliver_to_groups_frame :
      (now : ℕ) (many : Bool) (m : Message) (topic : Text) (keys : List (Text × Text))
      (s : WorkQueue C Q)
      → let t = (deliver_to_groups now many m topic keys s).1 in
        (t.consumer_groups ≡ s.consumer_groups) × (t.pending ≡ s.pending)
  unfolding deliver_to_groups deliver_to_group deliver_to make_in_flight start_reaper_if_needed
  deliver_to_groups_frame now many m topic [] s = (refl, refl)
  deliver_to_groups_frame now many m topic (key ∷ keys) s =
      elim (List-cases (Dict.get_or key [] s.consumer_groups)) [
        | inl q ↦ rw (q, deliver_to_group) (deliver_to_groups_frame now many m topic keys s)
        | inr (e, es, q) ↦
            rw (q, deliver_to_group)
              (deliver_to_groups_frame now many m topic keys
                (deliver_to now many m topic key (e ∷ es) s))
      ]

  module _ (w : Value → ℕ) where
    outstanding-deliver_to_groups :
        (now : ℕ) (many : Bool) (m : Message) (topic : Text) (keys : List (Text × Text))
        (s : WorkQueue C Q)
        → IsTracked s
        → All (IsManned s) keys
        → let (some_group, t) = deliver_to_groups now many m topic keys s in
          (outstanding w t ≡ outstanding w s + length keys * w m.payload)
          × (0 < length keys → some_group ≡ true)
    unfolding deliver_to_groups deliver_to_group
    outstanding-deliver_to_groups now many m topic [] s v a =
        (omega arith, λ h. absurd (omega arith))
    outstanding-deliver_to_groups now many m topic (key ∷ keys) s v a =
        elim (List-cases (Dict.get_or key [] s.consumer_groups)) [
          | inl q ↦ absurd (ground (arith, q, a.0))
          | inr (e, es, q) ↦
              let s₁ = deliver_to now many m topic key (e ∷ es) s in
              let u =
                outstanding-deliver_to_groups now many m topic keys s₁
                  (deliver_to-IsTracked now many m topic key (e ∷ es) s v)
                  (unfold deliver_to make_in_flight start_reaper_if_needed in a.1) in
              let x = outstanding-deliver_to w now many m topic key (e ∷ es) s v in
              rw (q, deliver_to_group) (omega (arith, u.0, x), λ _. refl)
        ]

    outstanding-drain :
        (now : ℕ) (topic : Text) (groups : List (Text × Text)) (l : List Message)
        (s : WorkQueue C Q)
        → IsTracked s
        → All (IsManned s) groups
        → 0 < length groups
        → pending_of topic s ≡ l
        → let t = drain now topic groups l s in
          (outstanding w t + weigh w l ≡ outstanding w s + length groups * weigh w l)
          × (pending_of topic t ≡ [])
    unfolding drain weigh
    outstanding-drain now topic groups [] s v a h p = (omega arith, p)
    outstanding-drain now topic groups (m ∷ rest) s v a h p =
        let many = ltb 1 (length groups) in
        let s₁ = set_pending topic rest s in
        let v₁ = set_pending-IsTracked topic rest s v in
        let x = outstanding-set_pending w topic rest s in
        let y =
          outstanding-deliver_to_groups now many m topic groups s₁ v₁ (unfold set_pending in a) in
        let s₂ = (deliver_to_groups now many m topic groups s₁).1 in
        let f = deliver_to_groups_frame now many m topic groups s₁ in
        let z =
          outstanding-drain now topic groups rest s₂
            (deliver_to_groups-IsTracked now many m topic groups s₁ v₁)
            (All-map (IsManned s) groups
              (λ k q.
                unfold set_pending in subst (λ g. 0 < length (Dict.get_or k [] g)) (sym f.0) q)
              a)
            h
            (unfold pending_of in
              ap (Dict.get_or topic []) f.1 ∙ pending_of-set_pending topic rest s) in
        rw (y.1 h) (omega (arith, x, ap (weigh w) p, y.0, z.0), z.1)

    -- If some group listens on the topic, a dispatch leaves nothing pending there, and what is
    -- outstanding grows by one copy of each pending message for each group beyond the first; if
    -- none does, the queue stays as it is.
    pub outstanding-try_dispatch :
        (now : ℕ) (topic : Text) (s : WorkQueue C Q)
        → IsTracked s
        → ((groups_of topic s ≡ []) × (try_dispatch now topic s ≡ s))
          ⊎ ((0 < length (groups_of topic s))
              × (pending_of topic (try_dispatch now topic s) ≡ [])
              × (outstanding w (try_dispatch now topic s) + weigh w (pending_of topic s)
                  ≡ outstanding w s + length (groups_of topic s) * weigh w (pending_of topic s)))
    unfolding try_dispatch
    outstanding-try_dispatch now topic s v = elim (List-cases (groups_of topic s)) [
      | inl q ↦ inl (q, rw (q, try_dispatch))
      | inr (k, ks, q) ↦
          let z =
            outstanding-drain now topic (k ∷ ks) (pending_of topic s) s v
              (subst (All (IsManned s)) q (groups_of-IsManned topic s v)) (omega arith) refl in
          rw (q, try_dispatch) (inr (omega arith, z.1, z.0))
    ]

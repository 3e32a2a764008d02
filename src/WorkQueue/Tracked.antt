-- ===== src/WorkQueue/Tracked.antt =====
-- eventforge/work_queue.py: the deliveries in flight are told apart by their uuids, and every
-- consumer group has a consumer.
pub mod Methods
pub mod Run
use observer_pattern.Prelude.{
  ℕ, zero, suc, ◌+◌, ◌%◌, ◌≤◌, ◌<◌, ◌≡◌, refl, ap, inl, inr, Bool, true, false, Option, none, some,
  List, [], ◌∷◌, ◌++◌, arith, if◌then◌else◌, ltb, ◌==◌, Text, length, get_elem?, All, nat_eq,
  text_eq, pair_eq, Bool-cases, Option-cases, List-cases,
}
use observer_pattern.Prelude.Dict
use observer_pattern.Prelude.Dict.{Dict}
use observer_pattern.Types.{Message, plus_one}
use observer_pattern.WorkQueue.State.{
  InFlightEntry, Invocation, WorkQueue, pending_of, set_pending, push_back, push_front,
}
use observer_pattern.WorkQueue.Delivery.{
  start_reaper_if_needed, make_in_flight, dead_letter, deliver_to, deliver_to_group,
  deliver_to_groups, drain, try_dispatch, entry_for, groups_of,
}

-- The key of an entry is its delivery id, and was drawn before.
abbrev pub IsKeyed : ℕ → ℕ × InFlightEntry → Type 0
IsKeyed uuids (k, e) = (k < uuids) × (e.delivery_id ≡ k)

IsKeyed-mono : (m n : ℕ) (d : Dict ℕ InFlightEntry) → m ≤ n → All (IsKeyed m) d → All (IsKeyed n) d
IsKeyed-mono m n [] h a = tt
IsKeyed-mono m n ((k, e) ∷ d) h a = ((omega arith, a.0.1), IsKeyed-mono m n d h a.1)

pub fresh_key : (n : ℕ) (d : Dict ℕ InFlightEntry) → All (IsKeyed n) d → Dict.get n d ≡ none
unfolding Dict.get
fresh_key n [] a = refl
fresh_key n ((k, e) ∷ d) a = ground (arith, fresh_key n d a.1)

module _ {C Q : Type 0} where
  pub record IsTracked (s : WorkQueue C Q) : Type 0 where
    pub keyed : All (IsKeyed s.uuids) s.in_flight
    pub distinct : Dict.IsDict s.in_flight
    pub manned : All (λ g. 0 < length g.1) s.consumer_groups

  pub make_in_flight-IsTracked :
      (now : ℕ) (msg : Message) (topic group : Text) (s : WorkQueue C Q)
      → IsTracked s
      → IsTracked (make_in_flight now msg topic group s).1
  unfolding make_in_flight start_reaper_if_needed
  make_in_flight-IsTracked now msg topic group s v = record {
    keyed =
        Dict.All-set (IsKeyed (suc s.uuids)) s.uuids
          (entry_for s.default_visibility_timeout now topic group msg s.uuids) s.in_flight
          (omega arith, refl)
          (IsKeyed-mono s.uuids (suc s.uuids) s.in_flight (omega arith) v.keyed);
    distinct = Dict.set-IsDict s.uuids _ s.in_flight v.distinct;
    manned = v.manned;
  }

  pub push_back-IsTracked :
      (topic : Text) (msg : Message) (s : WorkQueue C Q)
      → IsTracked s
      → IsTracked (push_back topic msg s)
  unfolding push_back set_pending
  push_back-IsTracked topic msg s v = record {
    keyed = v.keyed;
    distinct = v.distinct;
    manned = v.manned;
  }

  pub push_front-IsTracked :
      (topic : Text) (msg : Message) (s : WorkQueue C Q)
      → IsTracked s
      → IsTracked (push_front topic msg s)
  unfolding push_front set_pending
  push_front-IsTracked topic msg s v = record {
    keyed = v.keyed;
    distinct = v.distinct;
    manned = v.manned;
  }

  pub set_pending-IsTracked :
      (topic : Text) (l : List Message) (s : WorkQueue C Q)
      → IsTracked s
      → IsTracked (set_pending topic l s)
  unfolding set_pending
  set_pending-IsTracked topic l s v = record {
    keyed = v.keyed;
    distinct = v.distinct;
    manned = v.manned;
  }

  -- Draws of a uuid that no delivery takes.
  pub draw-IsTracked :
      (n : ℕ) (s : WorkQueue C Q) → s.uuids ≤ n → IsTracked s → IsTracked (record s { uuids = n })
  draw-IsTracked n s h v = record {
    keyed = IsKeyed-mono s.uuids n s.in_flight h v.keyed;
    distinct = v.distinct;
    manned = v.manned;
  }

  pub dead_letter-IsTracked :
      (now : ℕ) (msg : Message) (topic reason : Text) (s : WorkQueue C Q)
      → IsTracked s
      → IsTracked (dead_letter now msg topic reason s)
  unfolding dead_letter
  dead_letter-IsTracked now msg topic reason s v =
      push_back-IsTracked _ _ _ (draw-IsTracked (suc s.uuids) s (omega arith) v)

  pub deliver_to-IsTracked :
      (now : ℕ) (many : Bool) (msg : Message) (topic : Text) (key : Text × Text)
      (entries : List (ℕ × C)) (s : WorkQueue C Q)
      → IsTracked s
      → IsTracked (deliver_to now many msg topic key entries s)
  unfolding deliver_to
  deliver_to-IsTracked now many msg topic key entries s v =
      let n : ℕ = if many then suc s.uuids else s.uuids in
      let u =
        make_in_flight-IsTracked now (record msg { id = if many then s.uuids else msg.id }) topic
          key.1 (record s { uuids = n }) (draw-IsTracked n s (ground arith) v) in
      record { keyed = u.keyed; distinct = u.distinct; manned = u.manned }

  pub deliver_to_groups-IsTracked :
      (now : ℕ) (many : Bool) (msg : Message) (topic : Text) (keys : List (Text × Text))
      (s : WorkQueue C Q)
      → IsTracked s
      → IsTracked (deliver_to_groups now many msg topic keys s).1
  unfolding deliver_to_groups deliver_to_group
  deliver_to_groups-IsTracked now many msg topic [] s v = v
  deliver_to_groups-IsTracked now many msg topic (key ∷ keys) s v =
      elim (List-cases (Dict.get_or key [] s.consumer_groups)) [
        | inl q ↦ rw (q, deliver_to_group) (deliver_to_groups-IsTracked now many msg topic keys s v)
        | inr (e, es, q) ↦
            rw (q, deliver_to_group)
              (deliver_to_groups-IsTracked now many msg topic keys
                (deliver_to now many msg topic key (e ∷ es) s)
                (deliver_to-IsTracked now many msg topic key (e ∷ es) s v))
      ]

  pub drain-IsTracked :
      (now : ℕ) (topic : Text) (groups : List (Text × Text)) (l : List Message) (s : WorkQueue C Q)
      → IsTracked s
      → IsTracked (drain now topic groups l s)
  unfolding drain
  drain-IsTracked now topic groups [] s v = v
  drain-IsTracked now topic groups (msg ∷ rest) s v =
      let many = ltb 1 (length groups) in
      let s₁ = set_pending topic rest s in
      let u =
        deliver_to_groups-IsTracked now many msg topic groups s₁
          (set_pending-IsTracked topic rest s v) in
      elim (Bool-cases (deliver_to_groups now many msg topic groups s₁).0) [
        | inl q ↦ rw q (drain-IsTracked now topic groups rest _ u)
        | inr q ↦ rw q (push_front-IsTracked topic msg _ u)
      ]

  pub try_dispatch-IsTracked :
      (now : ℕ) (topic : Text) (s : WorkQueue C Q)
      → IsTracked s
      → IsTracked (try_dispatch now topic s)
  unfolding try_dispatch
  try_dispatch-IsTracked now topic s v = elim (List-cases (groups_of topic s)) [
    | inl q ↦ rw (q, try_dispatch) v
    | inr (k, ks, q) ↦
        rw (q, try_dispatch) (drain-IsTracked now topic (k ∷ ks) (pending_of topic s) s v)
  ]

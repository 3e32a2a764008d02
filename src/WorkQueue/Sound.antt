-- ===== src/WorkQueue/Sound.antt =====
-- eventforge/work_queue.py: what the queue's own headers hold while no caller overrides them, in
-- what is pending and in what is in flight.

pub mod Methods
pub mod Run
use observer_pattern.Prelude.{
  ℕ, zero, suc, ◌-◌, ◌%◌, ◌≤◌, ◌<◌, ◌≡◌, refl, sym, ap, ◌∙◌, subst, inl, inr, Bool, true, false,
  Option, none, some, List, [], ◌∷◌, ◌++◌, arith, if◌then◌else◌, ltb, ◌==◌, Text, length, All,
  All-append, nat_eq, text_eq, pair_eq, Bool-cases, Option-cases, List-cases,
}
use observer_pattern.Prelude.Keys.{text_beq}
use observer_pattern.Prelude.Dict
use observer_pattern.Prelude.Dict.{Dict}
use observer_pattern.Types.{Value, num, Headers, Message, plus_one}
use observer_pattern.WorkQueue.State.{
  InFlightEntry, WorkQueue, pending_of, set_pending, push_back, push_front, retry_key,
  visibility_key, delivery_id_key, original_topic_key, dead_lettered_at_key, dead_letter_reason_key,
}
use observer_pattern.WorkQueue.Delivery.{
  start_reaper_if_needed, make_in_flight, dead_letter, deliver_to, deliver_to_group,
  deliver_to_groups, drain, try_dispatch, entry_for, groups_of, dead_message,
}
use observer_pattern.WorkQueue.Nack.{with_retry_count}

-- A retry count below the limit; zero where the limit is.
abbrev pub IsCount : ℕ → Value → Type 0
IsCount limit v = (n : ℕ) × (v ≡ num n) × (n ≤ limit - 1)

abbrev pub IsNumber : Value → Type 0
IsNumber v = (n : ℕ) × (v ≡ num n)

abbrev pub HasCounts : ℕ → Headers → Type 0
HasCounts limit headers =
    ((v : Value) × (Dict.get retry_key headers ≡ some v) × IsCount limit v)
    × ((v : Value) × (Dict.get visibility_key headers ≡ some v) × IsNumber v)

abbrev pub IsCounted : ℕ → InFlightEntry → Type 0
IsCounted limit entry =
    IsCount limit entry.retry_count
    × IsNumber entry.visibility_timeout
    × HasCounts limit entry.message.headers

-- The headers that `_dead_letter` and `_make_in_flight` set are others.
other_header :
    (limit : ℕ) (k : Text) (v : Value) (headers : Headers)
    → text_beq k retry_key ≡ false
    → text_beq k visibility_key ≡ false
    → HasCounts limit headers
    → HasCounts limit (Dict.set k v headers)
other_header limit k v headers p q ((c, e, h), (t, f, g)) = (
  (c, ground (arith, Dict.get-set k retry_key v headers), h),
  (t, ground (arith, Dict.get-set k visibility_key v headers), g),
)

pub dead_message-HasCounts :
    (limit now id : ℕ) (msg : Message) (topic reason : Text)
    → HasCounts limit msg.headers
    → HasCounts limit (dead_message now id msg topic reason).headers
unfolding text_beq
dead_message-HasCounts limit now id msg topic reason h =
    other_header limit original_topic_key _ _ refl refl (
      other_header limit dead_letter_reason_key _ _ refl refl
        (other_header limit dead_lettered_at_key _ _ refl refl h))

pub with_retry_count-HasCounts :
    (limit n : ℕ) (msg : Message)
    → n < limit
    → HasCounts limit msg.headers
    → HasCounts limit (with_retry_count n msg).headers
unfolding text_beq
with_retry_count-HasCounts limit n msg l (c, (t, f, g)) = (
  (num n, Dict.get-set_self retry_key (num n) msg.headers, (n, refl, omega arith)),
  (t, Dict.get-set retry_key visibility_key (num n) msg.headers ∙ f, g),
)

entry_for-IsCounted :
    (limit default now : ℕ) (topic group : Text) (msg : Message) (delivery_id : ℕ)
    → HasCounts limit msg.headers
    → IsCounted limit (entry_for default now topic group msg delivery_id)
unfolding Dict.get_or
entry_for-IsCounted limit default now topic group msg delivery_id
      ((c, e, (n, q, h)), (t, f, (m, r))) =
    ((n, rw (e, Dict.get_or) q, h), (m, rw (f, Dict.get_or) r), ((c, e, (n, q, h)), (t, f, (m, r))))

module _ {C Q : Type 0} where
  pub record IsSound (limit : ℕ) (s : WorkQueue C Q) : Type 0 where
    pub bound : s.max_retries ≡ limit
    pub waiting : All (λ g. All (λ m. HasCounts limit m.headers) g.1) s.pending
    pub flying : All (λ e. IsCounted limit e.1) s.in_flight
    pub alive : s.reaper_running ≡ true → s.reaper_alive ≡ true

  pub pending_of-HasCounts :
      (limit : ℕ) (topic : Text) (s : WorkQueue C Q)
      → IsSound limit s
      → All (λ m. HasCounts limit m.headers) (pending_of topic s)
  unfolding pending_of Dict.get_or
  pending_of-HasCounts limit topic s v = elim (Option-cases (Dict.get topic s.pending)) [
    | inl q ↦ rw (q, Dict.get_or) tt
    | inr (l, q) ↦
        rw (q, Dict.get_or)
          (Dict.get-All (λ g. All (λ m. HasCounts limit m.headers) g.1) topic l s.pending v.waiting
            q)
  ]

  pub set_pending-IsSound :
      (limit : ℕ) (topic : Text) (l : List Message) (s : WorkQueue C Q)
      → All (λ m. HasCounts limit m.headers) l
      → IsSound limit s
      → IsSound limit (set_pending topic l s)
  unfolding set_pending
  set_pending-IsSound limit topic l s h v = record {
    bound = v.bound;
    waiting =
        Dict.All-set (λ g. All (λ m. HasCounts limit m.headers) g.1) topic l s.pending h v.waiting;
    flying = v.flying;
    alive = v.alive;
  }

  pub push_back-IsSound :
      (limit : ℕ) (topic : Text) (msg : Message) (s : WorkQueue C Q)
      → HasCounts limit msg.headers
      → IsSound limit s
      → IsSound limit (push_back topic msg s)
  unfolding push_back
  push_back-IsSound limit topic msg s h v =
      set_pending-IsSound limit topic _ s
        (All-append (λ m. HasCounts limit m.headers) _ (msg ∷ [])
          (pending_of-HasCounts limit topic s v) (h, tt))
        v

  pub push_front-IsSound :
      (limit : ℕ) (topic : Text) (msg : Message) (s : WorkQueue C Q)
      → HasCounts limit msg.headers
      → IsSound limit s
      → IsSound limit (push_front topic msg s)
  unfolding push_front
  push_front-IsSound limit topic msg s h v =
      set_pending-IsSound limit topic _ s (h, pending_of-HasCounts limit topic s v) v

  pub draw-IsSound :
      (limit n : ℕ) (s : WorkQueue C Q) → IsSound limit s → IsSound limit (record s { uuids = n })
  draw-IsSound limit n s v = record {
    bound = v.bound;
    waiting = v.waiting;
    flying = v.flying;
    alive = v.alive;
  }

  pub dead_letter-IsSound :
      (limit now : ℕ) (msg : Message) (topic reason : Text) (s : WorkQueue C Q)
      → HasCounts limit msg.headers
      → IsSound limit s
      → IsSound limit (dead_letter now msg topic reason s)
  unfolding dead_letter
  dead_letter-IsSound limit now msg topic reason s h v =
      push_back-IsSound limit _ _ _ (dead_message-HasCounts limit now s.uuids msg topic reason h)
        (draw-IsSound limit (suc s.uuids) s v)

  pub make_in_flight-IsSound :
      (limit now : ℕ) (msg : Message) (topic group : Text) (s : WorkQueue C Q)
      → HasCounts limit msg.headers
      → IsSound limit s
      → IsSound limit (make_in_flight now msg topic group s).1
  unfolding make_in_flight start_reaper_if_needed
  make_in_flight-IsSound limit now msg topic group s h v = record {
    bound = v.bound;
    waiting = v.waiting;
    flying =
        Dict.All-set (λ e. IsCounted limit e.1) s.uuids _ s.in_flight
          (entry_for-IsCounted limit s.default_visibility_timeout now topic group msg s.uuids h)
          v.flying;
    alive = λ _. ground (arith, v.alive);
  }

  deliver_to-IsSound :
      (limit now : ℕ) (many : Bool) (msg : Message) (topic : Text) (key : Text × Text)
      (entries : List (ℕ × C)) (s : WorkQueue C Q)
      → HasCounts limit msg.headers
      → IsSound limit s
      → IsSound limit (deliver_to now many msg topic key entries s)
  unfolding deliver_to
  deliver_to-IsSound limit now many msg topic key entries s h v =
      let u =
        make_in_flight-IsSound limit now (record msg { id = if many then s.uuids else msg.id })
          topic key.1 (record s { uuids = if many then suc s.uuids else s.uuids }) h
          (draw-IsSound limit _ s v) in
      record { bound = u.bound; waiting = u.waiting; flying = u.flying; alive = u.alive }

  deliver_to_groups-IsSound :
      (limit now : ℕ) (many : Bool) (msg : Message) (topic : Text) (keys : List (Text × Text))
      (s : WorkQueue C Q)
      → HasCounts limit msg.headers
      → IsSound limit s
      → IsSound limit (deliver_to_groups now many msg topic keys s).1
  unfolding deliver_to_groups deliver_to_group
  deliver_to_groups-IsSound limit now many msg topic [] s h v = v
  deliver_to_groups-IsSound limit now many msg topic (key ∷ keys) s h v =
      elim (List-cases (Dict.get_or key [] s.consumer_groups)) [
        | inl q ↦
            rw (q, deliver_to_group) (deliver_to_groups-IsSound limit now many msg topic keys s h v)
        | inr (e, es, q) ↦
            rw (q, deliver_to_group)
              (deliver_to_groups-IsSound limit now many msg topic keys
                (deliver_to now many msg topic key (e ∷ es) s) h
                (deliver_to-IsSound limit now many msg topic key (e ∷ es) s h v))
      ]

  drain-IsSound :
      (limit now : ℕ) (topic : Text) (groups : List (Text × Text)) (l : List Message)
      (s : WorkQueue C Q)
      → All (λ m. HasCounts limit m.headers) l
      → IsSound limit s
      → IsSound limit (drain now topic groups l s)
  unfolding drain
  drain-IsSound limit now topic groups [] s h v = v
  drain-IsSound limit now topic groups (msg ∷ rest) s h v =
      let many = ltb 1 (length groups) in
      let s₁ = set_pending topic rest s in
      let u =
        deliver_to_groups-IsSound limit now many msg topic groups s₁ h.0
          (set_pending-IsSound limit topic rest s h.1 v) in
      elim (Bool-cases (deliver_to_groups now many msg topic groups s₁).0) [
        | inl q ↦ rw q (drain-IsSound limit now topic groups rest _ h.1 u)
        | inr q ↦ rw q (push_front-IsSound limit topic msg _ h.0 u)
      ]

  pub try_dispatch-IsSound :
      (limit now : ℕ) (topic : Text) (s : WorkQueue C Q)
      → IsSound limit s
      → IsSound limit (try_dispatch now topic s)
  unfolding try_dispatch
  try_dispatch-IsSound limit now topic s v = elim (List-cases (groups_of topic s)) [
    | inl q ↦ rw (q, try_dispatch) v
    | inr (k, ks, q) ↦
        rw (q, try_dispatch)
          (drain-IsSound limit now topic (k ∷ ks) (pending_of topic s) s
            (pending_of-HasCounts limit topic s v) v)
  ]

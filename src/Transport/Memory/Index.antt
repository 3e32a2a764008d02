-- ===== src/Transport/Memory/Index.antt =====
-- eventforge/transports/memory.py: the indices of the subscriptions agree.
use observer_pattern.Prelude.{
  ℕ, ◌≡◌, ◌≢◌, refl, sym, ◌∙◌, inl, inr, Bool, false, not, arith, if_cases, Text, nat_eq, text_eq,
  Bool-cases,
}
use observer_pattern.Prelude.Dict
use observer_pattern.Prelude.Dict.{Dict}
use observer_pattern.Types.{Result}
use observer_pattern.Transport.Memory.{MemoryTransport, subscribe, unsubscribe, close}

contains-set_cong :
    {V W : Type 0} (k j : ℕ) (v : V) (x : W) (d : Dict ℕ V) (c : Dict ℕ W)
    → Dict.contains k d ≡ Dict.contains k c
    → Dict.contains k (Dict.set j v d) ≡ Dict.contains k (Dict.set j x c)
unfolding Dict.contains
contains-set_cong k j v x d c h = ground (arith, Dict.get-set j k v d, Dict.get-set j k x c)

contains-erase_cong :
    {V W : Type 0} (k j : ℕ) (d : Dict ℕ V) (c : Dict ℕ W)
    → Dict.contains k d ≡ Dict.contains k c
    → Dict.contains k (Dict.erase j d) ≡ Dict.contains k (Dict.erase j c)
unfolding Dict.contains
contains-erase_cong k j d c h = ground (arith, Dict.get-erase j k d, Dict.get-erase j k c)

module _ {C : Type 0} where
  -- Whether a subscription has a callback, and whether it has a pattern.
  abbrev pub IsIndexed : MemoryTransport C → Type 0
  IsIndexed t = (k : ℕ) → Dict.contains k t.subscribers ≡ Dict.contains k t.sub_topic

  -- `subscribe` on an open transport and `unsubscribe` keep it so that a subscription has a
  -- callback exactly if it has a pattern; so does `close`, which forgets them all.
  pub subscription-IsIndexed :
      (t : MemoryTransport C) (topic : Text) (callback : C) (sub_id : ℕ)
      → IsIndexed t
      → IsIndexed (subscribe topic callback t).1
        × IsIndexed (unsubscribe sub_id t).1
        × IsIndexed (close t)
  unfolding subscribe unsubscribe close Dict.contains Dict.get
  subscription-IsIndexed t topic callback sub_id h = (
    if_cases {A = Result ℕ × MemoryTransport C} (λ r. IsIndexed r.1) t.closed _ _ (λ _. h)
        (λ _ k. contains-set_cong k t.uuids callback topic t.subscribers t.sub_topic (h k)),
    if_cases {A = Bool × MemoryTransport C} (λ r. IsIndexed r.1)
        (not (Dict.contains sub_id t.subscribers)) _ _ (λ _. h)
        (λ _ k. contains-erase_cong k sub_id t.subscribers t.sub_topic (h k)),
    λ k. refl,
  )

  -- `unsubscribe` answers whether the subscription was there; after it neither its callback nor its
  -- pattern is, no other subscription has changed, and a second call answers False.
  pub unsubscribe_removes :
      (t : MemoryTransport C) (sub_id : ℕ)
      → IsIndexed t
      → let (found, u) = unsubscribe sub_id t in
        (found ≡ Dict.contains sub_id t.subscribers)
        × (Dict.contains sub_id u.subscribers ≡ false)
        × (Dict.contains sub_id u.sub_topic ≡ false)
        × ((j : ℕ) → sub_id ≢ j → Dict.get j u.subscribers ≡ Dict.get j t.subscribers)
        × ((j : ℕ) → sub_id ≢ j → Dict.get j u.sub_topic ≡ Dict.get j t.sub_topic)
        × ((unsubscribe sub_id u).0 ≡ false)
  unfolding unsubscribe
  unsubscribe_removes t sub_id h = elim (Bool-cases (Dict.contains sub_id t.subscribers)) [
    | inl q ↦
        let e = Dict.contains-erase_self sub_id t.subscribers in
        rw q (
          refl,
          e,
          Dict.contains-erase_self sub_id t.sub_topic,
          λ j n. Dict.get-erase_ne sub_id j t.subscribers n,
          λ j n. Dict.get-erase_ne sub_id j t.sub_topic n,
          rw e,
        )
    | inr q ↦ rw q (refl, q, sym (h sub_id) ∙ q, λ j n. refl, λ j n. refl, rw q)
  ]

-- ===== src/Rpc/Exchange/Served.antt =====
-- eventforge/rpc.py over eventforge/transports/memory.py: a message on a queue only the server
-- listens on.
use observer_pattern.Prelude.{
  ℕ, ◌≡◌, ◌≢◌, ◌<◌, refl, sym, ap, subst, ◌∙◌, inl, inr, Bool, true, false, none, some, [], ◌∷◌,
  arith, if_cases, ltb, if◌then◌else◌, length, Text, codes, All-append, nat_eq, text_eq, Bool-cases,
}
use observer_pattern.Prelude.Dict
use observer_pattern.Prelude.Dict.{Dict}
use observer_pattern.Types.{Message, Result, ok, err}
use observer_pattern.Transport.Patterns.{memory_matches}
use observer_pattern.Transport.Patterns.Wildcards.{IsPlain}
use observer_pattern.Transport.Memory
use observer_pattern.Transport.Memory.{
  MemoryTransport, World, queue_of, put_nowait, notify_one, notify,
}
use observer_pattern.Transport.Memory.Delivery.{HasRoom, enqueued, put_nowait-Stored}
use observer_pattern.Observers.Dispatch.{broadcast}
use observer_pattern.Observers.Channel.{Eventful, fire, fire_owner}
use observer_pattern.Queue.{relay}
use observer_pattern.Rpc.Server.{RpcServer}
use observer_pattern.Rpc.Client.{reply_topic, request_topic}
use observer_pattern.Rpc.Exchange.{Handler, handles_request, Site, handle}

-- The server listens on its request topic, and nobody else on the queue.
pub record Serves (service : Text) (t : MemoryTransport Text)
    (topics : Dict Text (Eventful Handler)) : Type 0 where
  pub is_open : t.closed ≡ false
  pub sub_id : ℕ
  pub subscribed : t.subscribers ≡ (sub_id, request_topic service) ∷ []
  pub pattern : Dict.get sub_id t.sub_topic ≡ some (request_topic service)
  pub channel :
      Dict.get (request_topic service) topics
      ≡ some (record { subscribers = handles_request ∷ []; owner = none; name = none })

pub request_topic-IsPlain : (service : Text) → IsPlain service → IsPlain (request_topic service)
unfolding request_topic
request_topic-IsPlain service a = All-append _ service (codes ".request") a (ground arith)

pub reply_topic_ne : (service id : Text) → IsPlain service → request_topic service ≢ reply_topic id
unfolding request_topic reply_topic
reply_topic_ne [] id a e = absurd (cc e)
reply_topic_ne (c ∷ s) id a e = absurd (ground (arith, a.0))

-- What a message does to a site whose queue only the server listens on.
abbrev pub relayed :
    {E : Type 0} → (Text → Message → Site E → Bool × Site E) → Text → Message → Site E → Site E
relayed invoke service m site =
    if memory_matches m.topic (request_topic service)
    then (invoke (request_topic service) m site).1
    else site

abbrev pub stored : {E : Type 0} → Message → Site E → Result (Unit {0}) × Site E
stored m (t, rest) = let (r, u) = put_nowait m t in (r, (u, rest))

module _ {E : Type 0} (service : Text) where
  pub send_served :
      (invoke : Text → Message → Site E → Bool × Site E) (m : Message) (t : MemoryTransport Text)
      (topics : Dict Text (Eventful Handler)) (server : RpcServer E × E)
      → Serves service t topics
      → Memory.send invoke m (t, (topics, server))
        ≡ stored m (relayed invoke service m (t, (topics, server)))
  unfolding Memory.send notify notify_one
  send_served invoke m t topics server v =
      let site : Site E = (t, (topics, server)) in
      let one : notify invoke m t.subscribers site ≡ relayed invoke service m site =
        ap (λ l. notify invoke m l site) v.subscribed ∙ rw (v.pattern, notify_one) refl in
      if_cases {A = Result (Unit {0}) × Site E} (λ x. x ≡ stored m (relayed invoke service m site))
        t.closed _ _ (λ closed. absurd (cc (closed, v.is_open))) (λ b. ap (stored m) one)

pub put_nowait_room :
    {C : Type 0} (m : Message) (t : MemoryTransport C)
    → HasRoom m.topic t
    → put_nowait m t ≡ (ok tt, enqueued m t)
put_nowait_room m t room = elim (put_nowait-Stored m t) [
  | inl (_, e) ↦ e
  | inr (pos, full, e) ↦ absurd (elim room [ inl z ↦ omega arith | inr l ↦ omega arith ])
]

pub HasRoom-empty :
    {C : Type 0} (topic : Text) (t : MemoryTransport C) → queue_of topic t ≡ [] → HasRoom topic t
HasRoom-empty topic t e = elim (Bool-cases (ltb 0 t.max_queue_size)) [
  | inl b ↦ inr (subst (λ l. length l < t.max_queue_size) (sym e) (ground arith))
  | inr b ↦ inl (ground arith)
]

module _ {E : Type 0} (service : Text) where
  pub send_unheard :
      (invoke : Text → Message → Site E → Bool × Site E) (m : Message) (t : MemoryTransport Text)
      (topics : Dict Text (Eventful Handler)) (server : RpcServer E × E)
      → Serves service t topics
      → memory_matches m.topic (request_topic service) ≡ false
      → HasRoom m.topic t
      → Memory.send invoke m (t, (topics, server)) ≡ (ok tt, (enqueued m t, (topics, server)))
  send_unheard invoke m t topics server v unheard room =
      send_served service invoke m t topics server v
      ∙ rw unheard (
          ap {A = Result (Unit {0}) × MemoryTransport Text} {B = Result (Unit {0}) × Site E}
            (λ x. (x.0, (x.1, (topics, server)))) (put_nowait_room m t room))

module _ {C A E : Type 0} (invoke : C → A → E → Result (Unit {0}) × E) where
  fire_one :
      (fn : C) (args : A) (env env₁ : E)
      → invoke fn args env ≡ (ok tt, env₁)
      → fire invoke
          (broadcast invoke)
          []
          (record { subscribers = fn ∷ []; owner = none; name = none })
          args
          env
        ≡ (ok tt, env₁)
  unfolding fire broadcast fire_owner
  fire_one fn args env env₁ e =
      ap {A = Result (Unit {0}) × E} {B = Result (Unit {0}) × E}
        (λ x.
          let y : Result (Unit {0}) × E = elim x.0 [ err e ↦ (err e, x.1) | ok u ↦ (ok tt, x.1) ] in
          elim y.0 [ err e ↦ (err e, y.1) | ok u ↦ (ok u, y.1) ])
        e

pub relay_one :
    {E : Type 0} (handle : Handler → Message → Site E → Result (Unit {0}) × Site E) (service : Text)
    (msg : Message) (t : MemoryTransport Text) (topics : Dict Text (Eventful Handler))
    (server : RpcServer E × E) (site : Site E)
    → Serves service t topics
    → handle handles_request msg (t, (topics, server)) ≡ (ok tt, site)
    → relay handle (request_topic service) msg (t, (topics, server)) ≡ (false, site)
unfolding relay
relay_one {E = E} handle service msg t topics server site v e =
    rw (v.channel, relay)
      (ap {A = Result (Unit {0}) × Site E} {B = Bool × Site E}
        (λ x. (elim x.0 [ err e ↦ true | ok u ↦ false ], x.1))
        (fire_one handle handles_request msg (t, (topics, server)) site e))

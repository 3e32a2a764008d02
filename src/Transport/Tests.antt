-- ===== src/Transport/Tests.antt =====
-- eventforge/transports/memory.py and tcp.py: runs at concrete inputs, and the theorems at inputs
-- that meet their hypotheses.
use observer_pattern.Prelude.{
  ℕ, ◌≡◌, ◌↔◌, refl, inr, Bool, true, false, none, [], ◌∷◌, ◌++◌, map, length, ◌==◌, arith, Text,
  codes, nat_eq, text_eq,
}
use observer_pattern.Prelude.Keys.{text_beq}
use observer_pattern.Prelude.Dict
use observer_pattern.Types.{Message, num, ok}
use observer_pattern.Transport.Glob.{
  translate, matches, member, accepts, until_close, after_bang, class_body, translate_from, fnmatch,
  starts_with, replace_from,
}
use observer_pattern.Transport.Glob.Relation.{Matches, matches_iff}
use observer_pattern.Transport.Patterns.{memory_pattern, memory_matches, tcp_matches}
use observer_pattern.Transport.Patterns.Wildcards.{IsPlain, memory_matches-star}
use observer_pattern.Transport.Memory.{
  MemoryTransport, init, queue_of, put_nowait, subscribe, unsubscribe, close, notify_one, notify,
  send, get_queued, receive, drop_sub, remove_first,
}
use observer_pattern.Transport.Memory.Delivery.{
  noting, due, Stored, HasRoom, drain, send_notifies_then_stores, send_then_drain,
}

program : Unit {0}
unfolding text_beq init Dict.get Dict.set Dict.erase Dict.get_or Dict.contains matches member
    accepts until_close after_bang class_body translate_from fnmatch starts_with replace_from
    memory_pattern memory_matches tcp_matches queue_of put_nowait subscribe unsubscribe close
    notify_one notify send get_queued receive drop_sub remove_first
program = tt

abbrev created : Message
created = record {
  id = 1;
  topic = codes "user.created";
  payload = num 7;
  headers = [];
  timestamp = 3;
  reply_to = none;
  correlation_id = none;
}

-- A transport of bounded queues with three subscriptions.
abbrev subscribed : MemoryTransport ℕ
subscribed =
    (subscribe (codes "**") 12
      (subscribe (codes "user.*") 11 (subscribe (codes "user.created") 10 (init 1)).1).1).1

-- A callback raises on the first subscription; the others are called, the message is queued.
sent :
    let (r, (t, log)) =
      send (noting (λ callback message. callback == 10)) created (subscribed, []) in
    (r ≡ ok tt)
    × (map (λ call. call.0) log ≡ 10 ∷ 12 ∷ [])
    × (queue_of (codes "user.created") t ≡ created ∷ [])
unfolding program
sent = (refl, refl, refl)

-- `user.*` does not match `user.created` in memory, and does over TCP.
one_segment :
    (memory_matches (codes "user.created") (codes "user.*") ≡ false)
    × (tcp_matches (codes "user.created") (codes "user.*") ≡ true)
    × (tcp_matches (codes "user.created.eu") (codes "user.*") ≡ true)
unfolding program
one_segment = (refl, refl, refl)

matches_iff_example :
    (matches (translate (codes "a*c")) (codes "abbc") ≡ true)
    ↔ Matches (translate (codes "a*c")) (codes "abbc")
matches_iff_example = matches_iff (translate (codes "a*c")) (codes "abbc")

abbrev user : Text
user = codes "user."

user-IsPlain : IsPlain user
user-IsPlain = (
  (λ e. omega arith, λ e. omega arith, λ e. omega arith, λ e. omega arith),
  (
    (λ e. omega arith, λ e. omega arith, λ e. omega arith, λ e. omega arith),
    (
      (λ e. omega arith, λ e. omega arith, λ e. omega arith, λ e. omega arith),
      (
        (λ e. omega arith, λ e. omega arith, λ e. omega arith, λ e. omega arith),
        ((λ e. omega arith, λ e. omega arith, λ e. omega arith, λ e. omega arith), tt),
      ),
    ),
  ),
)

memory_matches-star_example :
    memory_matches (user ++ b'c' ∷ codes "reated") (user ++ codes "*") ≡ false
memory_matches-star_example = memory_matches-star user b'c' (codes "reated") user-IsPlain (λ e. cc)

-- Every callback raises.
abbrev raising : ℕ → Message → Bool
raising callback message = true

subscribed_open : subscribed.closed ≡ false
unfolding program
subscribed_open = refl

send_notifies_then_stores_example :
    let s = send (noting raising) created (subscribed, []) in
    (s.1.1 ≡ [] ++ due subscribed created subscribed.subscribers)
    × Stored created subscribed (s.0, s.1.0)
send_notifies_then_stores_example =
    send_notifies_then_stores raising created subscribed [] subscribed_open

subscribed-HasRoom : HasRoom created.topic subscribed
unfolding program
subscribed-HasRoom = inr (omega arith)

send_then_drain_example :
    let s = (send (noting raising) created (subscribed, [])).1 in
    let drained =
      drain created.topic (length (queue_of created.topic subscribed ++ created ∷ [])) s in
    (drained.0 ≡ queue_of created.topic subscribed ++ created ∷ [])
    × (queue_of created.topic drained.1.0 ≡ [])
send_then_drain_example =
    send_then_drain raising created subscribed [] subscribed_open subscribed-HasRoom

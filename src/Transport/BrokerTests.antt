-- ===== src/Transport/BrokerTests.antt =====
-- eventforge/transports/redis.py and nats.py: runs at concrete inputs, and the theorems at inputs
-- that meet their hypotheses.
use observer_pattern.Prelude.{
  ℕ, ◌≡◌, ◌≢◌, ◌↔◌, ◌⊎◌, refl, Bool, true, false, Option, none, some, List, [], ◌∷◌, ◌++◌, All,
  filter, ◌==◌, arith, Text, codes, nat_eq, text_eq,
}
use observer_pattern.Prelude.Keys.{text_beq}
use observer_pattern.Prelude.Dict
use observer_pattern.Types.{Message, num, ok, err, application}
use observer_pattern.Transport.Glob.{starts_with, replace_from}
use observer_pattern.Transport.Segments.{newline, parts, at_end, takes, re_match, segment_matches}
use observer_pattern.Transport.Segments.Fits.{Fits, segment_matches-Fits}
use observer_pattern.Transport.Segments.Trailing.{HasNoStar, segment_matches_trailing}
use observer_pattern.Transport.Redis
use observer_pattern.Transport.Redis.{
  RedisTransport, queue_of, to_redis_pattern, add_ref, drop_ref, drop_pattern, psubscribe,
  punsubscribe,
}
use observer_pattern.Transport.Redis.Refs.{in_force}
use observer_pattern.Transport.Redis.Users.{Wanted}
use observer_pattern.Transport.Redis.Interest
use observer_pattern.Transport.Redis.Interest.{Run-Wanted}
use observer_pattern.Transport.Redis.Listener.{Reading, bytes, text, nothing, message, listen}
use observer_pattern.Transport.Redis.Listener.Due.{noting, all_due}
use observer_pattern.Transport.Redis.Listener.Heard.{all_heard, GoesOn, listen_hears}
use observer_pattern.Transport.Nats
use observer_pattern.Transport.Nats.{NatsTransport, split_dots, join_dots, to_nats_subject}
use observer_pattern.Transport.Nats.Live.{live, Held}
use observer_pattern.Transport.Nats.Run
use observer_pattern.Transport.Nats.Run.{Run-Held}

one_segment :
    (segment_matches (codes "user.created") (codes "user.*") ≡ true)
    × (segment_matches (codes "user.created.eu") (codes "user.*") ≡ false)
    × (segment_matches (codes "user.created.eu") (codes "user.**") ≡ true)
    × (segment_matches (codes "a.b.c") (codes "*.b.*") ≡ true)
unfolding text_beq parts at_end takes re_match segment_matches
one_segment = (refl, refl, refl, refl)

subjects :
    (to_nats_subject (codes "user.**") ≡ codes "user.>")
    × (to_nats_subject (codes "user.*.x**") ≡ codes "user.*.x**")
unfolding text_beq split_dots join_dots to_nats_subject
subjects = (refl, refl)

segment_matches-Fits_example :
    (segment_matches (codes "a.b") (codes "a.*") ≡ true)
    ↔ ((codes "a.*" ≡ codes "a.b") ⊎ Fits (parts (codes "a.*")) (codes "a.b"))
segment_matches-Fits_example = segment_matches-Fits (codes "a.b") (codes "a.*")

abbrev user : Text
user = codes "user."

user-HasNoStar : HasNoStar user
user-HasNoStar = (
  λ e. omega arith,
  (λ e. omega arith, (λ e. omega arith, (λ e. omega arith, (λ e. omega arith, tt)))),
)

segment_matches_trailing_example :
    ((segment_matches (codes "user.new") (user ++ codes "*") ≡ true)
      ↔ ((s : Text) × (codes "user.new" ≡ user ++ s) × All (λ c. c ≢ b'.') s))
    × ((segment_matches (codes "user.new") (user ++ codes "**") ≡ true) ↔ (
        (s : Text) × (e : Text) × (codes "user.new" ≡ user ++ s ++ e)
        × All (λ c. c ≢ newline) s
        × ((e ≡ []) ⊎ (e ≡ newline ∷ []))))
segment_matches_trailing_example = segment_matches_trailing user (codes "user.new") user-HasNoStar

-- Two subscriptions of one pattern, of which one goes; the pattern stays in force.
abbrev two : RedisTransport ℕ
two = (Redis.subscribe true user 8 (Redis.subscribe true user 7 Redis.init).1).1

abbrev one : RedisTransport ℕ
one = (Redis.unsubscribe true 0 two).1

one-Run : Interest.Run one
one-Run =
    Interest.next
      (Interest.next (Interest.next Interest.start (Interest.subscribes user 7))
        (Interest.subscribes user 8))
      (Interest.unsubscribes 0)

one_calls : one.pubsub ≡ psubscribe user ∷ []
unfolding text_beq Dict.get Dict.set Dict.erase Dict.get_or Dict.contains starts_with replace_from
    to_redis_pattern Redis.init Redis.subscribe Redis.unsubscribe add_ref drop_ref drop_pattern
one_calls = refl

Run-Wanted_example : (in_force user one.pubsub ≡ true) ↔ Wanted one user
Run-Wanted_example = Run-Wanted one-Run user

-- The first call fails, the second does not: the pattern goes with the first subscription although
-- the second still wants it.
abbrev after_failure : RedisTransport ℕ
after_failure =
    (Redis.unsubscribe true 0
      (Redis.subscribe true user 8 (Redis.subscribe false user 7 Redis.init).1).1).1

failure_forgets :
    (after_failure.pubsub ≡ punsubscribe user ∷ psubscribe user ∷ [])
    × (Dict.get 1 after_failure.sub_topic ≡ some user)
unfolding text_beq Dict.get Dict.set Dict.erase Dict.get_or Dict.contains starts_with replace_from
    to_redis_pattern Redis.init Redis.subscribe Redis.unsubscribe add_ref drop_ref drop_pattern
failure_forgets = (refl, refl)

abbrev created : Message
created = record {
  id = 1;
  topic = codes "user.created";
  payload = num 7;
  headers = [];
  timestamp = 3;
  reply_to = none;
  correlation_id = none;
}

-- Every text is that message; bytes are a text if there are any.
abbrev validate : Text → Option Message
validate payload = some created

abbrev decode : Text → Option Text
decode [] = none
decode (c ∷ s) = some (c ∷ s)

abbrev never_fails : ℕ → Message → Bool
never_fails callback msg = false

abbrev turns : List (Bool × Reading)
turns =
    (true, nothing) ∷ (true, message (text (codes "x"))) ∷ (true, message (bytes (codes "y"))) ∷ []

turns-GoesOn : All (GoesOn decode validate) turns
turns-GoesOn = (refl, (refl, ((refl, λ e. cc e), tt)))

listen_hears_example :
    let msgs = all_heard decode validate turns in
    let (r, (u, log₁)) = listen (noting never_fails) decode validate turns (one, []) in
    (r ≡ ok tt)
    × (log₁ ≡ [] ++ all_due one msgs)
    × ((topic : Text)
        → queue_of topic u ≡ queue_of topic one ++ filter (λ m. m.topic == topic) msgs)
    × (listen
          (noting never_fails)
          decode
          validate
          (turns ++ (true, message (bytes [])) ∷ [])
          (one, [])
        ≡ (err (application 1), (u, log₁)))
listen_hears_example = listen_hears never_fails decode validate turns [] [] one [] turns-GoesOn refl

abbrev nats : NatsTransport ℕ
nats =
    (Nats.unsubscribe true 0
      (Nats.subscribe true user 8 (Nats.subscribe true user 7 Nats.started).1).1).1

nats-Run : Run.Run nats
nats-Run =
    Run.next (Run.next (Run.next Run.start (Run.subscribes user 7)) (Run.subscribes user 8))
      (Run.unsubscribes 0)

Run-Held_example : (live 1 nats.calls ≡ some user) ↔ Held nats 1 user
Run-Held_example = Run-Held nats-Run 1 user

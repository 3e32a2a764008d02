-- ===== src/Transport/Redis/Listener/Heard.antt =====
-- eventforge/transports/redis.py, `_listen`: what is heard, and what ends the loop.
use observer_pattern.Prelude.{
  ◌≡◌, ◌≢◌, refl, ap, ◌∙◌, inl, inr, Bool, true, Option, none, some, List, [], ◌∷◌, ◌++◌,
  if◌then◌else◌, Text, filter, ◌==◌, All, nat_eq, text_eq, Option-cases,
}
use mathlib.Core.List.{append_assoc, append-nil}
use observer_pattern.Types.{Message, Result, ok, err, application}
use observer_pattern.Transport.Redis.{RedisTransport, queue_of}
use observer_pattern.Transport.Redis.Listener.{
  bytes, text, other, Reading, raises, nothing, irrelevant, message, World, put, dispatch_json,
  turn, listen,
}
use observer_pattern.Transport.Redis.Listener.Due.{
  noting, due, all_due, arrived, dispatch-due, all_due-put, queue_of-arrived,
}

abbrev with_first : Option Message → List Message → List Message
with_first none msgs = msgs
with_first (some msg) msgs = msg ∷ msgs

module _ (decode : Text → Option Text) (validate : Text → Option Message) where
  -- The message that a reading brings.
  abbrev pub heard : Reading → Option Message
  heard (message (text payload)) = validate payload
  heard (message (bytes raw)) = elim (decode raw) [ none ↦ none | some payload ↦ validate payload ]
  heard _ = none

  abbrev pub all_heard : List (Bool × Reading) → List Message
  all_heard [] = []
  all_heard ((running, reading) ∷ later) = with_first (heard reading) (all_heard later)

  -- A turn that does not end the loop: the transport runs, and what comes is text.
  abbrev pub GoesOn : Bool × Reading → Type 0
  GoesOn (running, raises still) = (running ≡ true) × (still ≡ true)
  GoesOn (running, message (bytes raw)) = (running ≡ true) × (decode raw ≢ none)
  GoesOn (running, reading) = running ≡ true

module _ {C : Type 0} (fails : C → Message → Bool) where
  module _ (decode : Text → Option Text) (validate : Text → Option Message) where
    -- What a message, if there is one, does to the transport and the log.
    abbrev after : Option Message → World C (List (C × Message)) → World C (List (C × Message))
    after none world = world
    after (some msg) (t, log) = (put msg t, log ++ due t msg t.subscribers)

    dispatch_json_heard :
        (payload : Text) (t : RedisTransport C) (log : List (C × Message))
        → dispatch_json (noting fails) validate payload (t, log) ≡ after (validate payload) (t, log)
    unfolding dispatch_json
    dispatch_json_heard payload t log = elim (Option-cases (validate payload)) [
      | inl q ↦ rw (q, dispatch_json) refl
      | inr (m, q) ↦ rw (q, dispatch_json) (dispatch-due fails m t log)
    ]

    turn-heard :
        (running : Bool) (reading : Reading) (t : RedisTransport C) (log : List (C × Message))
        → GoesOn decode validate (running, reading)
        → (running ≡ true)
          × (turn (noting fails) decode validate reading (t, log)
              ≡ (ok true, after (heard decode validate reading) (t, log)))
    unfolding turn
    turn-heard running (raises still) t log h = (h.0, rw h.1 refl)
    turn-heard running nothing t log h = (h, refl)
    turn-heard running irrelevant t log h = (h, refl)
    turn-heard running (message other) t log h = (h, refl)
    turn-heard running (message (text payload)) t log h =
        (h, rw (dispatch_json_heard payload t log) refl)
    turn-heard running (message (bytes raw)) t log h = (
      h.0,
      elim (Option-cases (decode raw)) [
        | inl q ↦ absurd (h.1 q)
        | inr (payload, q) ↦
            rw (q, turn, heard)
              (ap (λ (x : World C (List (C × Message))). (ok true, x))
                (dispatch_json_heard payload t log))
      ],
    )

    -- What the loop makes of a turn.
    abbrev onward :
        List (Bool × Reading)
        → Result Bool × World C (List (C × Message))
        → Result (Unit {0}) × World C (List (C × Message))
    onward later x = elim x.0 [
      | err e ↦ (err e, x.1)
      | ok goes_on ↦
          if goes_on then listen (noting fails) decode validate later x.1 else (ok tt, x.1)
    ]

    listen_step :
        (reading : Reading) (later : List (Bool × Reading)) (world : World C (List (C × Message)))
        (x : Result Bool × World C (List (C × Message)))
        → turn (noting fails) decode validate reading world ≡ x
        → listen (noting fails) decode validate ((true, reading) ∷ later) world ≡ onward later x
    unfolding listen
    listen_step reading later world x e = ap (onward later) e

    turn_undecodable :
        (raw : Text) (world : World C (List (C × Message)))
        → decode raw ≡ none
        → turn (noting fails) decode validate (message (bytes raw)) world
          ≡ (err (application 1), world)
    unfolding turn
    turn_undecodable raw world bad = rw (bad, turn) refl

    -- The messages, one that has just come before the others.
    shift :
        (o : Option Message) (msgs : List Message) (t : RedisTransport C) (log : List (C × Message))
        → ◌≡◌ {A = World C (List (C × Message))}
            (
              arrived (after o (t, log)).0 msgs,
              (after o (t, log)).1 ++ all_due (after o (t, log)).0 msgs,
            )
            (arrived t (with_first o msgs), log ++ all_due t (with_first o msgs))
    shift none msgs t log = refl
    shift (some m) msgs t log = rw (all_due-put m t msgs) (
        ap (λ (l : List (C × Message)). (arrived (put m t) msgs, l))
          (append_assoc log (due t m t.subscribers) (all_due t msgs)))

    listen_on :
        (turns more : List (Bool × Reading)) (t : RedisTransport C) (log : List (C × Message))
        → All (GoesOn decode validate) turns
        → listen (noting fails) decode validate (turns ++ more) (t, log)
          ≡ listen (noting fails) decode validate more (
            arrived t (all_heard decode validate turns),
            log ++ all_due t (all_heard decode validate turns),
          )
    listen_on [] more t log h = rw (append-nil log) refl
    listen_on ((running, reading) ∷ turns) more t log h =
        let (go, e) = turn-heard running reading t log h.0 in
        let w = after (heard decode validate reading) (t, log) in
        rw go (
          listen_step reading (turns ++ more) (t, log) (ok true, w) e
          ∙ listen_on turns more w.0 w.1 h.1
          ∙ ap (listen (noting fails) decode validate more)
              (shift (heard decode validate reading) (all_heard decode validate turns) t log))

    -- While the transport runs and what comes is text, each message that the readings bring calls
    -- the subscribers whose topic matches, oldest first, and is queued on its own topic, in the
    -- order of arrival; an exception of a callback changes nothing of this. The first bytes that
    -- are no UTF-8 end the loop with an exception: what would come later is not heard.
    pub listen_hears :
        (turns later : List (Bool × Reading)) (raw : Text) (t : RedisTransport C)
        (log : List (C × Message))
        → All (GoesOn decode validate) turns
        → decode raw ≡ none
        → let msgs = all_heard decode validate turns in
          let (r, (u, log₁)) = listen (noting fails) decode validate turns (t, log) in
          (r ≡ ok tt)
          × (log₁ ≡ log ++ all_due t msgs)
          × ((topic : Text)
              → queue_of topic u ≡ queue_of topic t ++ filter (λ m. m.topic == topic) msgs)
          × (listen
                (noting fails)
                decode
                validate
                (turns ++ (true, message (bytes raw)) ∷ later)
                (t, log)
              ≡ (err (application 1), (u, log₁)))
    unfolding listen
    listen_hears turns later raw t log h bad =
        let e = rw (append-nil turns) at (listen_on turns [] t log h) in
        rw e (
          refl,
          refl,
          λ topic. queue_of-arrived topic (all_heard decode validate turns) t,
          listen_on turns ((true, message (bytes raw)) ∷ later) t log h
              ∙ listen_step (message (bytes raw)) later
                  (
                    arrived t (all_heard decode validate turns),
                    log ++ all_due t (all_heard decode validate turns),
                  )
                  _ (turn_undecodable raw _ bad),
        )

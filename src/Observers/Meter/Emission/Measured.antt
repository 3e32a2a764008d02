-- ===== src/Observers/Meter/Emission/Measured.antt =====
-- eventforge/observers.py, `Meter.on_success`: whom a measurement reaches, and what it leaves.
use observer_pattern.Prelude.{◌≡◌, refl, ap, ◌∙◌, Option, none, some, List, ◌++◌, Text, text_eq}
use observer_pattern.Prelude.Dict
use observer_pattern.Prelude.Dict.{Dict}
use observer_pattern.Types.{Error, Result, ok, err}
use observer_pattern.Observers.Dispatch.{broadcast}
use observer_pattern.Observers.Dispatch.Broadcast.{noting, reached}
use observer_pattern.Observers.Channel.{Eventful, Registry, fire}
use observer_pattern.Observers.Channel.Fire.{afterwards, fire_reaches}
use observer_pattern.Observers.Channel.Lift.{lifted, fire-lifted}
use observer_pattern.Observers.Meter.{Numbers, update}
use observer_pattern.Observers.Meter.Emission.{
  Signal, updated, measured, Emitter, Site, update_emits, emit_measurement, on_success,
}

module _ {V C : Type 0} ⦃N : Numbers V⦄ (raises : C → Signal V → Option Error)
    (registry : Registry C) where
  -- Subscribers that note the call, may raise, and leave the meter and the metadata alone.
  abbrev pub watching : C → Signal V → Site V C (List C) → Result (Unit {0}) × Site V C (List C)
  watching = lifted (lifted (noting raises))

  -- Whom an event calls, and what it raises.
  abbrev pub calls : Signal V → Eventful C → List C × Result (Unit {0})
  calls signal channel =
      let (called, r) = reached raises signal channel.subscribers in
      (called ++ afterwards registry channel r, r)

  fire-watching :
      (channel : Eventful C) (signal : Signal V) (m : Emitter V C) (metadata : Dict Text (Option V))
      (log : List C)
      → let (called, r) = calls signal channel in
        fire watching (broadcast watching) registry channel signal (m, (metadata, log))
        ≡ (r, (m, (metadata, log ++ called)))
  fire-watching channel signal m metadata log =
      fire-lifted (lifted (noting raises)) registry channel signal m (metadata, log)
      ∙ ap {A = Result (Unit {0}) × (Dict Text (Option V) × List C)}
          {B = Result (Unit {0}) × Site V C (List C)} (λ x. (x.0, (m, x.1)))
          (fire-lifted (noting raises) registry channel signal metadata log)
      ∙ ap {A = Result (Unit {0}) × List C} {B = Result (Unit {0}) × Site V C (List C)}
          (λ x. (x.0, (m, (metadata, x.1)))) (fire_reaches raises registry channel signal log)

  -- A measurement that is emitted: the metadata hold it, and then `measurement` fires.
  abbrev pub emitted :
      Option V → Emitter V C → Dict Text (Option V) → List C → Result (Unit {0}) × Site V C (List C)
  emitted val m metadata log =
      let metadata₁ = Dict.set m.name val metadata in
      let (called, r) = calls (measured val metadata₁) m.measurement in
      (r, (m, (metadata₁, log ++ called)))

  -- What becomes of an update whose event raised, or did not.
  abbrev pub after_update :
      V
      → Emitter V C
      → Dict Text (Option V)
      → List C
      → Result (Unit {0})
      → Result (Unit {0}) × Site V C (List C)
  after_update val m metadata log (err e) = (err e, (m, (metadata, log)))
  after_update val m metadata log (ok u) = emitted (some val) m metadata log

  emit_measurement_lem :
      (val : Option V) (m : Emitter V C) (metadata : Dict Text (Option V)) (log : List C)
      → emit_measurement watching (broadcast watching) registry val (m, (metadata, log))
        ≡ emitted val m metadata log
  unfolding emit_measurement
  emit_measurement_lem val m metadata log =
      let metadata₁ = Dict.set m.name val metadata in
      fire-watching m.measurement (measured val metadata₁) m metadata₁ log

  after_update_lem :
      (val : V) (m : Emitter V C) (metadata : Dict Text (Option V)) (log : List C)
      (r : Result (Unit {0}))
      → ◌≡◌ {A = Result (Unit {0}) × Site V C (List C)}
          (elim r [
            | err e ↦ (err e, (m, (metadata, log)))
            | ok u ↦
                emit_measurement watching
                  (broadcast watching)
                  registry
                  (some val)
                  (m, (metadata, log))
          ])
          (after_update val m metadata log r)
  after_update_lem val m metadata log (err e) = refl
  after_update_lem val m metadata log (ok u) = emit_measurement_lem (some val) m metadata log

  -- With the broadcast dispatcher, which is the default, and subscribers that leave the meter, the
  -- metadata and the subscriptions alone: a call that measured nothing leaves the aggregate, sets
  -- the metadata to None under the meter's name, and then fires `measurement`. One that measured a
  -- value updates the aggregate by it once and fires `update_event`; if that raises, so does the
  -- call, with the metadata as they were and `measurement` not fired; else it sets the metadata to
  -- the value and then fires `measurement`, whose subscribers see it there. An event calls its
  -- channel's subscribers in order up to the first that raises, then, if none did, the class-level
  -- ones, and raises what that one did.
  pub on_success_emits :
      (val : Option V) (m : Emitter V C) (metadata : Dict Text (Option V)) (log : List C)
      → on_success watching (broadcast watching) registry val (m, (metadata, log)) ≡ (elim val [
        | none ↦ emitted none m metadata log
        | some v ↦
            let (called, r) = calls (updated v 1) m.update_event in
            after_update v
              (record m { aggregate = update v 1 m.aggregate })
              metadata
              (log ++ called)
              r
      ])
  unfolding on_success update_emits
  on_success_emits none m metadata log = emit_measurement_lem none m metadata log
  on_success_emits (some v) m metadata log =
      let m₁ : Emitter V C = record m { aggregate = update v 1 m.aggregate } in
      let (called, r) = calls (updated v 1) m.update_event in
      ap {A = Result (Unit {0}) × Site V C (List C)} {B = Result (Unit {0}) × Site V C (List C)}
        (λ x. elim x.0 [
          | err e ↦ (err e, x.1)
          | ok u ↦ emit_measurement watching (broadcast watching) registry (some v) x.1
        ])
        (fire-watching m.update_event (updated v 1) m₁ metadata log)
      ∙ after_update_lem v m₁ metadata (log ++ called) r

-- ===== src/Observers/Meter/Emission.antt =====
-- eventforge/observers.py: what a `Meter` emits. The subscribers are called by the meter's
-- dispatcher, and may change the meter, the metadata and the rest of the world.
pub mod Measured
use observer_pattern.Prelude.{
  ℕ, ◌-◌, Bool, Option, none, some, List, [], ◌∷◌, ◌++◌, Text, codes, if◌then◌else◌, ltb, text_eq,
}
use observer_pattern.Prelude.Dict
use observer_pattern.Prelude.Dict.{Dict}
use observer_pattern.Types.{Value, num, null, Result, ok, err}
use observer_pattern.Observers.Dispatch.{broadcast}
use observer_pattern.Observers.Channel.{Eventful, Registry, fire}
use observer_pattern.Observers.Meter.{Numbers, Meter, update, reset}

-- The arguments of an event, besides the meter. A context comes as its metadata then, as far as
-- meters write them: a measurement under a meter's name.
pub data Signal (V : Type 0) : Type 0 where
  updated : V → ℕ → Signal V
  measured : Option V → Dict Text (Option V) → Signal V
  was_reset : Signal V

-- A meter as an `Observable`.
pub record Emitter (V C : Type 0) : Type 0 where
  pub name : Text
  pub aggregate : Meter V
  pub measurement : Eventful C
  pub update_event : Eventful C
  pub reset_event : Eventful C

-- The meter, the metadata of the context and the rest of the world.
abbrev pub Site : Type 0 → Type 0 → Type 0 → Type 0
Site V C E = Emitter V C × (Dict Text (Option V) × E)

module _ {V C E : Type 0} ⦃N : Numbers V⦄
    (invoke : C → Signal V → Site V C E → Result (Unit {0}) × Site V C E)
    (dispatch : List C → Signal V → Site V C E → Result (Unit {0}) × Site V C E)
    (registry : Registry C) where
  -- `Meter.update`: the aggregate first, then the event
  unfoldable pub update_emits : V → ℕ → Site V C E → Result (Unit {0}) × Site V C E
  update_emits val n (m, rest) =
      fire invoke dispatch registry m.update_event (updated val n)
        (record m { aggregate = update val n m.aggregate }, rest)

  -- `Meter.reset`
  unfoldable pub reset_emits : Site V C E → Result (Unit {0}) × Site V C E
  reset_emits (m, rest) =
      fire invoke dispatch registry m.reset_event was_reset
        (record m { aggregate = reset m.aggregate }, rest)

  -- The lines of `Meter.on_success` behind the update.
  unfoldable pub emit_measurement : Option V → Site V C E → Result (Unit {0}) × Site V C E
  emit_measurement val (m, (metadata, env)) =
      let metadata₁ = Dict.set m.name val metadata in
      fire invoke dispatch registry m.measurement (measured val metadata₁) (m, (metadata₁, env))

  -- `Meter.on_success`, by what `measure` gives
  unfoldable pub on_success : Option V → Site V C E → Result (Unit {0}) × Site V C E
  on_success none site = emit_measurement none site
  on_success (some val) site =
      let (r, site₁) = update_emits val 1 site in
      let rest = emit_measurement (some val) site₁ in
      elim r [ err e ↦ (err e, site₁) | ok u ↦ rest ]

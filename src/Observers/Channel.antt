-- ===== src/Observers/Channel.antt =====
-- eventforge/observers.py: `Eventful`, `Observable` and the registry of class-level subscribers.
-- `C` names the subscribers, a class is a number; `dispatch` is the channel's dispatcher.
pub mod Fire
pub mod Lift
use observer_pattern.Prelude.{
  ℕ, Bool, true, false, Option, none, some, List, [], ◌∷◌, ◌++◌, if◌then◌else◌, Eq, ◌==◌, Text,
  nat_eq, text_eq,
}
use observer_pattern.Prelude.Dict
use observer_pattern.Prelude.Dict.{Dict}
use observer_pattern.Types.{Result, ok, err, attribute_error}

-- `owner` is the owner's `__mro__` without `object`.
pub record Eventful (C : Type 0) : Type 0 where
  pub subscribers : List C
  pub owner : Option (List ℕ)
  pub name : Option Text

-- `_CLASS_SUBSCRIBERS`
abbrev pub Registry : Type 0 → Type 0
Registry C = Dict ℕ (Dict Text (List C))

-- An `Observable`: its channels by their attribute's name.
abbrev pub Observable : Type 0 → Type 0
Observable C = Dict Text (Eventful C)

module _ {C : Type 0} where
  unfoldable pub subscribe : C → Eventful C → Eventful C
  subscribe fn channel = record channel { subscribers = channel.subscribers ++ fn ∷ [] }

  -- `_register_class_subscriber`
  unfoldable pub register_class_subscriber : ℕ → Text → C → Registry C → Registry C
  register_class_subscriber target_cls event fn registry =
      let events = Dict.get_or target_cls [] registry in
      Dict.set target_cls (Dict.set event (Dict.get_or event [] events ++ fn ∷ []) events) registry

  -- `_CLASS_SUBSCRIBERS.get(klass, {}).get(name, ())`
  unfoldable pub class_subscribers : ℕ → Text → Registry C → List C
  class_subscribers klass name registry = Dict.get_or name [] (Dict.get_or klass [] registry)

  -- `Observable.on`
  unfoldable pub on : Text → C → Observable C → Result C × Observable C
  on event fn channels = elim (Dict.get event channels) [
    | none ↦ (err attribute_error, channels)
    | some channel ↦ (ok fn, Dict.set event (subscribe fn channel) channels)
  ]

module _ {C : Type 0} ⦃e : Eq C⦄ where
  unfoldable pub drop_first : C → List C → Option (List C)
  drop_first fn [] = none
  drop_first fn (g ∷ fns) =
      let rest = drop_first fn fns in
      if g == fn then some fns else (elim rest [ none ↦ none | some r ↦ some (g ∷ r) ])

  unfoldable pub unsubscribe : C → Eventful C → Bool × Eventful C
  unsubscribe fn channel = elim (drop_first fn channel.subscribers) [
    | none ↦ (false, channel)
    | some fns ↦ (true, record channel { subscribers = fns })
  ]

module _ {C A E : Type 0} where
  module _ (invoke : C → A → E → Result (Unit {0}) × E) where
    -- One class of the walk: an exception is logged.
    unfoldable pub fire_class : List C → A → E → E
    fire_class [] args env = env
    fire_class (fn ∷ fns) args env = fire_class fns args (invoke fn args env).1

    unfoldable pub fire_classes : Registry C → Text → List ℕ → A → E → E
    fire_classes registry name [] args env = env
    fire_classes registry name (klass ∷ mro) args env =
        fire_classes registry name mro args
          (fire_class (class_subscribers klass name registry) args env)

    unfoldable pub fire_owner : Registry C → Option (List ℕ) → Option Text → A → E → E
    fire_owner registry (some mro) (some name) args env = fire_classes registry name mro args env
    fire_owner registry _ _ args env = env

    module _ (dispatch : List C → A → E → Result (Unit {0}) × E) where
      -- `Eventful.fire`: an exception of the dispatcher leaves out the class-level subscribers.
      unfoldable pub fire : Registry C → Eventful C → A → E → Result (Unit {0}) × E
      fire registry channel args env =
          let (r, env₁) = dispatch channel.subscribers args env in
          elim r [
            | err e ↦ (err e, env₁)
            | ok u ↦ (ok u, fire_owner registry channel.owner channel.name args env₁)
          ]

      -- `Observable.fire`
      unfoldable pub fire_event : Registry C → Text → Observable C → A → E → Result (Unit {0}) × E
      fire_event registry event channels args env = elim (Dict.get event channels) [
        | none ↦ (err attribute_error, env)
        | some channel ↦ fire registry channel args env
      ]

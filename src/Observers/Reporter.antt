-- ===== src/Observers/Reporter.antt =====
-- eventforge/observers.py: `Reporter`, `observe` and the cache of the scans of a class. What
-- `dir()` finds of a class is an argument: its attributes with the targets that `observe` has put
-- on them.
pub mod Wired
use observer_pattern.Prelude.{
  ℕ, Bool, Option, none, some, List, [], ◌∷◌, ◌++◌, Text, nat_eq, text_eq,
}
use observer_pattern.Prelude.Dict
use observer_pattern.Prelude.Dict.{Dict}
use observer_pattern.Observers.Channel.{Registry, register_class_subscriber}

-- `ObserveTargets`: a class and an event
abbrev pub Targets : Type 0
Targets = List (ℕ × Text)

-- The attributes of a class, by name, with their targets.
abbrev pub Attributes : Type 0
Attributes = List (Text × Targets)

-- `observe`: what it puts on the function.
unfoldable pub observe : ℕ → Text → Targets → Targets
observe target_cls event existing = existing ++ (target_cls, event) ∷ []

-- The attributes that have targets.
unfoldable pub marked_attributes : Attributes → Attributes
marked_attributes [] = []
marked_attributes ((attr, []) ∷ attrs) = marked_attributes attrs
marked_attributes ((attr, t ∷ targets) ∷ attrs) = (attr, t ∷ targets) ∷ marked_attributes attrs

-- `_reporter_observe_methods`: the cached scan of a class.
unfoldable pub reporter_observe_methods :
    (ℕ → Attributes) → ℕ → Dict ℕ Attributes → Attributes × Dict ℕ Attributes
reporter_observe_methods dir cls cache = elim (Dict.get cls cache) [
  | some pairs ↦ (pairs, cache)
  | none ↦ let pairs = marked_attributes (dir cls) in (pairs, Dict.set cls pairs cache)
]

module _ {C : Type 0} where
  unfoldable pub register_targets : C → Targets → Registry C → Registry C
  register_targets bound [] registry = registry
  register_targets bound ((target_cls, event) ∷ targets) registry =
      register_targets bound targets (register_class_subscriber target_cls event bound registry)

  -- The loop of `Reporter.__init__`; `bind` is `getattr(self, attr)`.
  unfoldable pub register_methods : (Text → C) → Attributes → Registry C → Registry C
  register_methods bind [] registry = registry
  register_methods bind ((attr, targets) ∷ attrs) registry =
      register_methods bind attrs (register_targets (bind attr) targets registry)

  -- `Reporter.__init__`
  unfoldable pub init :
      (ℕ → Attributes)
      → (Text → C)
      → ℕ
      → Dict ℕ Attributes × Registry C
      → Dict ℕ Attributes × Registry C
  init dir bind cls (cache, registry) =
      let (methods, cache₁) = reporter_observe_methods dir cls cache in
      (cache₁, register_methods bind methods registry)

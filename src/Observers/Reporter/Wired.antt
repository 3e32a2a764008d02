-- ===== src/Observers/Reporter/Wired.antt =====
-- eventforge/observers.py: whom a new `Reporter` adds to the subscribers of a class.
use observer_pattern.Prelude.{
  if_cases, Eq, ℕ, ◌≡◌, refl, ap, sym, ◌∙◌, ◌&&◌, some, List, [], ◌∷◌, ◌++◌, Text, nat_eq, text_eq,
  if◌then◌else◌, ◌==◌, inl, inr, Bool-cases, Option-cases,
}
use mathlib.Core.List.{append_assoc, append-nil}
use observer_pattern.Prelude.Dict
use observer_pattern.Prelude.Dict.{Dict}
use observer_pattern.Observers.Channel.{Registry, register_class_subscriber, class_subscribers}
use observer_pattern.Observers.Reporter.{
  Targets, Attributes, marked_attributes, reporter_observe_methods, register_targets,
  register_methods, init,
}

-- Every entry of the cache is what the scan of its class finds.
abbrev pub IsScanned : (ℕ → Attributes) → Dict ℕ Attributes → Type 0
IsScanned dir cache =
    (cls : ℕ) (pairs : Attributes)
    → Dict.get cls cache ≡ some pairs
    → pairs ≡ marked_attributes (dir cls)

get_or-set :
    {K V : Type 0} ⦃e : Eq K⦄ (k j : K) (v w : V) (d : Dict K V)
    → Dict.get_or j v (Dict.set k w d) ≡ (if k == j then w else Dict.get_or j v d)
unfolding Dict.get_or
get_or-set k j v w d = elim (Bool-cases (k == j)) [
  | inl q ↦ rw (Dict.get-set k j w d, Dict.get_or) (rw (q) refl)
  | inr q ↦ rw (Dict.get-set k j w d, Dict.get_or) (rw (q) refl)
]

module _ {C : Type 0} (klass : ℕ) (name : Text) where
  -- The subscriber, once for each of its targets that is this event of this class.
  abbrev pub times : C → Targets → List C
  times bound [] = []
  times bound ((target_cls, event) ∷ targets) =
      if (target_cls == klass) && (event == name)
      then bound ∷ times bound targets
      else times bound targets

  abbrev pub observers : (Text → C) → Attributes → List C
  observers bind [] = []
  observers bind ((attr, targets) ∷ attrs) = times (bind attr) targets ++ observers bind attrs

  register_lem :
      (cls : ℕ) (event : Text) (fn : C) (registry : Registry C)
      → class_subscribers klass name (register_class_subscriber cls event fn registry)
        ≡ class_subscribers klass name registry
          ++ (if (cls == klass) && (event == name) then fn ∷ [] else [])
  unfolding class_subscribers register_class_subscriber
  register_lem cls event fn registry =
      let events : Dict Text (List C) = Dict.get_or cls [] registry in
      let fns : List C = Dict.get_or event [] events ++ fn ∷ [] in
      ap (Dict.get_or name []) (get_or-set cls klass [] (Dict.set event fns events) registry)
      ∙ elim (Bool-cases (cls == klass)) [
        | inr q ↦ rw (q) (sym (append-nil (class_subscribers klass name registry)))
        | inl q ↦
            let same : events ≡ Dict.get_or klass [] registry =
              ap (λ c. Dict.get_or c [] registry) ((nat_eq.beq_iff cls klass).0 q) in
            rw (q) (
              get_or-set event name [] fns events ∙ elim (Bool-cases (event == name)) [
                | inr r ↦ rw (r) (
                    ap (Dict.get_or name []) same
                    ∙ sym (append-nil (class_subscribers klass name registry)))
                | inl r ↦ rw (r) (
                    ap (λ l. l ++ fn ∷ [])
                      (ap (λ n. Dict.get_or n [] events) ((text_eq.beq_iff event name).0 r)
                        ∙ ap (Dict.get_or name []) same))
              ])
      ]

  register_targets_lem :
      (bound : C) (targets : Targets) (registry : Registry C)
      → class_subscribers klass name (register_targets bound targets registry)
        ≡ class_subscribers klass name registry ++ times bound targets
  unfolding register_targets
  register_targets_lem bound [] registry = simp append-nil
  register_targets_lem bound ((cls, event) ∷ targets) registry =
      register_targets_lem bound targets (register_class_subscriber cls event bound registry)
      ∙ rw (register_lem cls event bound registry)
          (elim (Bool-cases ((cls == klass) && (event == name))) [
            | inl q ↦ rw (q) (
                append_assoc (class_subscribers klass name registry) (bound ∷ [])
                  (times bound targets))
            | inr q ↦ rw (q) (
                ap (λ l. l ++ times bound targets)
                  (append-nil (class_subscribers klass name registry)))
          ])

  register_methods_lem :
      (bind : Text → C) (attrs : Attributes) (registry : Registry C)
      → class_subscribers klass name (register_methods bind attrs registry)
        ≡ class_subscribers klass name registry ++ observers bind attrs
  unfolding register_methods
  register_methods_lem bind [] registry = simp append-nil
  register_methods_lem bind ((attr, targets) ∷ attrs) registry =
      register_methods_lem bind attrs (register_targets (bind attr) targets registry)
      ∙ rw (register_targets_lem (bind attr) targets registry) (
          append_assoc (class_subscribers klass name registry) (times (bind attr) targets)
            (observers bind attrs))

  observers-marked_attributes :
      (bind : Text → C) (attrs : Attributes)
      → observers bind (marked_attributes attrs) ≡ observers bind attrs
  unfolding marked_attributes
  observers-marked_attributes bind [] = refl
  observers-marked_attributes bind ((attr, []) ∷ attrs) = observers-marked_attributes bind attrs
  observers-marked_attributes bind ((attr, t ∷ targets) ∷ attrs) =
      ap (◌++◌ (times (bind attr) (t ∷ targets))) (observers-marked_attributes bind attrs)

set-IsScanned :
    (dir : ℕ → Attributes) (cls : ℕ) (cache : Dict ℕ Attributes)
    → IsScanned dir cache
    → IsScanned dir (Dict.set cls (marked_attributes (dir cls)) cache)
set-IsScanned dir cls cache h k pairs e =
    if_cases (λ x. x ≡ some pairs → pairs ≡ marked_attributes (dir k)) (cls == k)
      (some (marked_attributes (dir cls))) (Dict.get k cache)
      (λ q f.
        let found : marked_attributes (dir cls) ≡ pairs = cc f in
        sym found ∙ ap (λ c. marked_attributes (dir c)) ((nat_eq.beq_iff cls k).0 q))
      (λ q f. h k pairs f) (sym (Dict.get-set cls k (marked_attributes (dir cls)) cache) ∙ e)

reporter_observe_methods_lem :
    (dir : ℕ → Attributes) (cls : ℕ) (cache : Dict ℕ Attributes)
    → IsScanned dir cache
    → let (methods, cache₁) = reporter_observe_methods dir cls cache in
      (methods ≡ marked_attributes (dir cls)) × IsScanned dir cache₁
unfolding reporter_observe_methods
reporter_observe_methods_lem dir cls cache h = elim (Option-cases (Dict.get cls cache)) [
  | inl q ↦ rw (q, reporter_observe_methods) (refl, set-IsScanned dir cls cache h)
  | inr (pairs, q) ↦ rw (q, reporter_observe_methods) (h cls pairs q, h)
]

-- If the cache of scans holds what scans find, a new `Reporter` adds to the subscribers of every
-- class and event, behind those that are there, exactly its methods that `observe` has marked with
-- this class and event, once for each mark, and to no other; and the cache stays so.
pub init-observers :
    {C : Type 0} (dir : ℕ → Attributes) (bind : Text → C) (cls : ℕ) (cache : Dict ℕ Attributes)
    (registry : Registry C)
    → IsScanned dir cache
    → let (cache₁, registry₁) = init dir bind cls (cache, registry) in
      ((klass : ℕ) (name : Text)
        → class_subscribers klass name registry₁
          ≡ class_subscribers klass name registry ++ observers klass name bind (dir cls))
      × IsScanned dir cache₁
unfolding init
init-observers dir bind cls cache registry h =
    let (methods, cache₁) = reporter_observe_methods dir cls cache in
    let (same, scanned) = reporter_observe_methods_lem dir cls cache h in
    (
      λ klass name.
          register_methods_lem klass name bind methods registry
          ∙ ap (λ attrs. class_subscribers klass name registry ++ observers klass name bind attrs)
              same
          ∙ ap (◌++◌ (class_subscribers klass name registry))
              (observers-marked_attributes klass name bind (dir cls)),
      scanned,
    )

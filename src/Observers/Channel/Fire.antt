-- ===== src/Observers/Channel/Fire.antt =====
-- eventforge/observers.py, `Eventful.fire`: whom it reaches, through the broadcast dispatcher.
use observer_pattern.Prelude.{ℕ, ◌≡◌, ap, sym, ◌∙◌, Option, none, some, List, [], ◌∷◌, ◌++◌, Text}
use mathlib.Core.List.{append_assoc, append-nil}
use observer_pattern.Types.{Error, Result, ok, err}
use observer_pattern.Observers.Dispatch.{broadcast}
use observer_pattern.Observers.Dispatch.Broadcast.{noting, reached, broadcast_reaches}
use observer_pattern.Observers.Channel.{
  Eventful, Registry, class_subscribers, fire_class, fire_classes, fire_owner, fire,
}

module _ {C : Type 0} where
  -- The class-level subscribers of the owner's classes, most derived class first.
  abbrev pub inherited : Registry C → Text → List ℕ → List C
  inherited registry name [] = []
  inherited registry name (klass ∷ mro) =
      class_subscribers klass name registry ++ inherited registry name mro

  abbrev pub of_owner : Registry C → Option (List ℕ) → Option Text → List C
  of_owner registry (some mro) (some name) = inherited registry name mro
  of_owner registry _ _ = []

  -- The class-level subscribers that a fire goes on to.
  abbrev pub afterwards : Registry C → Eventful C → Result (Unit {0}) → List C
  afterwards registry channel (err e) = []
  afterwards registry channel (ok u) = of_owner registry channel.owner channel.name

module _ {C A : Type 0} (raises : C → A → Option Error) where
  fire_class_notes :
      (fns : List C) (args : A) (log : List C)
      → fire_class (noting raises) fns args log ≡ log ++ fns
  unfolding fire_class
  fire_class_notes [] args log = sym (append-nil log)
  fire_class_notes (fn ∷ fns) args log =
      fire_class_notes fns args (log ++ fn ∷ []) ∙ append_assoc log (fn ∷ []) fns

  fire_classes_notes :
      (registry : Registry C) (name : Text) (mro : List ℕ) (args : A) (log : List C)
      → fire_classes (noting raises) registry name mro args log ≡ log ++ inherited registry name mro
  unfolding fire_classes
  fire_classes_notes registry name [] args log = sym (append-nil log)
  fire_classes_notes registry name (klass ∷ mro) args log =
      let here = class_subscribers klass name registry in
      ap (fire_classes (noting raises) registry name mro args) (fire_class_notes here args log)
      ∙ fire_classes_notes registry name mro args (log ++ here)
      ∙ append_assoc log here (inherited registry name mro)

  fire_owner_notes :
      (registry : Registry C) (owner : Option (List ℕ)) (name : Option Text) (args : A)
      (log : List C)
      → fire_owner (noting raises) registry owner name args log
        ≡ log ++ of_owner registry owner name
  unfolding fire_owner
  fire_owner_notes registry (some mro) (some name) args log =
      fire_classes_notes registry name mro args log
  fire_owner_notes registry (some mro) none args log = sym (append-nil log)
  fire_owner_notes registry none name args log = sym (append-nil log)

  -- The end of `fire`, from what the dispatcher answered.
  fire_rest :
      (registry : Registry C) (channel : Eventful C) (args : A) (log called : List C)
      (r : Result (Unit {0}))
      → ◌≡◌ {A = Result (Unit {0}) × List C}
          (elim r [
            | err e ↦ (err e, log ++ called)
            | ok u ↦ (
              ok u,
              fire_owner (noting raises) registry channel.owner channel.name args (log ++ called),
            )
          ])
          (r, log ++ (called ++ afterwards registry channel r))
  fire_rest registry channel args log called (err e) =
      ap {B = Result (Unit {0}) × List C} (λ l. (err e, log ++ l)) (sym (append-nil called))
  fire_rest registry channel args log called (ok u) =
      ap {B = Result (Unit {0}) × List C} (λ l. (ok u, l))
        (fire_owner_notes registry channel.owner channel.name args (log ++ called)
          ∙ append_assoc log called (of_owner registry channel.owner channel.name))

  -- Through the broadcast dispatcher, and if no subscriber changes the class-level subscriptions,
  -- a fire calls the channel's subscribers in the order they subscribed, up to the first that
  -- raises, and raises what that one does; if none does, it then calls every class-level
  -- subscriber of the owner's classes, most derived class first, whichever of those raise.
  pub fire_reaches :
      (registry : Registry C) (channel : Eventful C) (args : A) (log : List C)
      → let (called, r) = reached raises args channel.subscribers in
        fire (noting raises) (broadcast (noting raises)) registry channel args log
        ≡ (r, log ++ (called ++ afterwards registry channel r))
  unfolding fire
  fire_reaches registry channel args log =
      let (called, r) = reached raises args channel.subscribers in
      ap {A = Result (Unit {0}) × List C} {B = Result (Unit {0}) × List C}
        (λ x. elim x.0 [
          | err e ↦ (err e, x.1)
          | ok u ↦ (ok u, fire_owner (noting raises) registry channel.owner channel.name args x.1)
        ])
        (broadcast_reaches raises channel.subscribers args log)
      ∙ fire_rest registry channel args log called r

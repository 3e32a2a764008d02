-- ===== src/Observers/Channel/Lift.antt =====
-- eventforge/observers.py: handlers that leave a part of the world alone, seen with that part.
use observer_pattern.Prelude.{
  ◌≡◌, ◌⊎◌, refl, ap, ◌∙◌, inl, inr, Option, none, some, List, [], ◌∷◌, Text, ℕ,
}
use observer_pattern.Types.{Error, Result, ok, err}
use observer_pattern.Observers.Dispatch.{broadcast}
use observer_pattern.Observers.Channel.{
  Eventful, Registry, class_subscribers, fire_class, fire_classes, fire_owner, fire,
}

-- An exception or none.
Result-cases : (r : Result (Unit {0})) → ((e : Error) × (r ≡ err e)) ⊎ (r ≡ ok tt)
Result-cases (err e) = inl (e, refl)
Result-cases (ok u) = inr refl

module _ {C A B E : Type 0} (invoke : C → A → E → Result (Unit {0}) × E) where
  abbrev pub lifted : C → A → B × E → Result (Unit {0}) × (B × E)
  lifted fn args (b, env) = let (r, env₁) = invoke fn args env in (r, (b, env₁))

  broadcast-lifted :
      (fns : List C) (args : A) (b : B) (env : E)
      → broadcast lifted fns args (b, env)
        ≡ ((broadcast invoke fns args env).0, (b, (broadcast invoke fns args env).1))
  unfolding broadcast
  broadcast-lifted [] args b env = refl
  broadcast-lifted (fn ∷ fns) args b env = elim (Result-cases (invoke fn args env).0) [
    | inl (e, q) ↦ rw (q, broadcast) refl
    | inr q ↦ rw (q, broadcast) (broadcast-lifted fns args b (invoke fn args env).1)
  ]

  fire_class-lifted :
      (fns : List C) (args : A) (b : B) (env : E)
      → fire_class lifted fns args (b, env) ≡ (b, fire_class invoke fns args env)
  unfolding fire_class
  fire_class-lifted [] args b env = refl
  fire_class-lifted (fn ∷ fns) args b env = fire_class-lifted fns args b (invoke fn args env).1

  fire_classes-lifted :
      (registry : Registry C) (name : Text) (mro : List ℕ) (args : A) (b : B) (env : E)
      → fire_classes lifted registry name mro args (b, env)
        ≡ (b, fire_classes invoke registry name mro args env)
  unfolding fire_classes
  fire_classes-lifted registry name [] args b env = refl
  fire_classes-lifted registry name (klass ∷ mro) args b env =
      let fns = class_subscribers klass name registry in
      ap (fire_classes lifted registry name mro args) (fire_class-lifted fns args b env)
      ∙ fire_classes-lifted registry name mro args b (fire_class invoke fns args env)

  fire_owner-lifted :
      (registry : Registry C) (owner : Option (List ℕ)) (name : Option Text) (args : A) (b : B)
      (env : E)
      → fire_owner lifted registry owner name args (b, env)
        ≡ (b, fire_owner invoke registry owner name args env)
  unfolding fire_owner
  fire_owner-lifted registry (some mro) (some name) args b env =
      fire_classes-lifted registry name mro args b env
  fire_owner-lifted registry (some mro) none args b env = refl
  fire_owner-lifted registry none name args b env = refl

  fire_rest-lifted :
      (registry : Registry C) (channel : Eventful C) (args : A) (b : B) (x : Result (Unit {0}) × E)
      → ◌≡◌ {A = Result (Unit {0}) × (B × E)}
          (elim x.0 [
            | err e ↦ (err e, (b, x.1))
            | ok u ↦ (ok u, fire_owner lifted registry channel.owner channel.name args (b, x.1))
          ])
          (let y : Result (Unit {0}) × E = elim x.0 [
            | err e ↦ (err e, x.1)
            | ok u ↦ (ok u, fire_owner invoke registry channel.owner channel.name args x.1)
          ] in
            (y.0, (b, y.1)))
  fire_rest-lifted registry channel args b (err e, env) = refl
  fire_rest-lifted registry channel args b (ok u, env) =
      ap {A = B × E} (λ w. (ok u, w))
        (fire_owner-lifted registry channel.owner channel.name args b env)

  pub fire-lifted :
      (registry : Registry C) (channel : Eventful C) (args : A) (b : B) (env : E)
      → let (r, env₁) = fire invoke (broadcast invoke) registry channel args env in
        fire lifted (broadcast lifted) registry channel args (b, env) ≡ (r, (b, env₁))
  unfolding fire
  fire-lifted registry channel args b env =
      ap {A = Result (Unit {0}) × (B × E)} {B = Result (Unit {0}) × (B × E)}
        (λ x. elim x.0 [
          | err e ↦ (err e, x.1)
          | ok u ↦ (ok u, fire_owner lifted registry channel.owner channel.name args x.1)
        ])
        (broadcast-lifted channel.subscribers args b env)
      ∙ fire_rest-lifted registry channel args b (broadcast invoke channel.subscribers args env)

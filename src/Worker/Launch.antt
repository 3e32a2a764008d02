-- ===== src/Worker/Launch.antt =====
-- eventforge/worker.py: what a worker offers, and why it exits.
use observer_pattern.Prelude.{
  codes, ◌≡◌, ◌≢◌, ◌⊎◌, inl, inr, refl, sym, subst, ◌∙◌, true, Option, none, some, List, [], ◌∷◌,
  Text, ℕ, text_eq, List-cases, All,
}
use observer_pattern.Prelude.Dict
use observer_pattern.Prelude.Dict.{Dict, IsDict}
use observer_pattern.Rpc.Server.{RpcServer, init, serve}
use observer_pattern.Transport.Tcp.Server.{Server, start}
use observer_pattern.Worker.{
  Entry, other, Module, Exit, no_handlers, not_callable, bad_keys, callables, load_handlers,
  service_of, add_methods, launch,
}
use observer_pattern.Worker.Handlers.{
  method_of, get-callables, callables-IsDict, offers, add_methods_keeps, serve_fresh, bad_keys-All,
  all_callable,
}

-- No name, or an empty one.
abbrev pub IsUnnamed : Option Text → Type 0
IsUnnamed none = Unit
IsUnnamed (some []) = Unit
IsUnnamed (some (c ∷ name)) = ⊥

-- Which name a service has, by the argument and by the module.
pub data IsNamed : Option Text → Option Text → Text → Type 0 where
  by_argument : {m : Option Text} (c : ℕ) (name : Text) → IsNamed (some (c ∷ name)) m (c ∷ name)
  by_module :
      {g : Option Text} (c : ℕ) (name : Text) → IsUnnamed g → IsNamed g (some (c ∷ name)) (c ∷ name)
  by_default : {g m : Option Text} → IsUnnamed g → IsUnnamed m → IsNamed g m (codes "rpc")

service_of-IsNamed : (g m : Option Text) → IsNamed g m (service_of g m)
unfolding service_of
service_of-IsNamed (some (c ∷ name)) m = by_argument c name
service_of-IsNamed none (some (c ∷ name)) = by_module c name tt
service_of-IsNamed (some []) (some (c ∷ name)) = by_module c name tt
service_of-IsNamed none none = by_default tt tt
service_of-IsNamed none (some []) = by_default tt tt
service_of-IsNamed (some []) none = by_default tt tt
service_of-IsNamed (some []) (some []) = by_default tt tt

module _ {E : Type 0} where
  -- What comes of a module with these handlers.
  pub data Launches (m : Module E) (entries : Dict Text (Entry E)) (given : Option Text)
      (sub_id : ℕ) (transport : Server Text) : Exit ⊎ (Server Text × RpcServer E) → Type 0 where
    nothing : entries ≡ [] → Launches m entries given sub_id transport (inl no_handlers)
    rejected :
        {k : Text} {bad : List Text}
        → All (λ name. Dict.get name entries ≡ some other) (k ∷ bad)
        → Launches m entries given sub_id transport (inl (not_callable (k ∷ bad)))
    serving :
        {server : RpcServer E}
        → ((name : Text) → Dict.get name entries ≢ some other)
        → ((name : Text) → Dict.get name server.methods ≡ method_of (Dict.get name entries))
        → server.running ≡ true
        → server.subscribed ≡ some sub_id
        → IsNamed given m.service_name server.service_name
        → Launches m entries given sub_id transport (inr (start transport, server))

  serving_fresh :
      (m : Module E) (entries : Dict Text (Entry E)) (given : Option Text) (sub_id : ℕ)
      (transport : Server Text)
      → bad_keys entries ≡ []
      → IsDict entries
      → Launches m entries given sub_id transport (
          inr (
            start transport,
            (serve sub_id
                (add_methods (callables entries) (init (service_of given m.service_name)))).1,
          ))
  unfolding init
  serving_fresh m entries given sub_id transport b d =
      let new : RpcServer E = init (service_of given m.service_name) in
      let server : RpcServer E = add_methods (callables entries) new in
      let e = serve_fresh sub_id server (add_methods_keeps (callables entries) new).0 in
      subst (λ s. Launches m entries given sub_id transport (inr (start transport, s))) (sym e)
        (serving (λ name. all_callable name entries b)
          (λ name.
            offers name (callables entries) new refl (callables-IsDict entries d)
            ∙ get-callables name entries d)
          refl refl
          (subst (IsNamed given m.service_name) (sym (add_methods_keeps (callables entries) new).1)
            (service_of-IsNamed given m.service_name)))

  -- If a module can be imported and its HANDLERS is a dict, a worker exits for want of handlers
  -- only where the dict is empty, or for handlers that are not callable, each of which is so; else
  -- none is, its server is running on the transport it has started, under the name that was given,
  -- else the module's, else "rpc", and answers exactly the dict's names, each by its handler.
  pub launch-Launches :
      (m : Module E) (entries : Dict Text (Entry E)) (given : Option Text) (sub_id : ℕ)
      (transport : Server Text)
      → m.handlers ≡ some entries
      → IsDict entries
      → Launches m entries given sub_id transport (launch (some m) given sub_id transport)
  unfolding launch load_handlers
  launch-Launches m [] given sub_id transport h d = rw (h, load_handlers) (nothing refl)
  launch-Launches m (entry ∷ entries) given sub_id transport h d =
      let es : Dict Text (Entry E) = entry ∷ entries in
      rw (h, load_handlers)
        (elim (List-cases (bad_keys es)) [
          | inl b ↦
              rw (b, launch)
                (serving_fresh (record m { handlers = some es }) es given sub_id transport b d)
          | inr (k, bad, b) ↦
              rw (b, launch)
                (rejected
                  (subst (All (λ name. Dict.get name es ≡ some other)) b (bad_keys-All es d)))
        ])

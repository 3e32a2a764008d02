-- ===== src/Worker.antt =====
-- eventforge/worker.py: from a module's HANDLERS to an RPC server. Importing is Python's: the
-- argument says what the module has, or that it cannot be imported. The address can be bound.
pub mod Handlers
pub mod Launch
mod Tests
use observer_pattern.Prelude.{
  ◌⊎◌, inl, inr, Bool, true, false, Option, none, some, List, [], ◌∷◌, Text, codes, ℕ, text_eq,
}
use observer_pattern.Prelude.Dict.{Dict}
use observer_pattern.Rpc.Server.{Method, RpcServer, init, add_method, serve, stop}
use observer_pattern.Transport.Tcp.Server.{Server, start, close}

-- A value of HANDLERS.
pub data Entry (E : Type 0) : Type 0 where
  callable : Method E → Entry E
  other : Entry E

-- `handlers` is none where HANDLERS is missing or no dict.
pub record Module (E : Type 0) : Type 0 where
  pub handlers : Option (Dict Text (Entry E))
  pub service_name : Option Text

-- The reasons of SystemExit.
pub data Exit : Type 0 where
  cannot_import no_handlers : Exit
  not_callable : List Text → Exit

-- `service_name or module_service or "rpc"`; an empty text counts as none
unfoldable pub service_of : Option Text → Option Text → Text
service_of (some (c ∷ name)) _ = c ∷ name
service_of _ (some (c ∷ name)) = c ∷ name
service_of _ _ = codes "rpc"

module _ {E : Type 0} where
  -- `bad`
  unfoldable pub bad_keys : Dict Text (Entry E) → List Text
  bad_keys [] = []
  bad_keys ((k, callable method) ∷ entries) = bad_keys entries
  bad_keys ((k, other) ∷ entries) = k ∷ bad_keys entries

  -- The handlers, once they are known to be callable.
  unfoldable pub callables : Dict Text (Entry E) → Dict Text (Method E)
  callables [] = []
  callables ((k, callable method) ∷ entries) = (k, method) ∷ callables entries
  callables ((k, other) ∷ entries) = callables entries

  -- `_load_handlers`
  unfoldable pub load_handlers : Option (Module E) → Exit ⊎ (Dict Text (Method E) × Option Text)
  load_handlers none = inl cannot_import
  load_handlers (some m) = elim m.handlers [
    | none ↦ inl no_handlers
    | some [] ↦ inl no_handlers
    | some (entry ∷ entries) ↦ elim (bad_keys (entry ∷ entries)) [
      | k ∷ bad ↦ inl (not_callable (k ∷ bad))
      | [] ↦ inr (callables (entry ∷ entries), m.service_name)
    ]
  ]

  unfoldable pub add_methods : Dict Text (Method E) → RpcServer E → RpcServer E
  add_methods [] server = server
  add_methods ((name, func) ∷ handlers) server = add_methods handlers (add_method name func server)

  -- What `serve` of the worker builds before it blocks; `sub_id` is what the queue answers to the
  -- server.
  unfoldable pub launch :
      Option (Module E) → Option Text → ℕ → Server Text → Exit ⊎ (Server Text × RpcServer E)
  launch m service_name sub_id transport = elim (load_handlers m) [
    | inl reason ↦ inl reason
    | inr (handlers, module_service) ↦
        let service = service_of service_name module_service in
        let server = add_methods handlers (init service) in
        inr (start transport, (serve sub_id server).1)
  ]

  -- `serve`, with what happens while it blocks; the subscription to end at last, if there is one.
  unfoldable pub serve_module :
      Option (Module E)
      → Option Text
      → ℕ
      → (Server Text × RpcServer E → Server Text × RpcServer E)
      → Server Text
      → Exit ⊎ (Option ℕ × (Server Text × RpcServer E))
  serve_module m service_name sub_id blocked transport =
      elim (launch m service_name sub_id transport) [
        | inl reason ↦ inl reason
        | inr world ↦
            let (transport₁, server) = blocked world in
            let (ended, server₁) = stop server in inr (ended, (close transport₁, server₁))
      ]

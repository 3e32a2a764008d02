-- ===== src/Worker/Handlers.antt =====
-- eventforge/worker.py: the handlers of a module, and the server's methods.
use observer_pattern.Prelude.{
  ◌≡◌, ◌≢◌, inl, inr, refl, ap, subst, ◌∙◌, Bool, true, false, Option, none, some, [], ◌∷◌, Text, ℕ,
  text_eq, arith, Option-cases, Bool-cases, if_cases, ◌==◌, All, All-map,
}
use observer_pattern.Prelude.Keys.{text_beq_iff}
use observer_pattern.Prelude.Dict
use observer_pattern.Prelude.Dict.{Dict, IsDict}
use observer_pattern.Rpc.Server.{Method, RpcServer, add_method, serve}
use observer_pattern.Worker.{Entry, callable, other, bad_keys, callables, add_methods}

absent :
    {V : Type 0} (k name : Text) (d : Dict Text V)
    → Dict.get k d ≡ none
    → (k == name) ≡ true
    → Dict.get name d ≡ none
absent k name d n q = subst (λ x. Dict.get x d ≡ none) ((text_beq_iff k name).0 q) n

get_later :
    {V : Type 0} (j k : Text) (v w : V) (d : Dict Text V)
    → Dict.get j d ≡ none
    → Dict.get k d ≡ some w
    → Dict.get k ((j, v) ∷ d) ≡ some w
unfolding Dict.get
get_later j k v w d n e = elim (Bool-cases (j == k)) [
  | inl q ↦ absurd (cc (absent j k d n q, e))
  | inr q ↦ rw (q) e
]

module _ {E : Type 0} where
  abbrev pub method_of : Option (Entry E) → Option (Method E)
  method_of (some (callable method)) = some method
  method_of (some other) = none
  method_of none = none

  pub get-callables :
      (name : Text) (entries : Dict Text (Entry E))
      → IsDict entries
      → Dict.get name (callables entries) ≡ method_of (Dict.get name entries)
  unfolding callables Dict.get
  get-callables name [] d = refl
  get-callables name ((k, callable method) ∷ entries) d = elim (Bool-cases (k == name)) [
    | inl q ↦ rw (q) refl
    | inr q ↦ rw (q) (get-callables name entries d.1)
  ]
  get-callables name ((k, other) ∷ entries) d = elim (Bool-cases (k == name)) [
    | inl q ↦ rw (q) (get-callables name entries d.1 ∙ ap method_of (absent k name entries d.0 q))
    | inr q ↦ rw (q) (get-callables name entries d.1)
  ]

  pub callables-IsDict :
      (entries : Dict Text (Entry E)) → IsDict entries → IsDict (callables entries)
  unfolding callables
  callables-IsDict [] d = tt
  callables-IsDict ((k, callable method) ∷ entries) d =
      (get-callables k entries d.1 ∙ ap method_of d.0, callables-IsDict entries d.1)
  callables-IsDict ((k, other) ∷ entries) d = callables-IsDict entries d.1

  get-add_methods :
      (name : Text) (handlers : Dict Text (Method E)) (server : RpcServer E)
      → IsDict handlers
      → Dict.get name (add_methods handlers server).methods ≡ (elim (Dict.get name handlers) [
        | some method ↦ some method
        | none ↦ Dict.get name server.methods
      ])
  unfolding add_methods add_method Dict.get
  get-add_methods name [] server d = refl
  get-add_methods name ((k, func) ∷ handlers) server d =
      let ih = get-add_methods name handlers (add_method k func server) d.1 in
      elim (Bool-cases (k == name)) [
        | inl q ↦ rw (q) (
            ih
            ∙ rw (absent k name handlers d.0 q)
                (rw (Dict.get-set k name func server.methods) (rw (q) refl)))
        | inr q ↦ rw (q) (
            ih
            ∙ ap (λ m. elim (Dict.get name handlers) [ some method ↦ some method | none ↦ m ])
                (Dict.get-set_ne k name func server.methods
                  (λ e. ground (arith, text_beq_iff k name))))
      ]

  pub offers :
      (name : Text) (handlers : Dict Text (Method E)) (server : RpcServer E)
      → server.methods ≡ []
      → IsDict handlers
      → Dict.get name (add_methods handlers server).methods ≡ Dict.get name handlers
  unfolding Dict.get
  offers name handlers server e d = elim (Option-cases (Dict.get name handlers)) [
    | inl q ↦ get-add_methods name handlers server d ∙ rw (q) (ap (Dict.get name) e)
    | inr (f, q) ↦ get-add_methods name handlers server d ∙ rw (q) refl
  ]

  pub add_methods_keeps :
      (handlers : Dict Text (Method E)) (server : RpcServer E)
      → ((add_methods handlers server).running ≡ server.running)
        × ((add_methods handlers server).service_name ≡ server.service_name)
  unfolding add_methods add_method
  add_methods_keeps [] server = (refl, refl)
  add_methods_keeps ((k, func) ∷ handlers) server =
      add_methods_keeps handlers (add_method k func server)

  pub serve_fresh :
      (sub_id : ℕ) (server : RpcServer E)
      → server.running ≡ false
      → (serve sub_id server).1 ≡ record server { running = true; subscribed = some sub_id }
  unfolding serve
  serve_fresh sub_id server e =
      if_cases {A = Bool × RpcServer E}
        (λ r. r.1 ≡ record server { running = true; subscribed = some sub_id }) server.running _ _
        (λ t. absurd (cc (t, e))) (λ f. refl)

  -- Names that are not callable, in a dict, are found with a value that is not.
  pub bad_keys-All :
      (entries : Dict Text (Entry E))
      → IsDict entries
      → All (λ k. Dict.get k entries ≡ some other) (bad_keys entries)
  unfolding bad_keys Dict.get
  bad_keys-All [] d = tt
  bad_keys-All ((j, callable method) ∷ entries) d =
      All-map (λ k. Dict.get k entries ≡ some other) (bad_keys entries)
        (λ k e. get_later j k (callable method) other entries d.0 e) (bad_keys-All entries d.1)
  bad_keys-All ((j, other) ∷ entries) d = (
    rw ((text_beq_iff j j).1 refl) refl,
    All-map (λ k. Dict.get k entries ≡ some other) (bad_keys entries)
        (λ k e. get_later j k other other entries d.0 e) (bad_keys-All entries d.1),
  )

  pub all_callable :
      (name : Text) (entries : Dict Text (Entry E))
      → bad_keys entries ≡ []
      → Dict.get name entries ≢ some other
  unfolding bad_keys Dict.get
  all_callable name [] b e = cc
  all_callable name ((k, callable method) ∷ entries) b e = elim (Bool-cases (k == name)) [
    | inl q ↦ absurd (cc)
    | inr q ↦ all_callable name entries b (ground (arith, e, q))
  ]
  all_callable name ((k, other) ∷ entries) b e = cc

-- ===== src/Transport/Tcp/Peer/Routing.antt =====
-- eventforge/transports/tcp.py: what arrives over a connection is dispatched, in order.
use observer_pattern.Prelude.{
  ℕ, zero, suc, ◌≡◌, refl, ap, sym, ◌∙◌, inl, inr, Bool, true, Option, none, some, List, [], ◌∷◌,
  ◌++◌, arith, All, length, Option-cases,
}
use observer_pattern.Types.{Message}
use observer_pattern.Transport.Tcp.Framing.{Bytes, Socket, send_msg, recv_msg, header_size}
use observer_pattern.Transport.Tcp.Framing.RoundTrip.{flat, recv_msg-send_msg, recv_exact_reads}
use observer_pattern.Transport.Tcp.Peer.{Peer, dispatch, read_loop}

-- A loop that runs for so many turns, and then is told to stop or finds no more to read.
abbrev pub turns : ℕ → List Bool
turns zero = true ∷ []
turns (suc n) = true ∷ turns n

-- What a peer writes that sends the messages one after the other; none where one is too long.
abbrev pub wire_of : (Message → Bytes) → List Message → Option Bytes
wire_of serialize [] = some []
wire_of serialize (message ∷ messages) = elim (send_msg (serialize message)) [
  | none ↦ none
  | some frame ↦ elim (wire_of serialize messages) [
    | none ↦ none
    | some frames ↦ some (frame ++ frames)
  ]
]

module _ {C E : Type 0} (invoke : C → Message → Peer C × E → Bool × (Peer C × E)) where
  abbrev pub dispatch_each : List Message → Peer C × E → Peer C × E
  dispatch_each [] world = world
  dispatch_each (message ∷ messages) world = dispatch_each messages (dispatch invoke message world)

  recv_msg_ended : (sock : Socket) → flat sock ≡ [] → (recv_msg sock).0 ≡ some none
  unfolding recv_msg
  recv_msg_ended sock e =
      let h = (recv_exact_reads header_size sock).1 (omega (arith, ap length e)) in rw (h, recv_msg)

  -- If decoding undoes the encoding of the messages, a connection over which they are sent and
  -- that is then closed makes the other end dispatch exactly those messages, in the order sent,
  -- however the bytes are split over the reads; then its loop ends.
  pub read_loop-wire_of :
      (serialize : Message → Bytes) (deserialize : Bytes → Option Message) (messages : List Message)
      (wire : Bytes) (sock : Socket) (world : Peer C × E)
      → All (λ m. deserialize (serialize m) ≡ some m) messages
      → wire_of serialize messages ≡ some wire
      → flat sock ≡ wire
      → read_loop invoke deserialize (turns (length messages)) sock world
        ≡ some (dispatch_each messages world)
  unfolding read_loop
  read_loop-wire_of serialize deserialize [] wire sock world decodes w f =
      let empty : wire ≡ [] = cc w in rw (read_loop, recv_msg_ended sock (f ∙ empty)) refl
  read_loop-wire_of serialize deserialize (m ∷ messages) wire sock world decodes w f =
      elim (Option-cases (send_msg (serialize m))) [
        | inl q ↦ cc (q, w)
        | inr (frame, q) ↦ elim (Option-cases (wire_of serialize messages)) [
          | inl p ↦ cc (q, p, w)
          | inr (rest, p) ↦
              let same : frame ++ rest ≡ wire = cc (q, p, w) in
              let r = recv_msg-send_msg (serialize m) frame rest sock (f ∙ sym same) q in
              rw (r.0, read_loop, decodes.0)
                (read_loop-wire_of serialize deserialize messages rest (recv_msg sock).1
                  (dispatch invoke m world) decodes.1 p r.1)
        ]
      ]

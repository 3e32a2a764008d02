-- ===== src/Transport/Tcp/Server/Broadcast.antt =====
-- eventforge/transports/tcp.py, `TCPServerTransport.send`: who gets the message, and who stays.
use observer_pattern.Prelude.{
  ℕ, ◌≡◌, ◌≢◌, refl, ap, sym, ◌∙◌, inl, inr, Bool, true, false, not, Option, none, some, List, [],
  ◌∷◌, ◌++◌, arith, map, filter, All, All-append, Bool-cases, nat_eq,
}
use mathlib.Core.List.{append_assoc}
use observer_pattern.Types.{Message}
use observer_pattern.Transport.Memory.{remove_first}
use observer_pattern.Transport.Tcp.Framing.{Bytes, send_msg}
use observer_pattern.Transport.Tcp.Server.{Server, write_all, send}

-- What every client gets that can be written to.
abbrev pub frames : Option Bytes → List ℕ → List (ℕ × Bytes)
frames none socks = []
frames (some bytes) socks = map (λ sock. (sock, bytes)) socks

-- Nothing can be written to anyone when there is no frame.
abbrev pub works : (ℕ → Bool) → Option Bytes → ℕ → Bool
works fails none sock = false
works fails (some bytes) sock = not (fails sock)

remove_first_absent :
    (x : ℕ) (kept l : List ℕ) → All (λ y. y ≢ x) kept → remove_first x (kept ++ x ∷ l) ≡ kept ++ l
unfolding remove_first
remove_first_absent x [] l a = ground arith
remove_first_absent x (y ∷ kept) l a = ground (arith, remove_first_absent x kept l a.1)

module _ (fails : ℕ → Bool) where
  works-absent :
      (frame : Option Bytes) (x : ℕ) (kept : List ℕ)
      → works fails frame x ≡ false
      → All (λ y. works fails frame y ≡ true) kept
      → All (λ y. y ≢ x) kept
  works-absent frame x [] h a = tt
  works-absent frame x (y ∷ kept) h a = (λ e. cc (a.0, h, e), works-absent frame x kept h a.1)

  write_all_lem :
      (frame : Option Bytes) (socks kept : List ℕ)
      → All (λ y. works fails frame y ≡ true) kept
      → write_all fails frame socks (kept ++ socks) ≡ (
        frames frame (filter (works fails frame) socks),
        kept ++ filter (works fails frame) socks,
      )
  unfolding write_all
  write_all_lem none [] kept a = refl
  write_all_lem (some bytes) [] kept a = refl
  write_all_lem none (x ∷ socks) kept a =
      rw (write_all, remove_first_absent x kept socks (works-absent none x kept refl a))
        (write_all_lem none socks kept a)
  write_all_lem (some bytes) (x ∷ socks) kept a = elim (Bool-cases (fails x)) [
    | inl q ↦
        rw (q, remove_first_absent x kept socks (works-absent (some bytes) x kept (ap not q) a))
          (write_all_lem (some bytes) socks kept a)
    | inr q ↦
        let left = filter (works fails (some bytes)) socks in
        let ih =
          write_all_lem (some bytes) socks (kept ++ x ∷ [])
            (All-append (λ y. works fails (some bytes) y ≡ true) kept (x ∷ []) a (ap not q, tt)) in
        let e : write_all fails (some bytes) socks (kept ++ x ∷ socks)
            ≡ (frames (some bytes) left, kept ++ x ∷ left) =
          ap (write_all fails (some bytes) socks) (sym (append_assoc kept (x ∷ []) socks))
          ∙ ih
          ∙ ap (λ l. (frames (some bytes) left, l)) (append_assoc kept (x ∷ []) left) in
        rw q (ap {B = List (ℕ × Bytes) × List ℕ} (λ r. ((x, bytes) ∷ r.0, r.1)) e)
  ]

module _ {C : Type 0} where
  -- `send` writes one frame with the message to each connection that can be written to, in order,
  -- and keeps exactly those; a message whose frame cannot be built costs every client its place.
  pub send_broadcasts :
      (serialize : Message → Bytes) (fails : ℕ → Bool) (message : Message) (s : Server C)
      → let frame = send_msg (serialize message) in
        let (written, after) = send serialize fails message s in
        (written ≡ frames frame (filter (works fails frame) s.clients))
        × (after.clients ≡ filter (works fails frame) s.clients)
        × (after.peer ≡ s.peer)
  unfolding send
  send_broadcasts serialize fails message s =
      let e = write_all_lem fails (send_msg (serialize message)) s.clients [] tt in
      (ap (λ r. r.0) e, ap (λ r. r.1) e, refl)

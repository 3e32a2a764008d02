-- ===== src/Transport/Tcp/Framing/RoundTrip.antt =====
-- eventforge/transports/tcp.py: what `_recv_exact` and `_recv_msg` read, however the bytes arrive.
use observer_pattern.Prelude.{
  ℕ, zero, suc, ◌+◌, ◌-◌, ◌/◌, ◌%◌, ◌≤◌, ◌<◌, ◌≡◌, refl, ap, sym, ◌∙◌, Option, none, some, [], ◌∷◌,
  ◌++◌, ltb, length, take, drop, arith, length-append, take-length-append, Bool-cases, inl, inr,
  drop-length-append,
}
use native.Mathlib.Numerals.{unary_clauses}
use mathlib.Core.List.{append_assoc, append-nil}
use observer_pattern.Transport.Tcp.Framing.{
  Bytes, Socket, pack, unpack, send_msg, put_back, recv, recv_loop, recv_exact, recv_msg,
  header_size,
}

-- All the bytes that will arrive.
abbrev pub flat : Socket → Bytes
flat [] = []
flat ((b, bs) ∷ sock) = b ∷ bs ++ flat sock

flat-put_back : (bs : Bytes) (sock : Socket) → flat (put_back bs sock) ≡ bs ++ flat sock
unfolding put_back
flat-put_back [] sock = refl
flat-put_back (b ∷ bs) sock = refl

-- A first read of `n` bytes and the reads of what is missing come to one read of all.
take-take-drop :
    (n : ℕ) (xs ys : Bytes)
    → take n xs ++ take (n - length (take n xs)) (drop n xs ++ ys) ≡ take n (xs ++ ys)
take-take-drop zero xs ys = refl
take-take-drop (suc n) [] ys = simp unary_clauses
take-take-drop (suc n) (x ∷ xs) ys = simp unary_clauses (ap (◌∷◌ x) (take-take-drop n xs ys))

drop-take-drop :
    (n : ℕ) (xs ys : Bytes) → drop (n - length (take n xs)) (drop n xs ++ ys) ≡ drop n (xs ++ ys)
drop-take-drop zero xs ys = refl
drop-take-drop (suc n) [] ys = simp unary_clauses
drop-take-drop (suc n) (x ∷ xs) ys = simp unary_clauses (drop-take-drop n xs ys)

length-take-drop :
    (n : ℕ) (xs ys : Bytes) → length (drop n xs ++ ys) + length (take n xs) ≡ length (xs ++ ys)
length-take-drop zero xs ys = omega arith
length-take-drop (suc n) [] ys = omega arith
length-take-drop (suc n) (x ∷ xs) ys = omega (arith, length-take-drop n xs ys)

-- What has been read, when `n` bytes were asked for and `bs` are all that arrive.
abbrev Reads : ℕ → Bytes → Bytes → Option (Option Bytes) × Socket → Type 0
Reads n chunks bs (answer, sock) =
    (n ≤ length bs → (answer ≡ some (some (chunks ++ take n bs))) × (flat sock ≡ drop n bs))
    × (length bs < n → answer ≡ some none)

recv_loop-Reads :
    (fuel : ℕ) (chunks : Bytes) (n : ℕ) (sock : Socket)
    → n ≤ fuel
    → Reads n chunks (flat sock) (recv_loop fuel chunks n sock)
unfolding recv_loop recv
recv_loop-Reads fuel chunks zero sock f =
    (λ h. (ap (λ l. some (some l)) (sym (append-nil chunks)), refl), λ h. absurd (omega arith))
recv_loop-Reads zero chunks (suc n) sock f = absurd (omega arith)
recv_loop-Reads (suc fuel) chunks (suc n) [] f = (λ h. absurd (omega arith), λ h. refl)
recv_loop-Reads (suc fuel) chunks (suc n) ((b, bs) ∷ sock) f =
    let k : ℕ = suc n - suc (length (take n bs)) in
    let later : Socket = put_back (drop n bs) sock in
    let seen = flat-put_back (drop n bs) sock in
    let ih = recv_loop-Reads fuel (chunks ++ b ∷ take n bs) k later (omega arith) in
    let l = length-take-drop n bs (flat sock) in
    let l₁ = ap length seen in
    let e : take n bs ++ take k (drop n bs ++ flat sock) ≡ take n (bs ++ flat sock) =
      simp unary_clauses (take-take-drop n bs (flat sock)) in
    let e₁ : drop k (drop n bs ++ flat sock) ≡ drop n (bs ++ flat sock) =
      simp unary_clauses (drop-take-drop n bs (flat sock)) in
    (
      λ h.
          let r = ih.0 (omega (arith, l, l₁)) in
          (
            r.0
                ∙ ap (λ x. some (some x))
                    (append_assoc chunks (b ∷ take n bs) (take k (flat later))
                      ∙ ap (λ x. chunks ++ b ∷ x) (ap (λ x. take n bs ++ take k x) seen ∙ e)),
            r.1 ∙ ap (drop k) seen ∙ e₁,
          ),
      λ h. ih.1 (omega (arith, l, l₁)),
    )

-- However the bytes are split over the reads, `_recv_exact(n)` returns the next `n` bytes and
-- leaves what follows them if that many arrive, and None if the other side hangs up before.
pub recv_exact_reads :
    (n : ℕ) (sock : Socket)
    → let (answer, after) = recv_exact n sock in
      (n ≤ length (flat sock)
        → (answer ≡ some (some (take n (flat sock)))) × (flat after ≡ drop n (flat sock)))
      × (length (flat sock) < n → answer ≡ some none)
unfolding recv_exact
recv_exact_reads n sock = recv_loop-Reads n [] n sock (omega arith)

unpack-pack :
    (n : ℕ)
    → n < 4294967296
    → unpack (n / 16777216 ∷ n / 65536 % 256 ∷ n / 256 % 256 ∷ n % 256 ∷ []) ≡ n
unfolding unpack
unpack-pack n h = omega arith

send_msg_lem :
    (body : Bytes)
    → let n = length body in
      let header : Bytes = n / 16777216 ∷ n / 65536 % 256 ∷ n / 256 % 256 ∷ n % 256 ∷ [] in
      (n < 4294967296 → send_msg body ≡ some (header ++ body))
      × (4294967296 ≤ n → send_msg body ≡ none)
unfolding send_msg pack
send_msg_lem body = (λ small. ground (arith, small), λ big. ground (arith, big))

recv_msg_reads :
    (body rest : Bytes) (sock : Socket)
    → length body < 4294967296
    → let n = length body in
      let header : Bytes = n / 16777216 ∷ n / 65536 % 256 ∷ n / 256 % 256 ∷ n % 256 ∷ [] in
      flat sock ≡ header ++ body ++ rest
      → (recv_msg sock).0 ≡ some (some body) × flat (recv_msg sock).1 ≡ rest
unfolding recv_msg
recv_msg_reads body rest sock small wire =
    let n = length body in
    let header : Bytes = n / 16777216 ∷ n / 65536 % 256 ∷ n / 256 % 256 ∷ n % 256 ∷ [] in
    let h = (recv_exact_reads header_size sock).0 (omega (arith, ap length wire)) in
    let read : (recv_exact header_size sock).0 ≡ some (some header) =
      h.0 ∙ ap (λ x. some (some (take header_size x))) wire in
    let after = (recv_exact header_size sock).1 in
    let d : flat after ≡ body ++ rest = h.1 ∙ ap (drop header_size) wire in
    let b = (recv_exact_reads n after).0 (omega (arith, ap length d, length-append body rest)) in
    rw (read, recv_msg, unpack-pack n small)
      (
        b.0 ∙ ap (λ x. some (some x)) (ap (take n) d ∙ take-length-append body rest),
        b.1 ∙ ap (drop n) d ∙ drop-length-append body rest,
      )

-- Whatever `_send_msg` writes, `_recv_msg` reads back, and leaves the bytes that follow it, however
-- all of them are split over the reads; and it writes no body of 2^32 bytes or more.
pub recv_msg-send_msg :
    (body wire rest : Bytes) (sock : Socket)
    → flat sock ≡ wire ++ rest
    → send_msg body ≡ some wire
    → ((recv_msg sock).0 ≡ some (some body))
      × (flat (recv_msg sock).1 ≡ rest)
      × (length body < 4294967296)
recv_msg-send_msg body wire rest sock arrives sent =
    let n = length body in
    let header : Bytes = n / 16777216 ∷ n / 65536 % 256 ∷ n / 256 % 256 ∷ n % 256 ∷ [] in
    elim (Bool-cases (ltb n 4294967296)) [
      | inl b ↦
          let small : n < 4294967296 = ground arith in
          let w : some wire ≡ some (header ++ body) = sym sent ∙ (send_msg_lem body).0 small in
          let same : wire ≡ header ++ body = cc w in
          let r = recv_msg_reads body rest sock small (arrives ∙ ap (λ x. x ++ rest) same) in
          (r.0, r.1, small)
      | inr b ↦ let q = (send_msg_lem body).1 (ground arith) in absurd (cc (q, sent))
    ]

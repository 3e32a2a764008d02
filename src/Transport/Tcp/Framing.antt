-- ===== src/Transport/Tcp/Framing.antt =====
-- eventforge/transports/tcp.py: `_send_msg`, `_recv_exact`, `_recv_msg`. A byte is a number below
-- 256. A socket that is read is the list of what `recv` finds at each wait, never empty; at the
-- end of the list the other side has hung up.
pub mod RoundTrip
use observer_pattern.Prelude.{
  ℕ, zero, suc, ◌+◌, ◌-◌, ◌*◌, ◌/◌, ◌%◌, ◌≤◌, ◌<◌, ◌≡◌, Option, none, some, List, [], ◌∷◌, ◌++◌,
  if◌then◌else◌, ltb, length, take, drop,
}

abbrev pub Bytes : Type 0
Bytes = List ℕ

abbrev pub Socket : Type 0
Socket = List (ℕ × Bytes)

abbrev pub header_size : ℕ
header_size = 4

-- `struct.pack("!I", n)`; from 2^32 on it raises
unfoldable pub pack : ℕ → Option Bytes
pack n =
    if ltb n 4294967296
    then some (n / 16777216 ∷ n / 65536 % 256 ∷ n / 256 % 256 ∷ n % 256 ∷ [])
    else none

-- `struct.unpack("!I", header)`, of four bytes
unfoldable pub unpack : Bytes → ℕ
unpack (a ∷ b ∷ c ∷ d ∷ []) = a * 16777216 + b * 65536 + c * 256 + d
unpack _ = 0

-- What `_send_msg` hands to `sendall`.
unfoldable pub send_msg : Bytes → Option Bytes
send_msg body = elim (pack (length body)) [ none ↦ none | some header ↦ some (header ++ body) ]

-- What a `recv` leaves of the bytes that it found.
unfoldable pub put_back : Bytes → Socket → Socket
put_back [] sock = sock
put_back (b ∷ bs) sock = (b, bs) ∷ sock

-- `sock.recv(n)`: at most `n` bytes; none where the other side has hung up
unfoldable pub recv : ℕ → Socket → Bytes × Socket
recv n [] = ([], [])
recv n ((b, bs) ∷ sock) = (take n (b ∷ bs), put_back (drop n (b ∷ bs)) sock)

-- The loop of `_recv_exact`; its answer is `none` where the fuel ends first.
unfoldable pub recv_loop : ℕ → Bytes → ℕ → Socket → Option (Option Bytes) × Socket
recv_loop fuel chunks zero sock = (some (some chunks), sock)
recv_loop zero chunks (suc remaining) sock = (none, sock)
recv_loop (suc fuel) chunks (suc remaining) sock =
    let (chunk, sock₁) = recv (suc remaining) sock in
    let rest = recv_loop fuel (chunks ++ chunk) (suc remaining - length chunk) sock₁ in
    elim chunk [ [] ↦ (some none, sock₁) | c ∷ cs ↦ rest ]

-- Each turn reads a byte at least, so there are no more turns than bytes.
unfoldable pub recv_exact : ℕ → Socket → Option (Option Bytes) × Socket
recv_exact n sock = recv_loop n [] n sock

unfoldable pub recv_msg : Socket → Option (Option Bytes) × Socket
recv_msg sock =
    let (header, sock₁) = recv_exact header_size sock in
    elim header [
      | none ↦ (none, sock₁)
      | some none ↦ (some none, sock₁)
      | some (some bytes) ↦ recv_exact (unpack bytes) sock₁
    ]

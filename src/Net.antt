-- ===== src/Net.antt =====
-- src/net.cc: the transfers over a connected socket. The system's `recv` and `send` are parameters.
pub mod SendAll
pub mod Open
mod Tests
use droidcam_whip_c.Common.{
  some, none, Option, ℕ, zero, suc, ◌+◌, ◌-◌, ◌^◌, List, [], ◌∷◌, Bool, true, false, drop, length,
}
use droidcam_whip_c.Common.Int.{ℤ, pos, negsuc}

-- What `recv` and `send` return: a count, with the bytes for `recv`, or -1.
pub data Received : Type 0 where
  got : List ℕ → Received
  broken : Received

abbrev pub Recv : Type 0 → Type 0
Recv Sock = Sock → ℕ → Received × Sock

abbrev pub Send : Type 0 → Type 0
Send Sock = Sock → List ℕ → ℤ × Sock

-- The result of `recv` as the `size_t` that the callers compare with: -1 is the largest one.
abbrev pub received : Received → ℕ
received (got bytes) = length bytes
received broken = 2 ^ 64 - 1

abbrev pub received_bytes : Received → List ℕ
received_bytes (got bytes) = bytes
received_bytes broken = []

module _ {Sock : Type 0} where
  -- `recv` with `MSG_WAITALL`.
  unfoldable pub net_recv_all : Recv Sock → Sock → ℕ → Received × Sock
  net_recv_all recv sock len = recv sock len

  -- The loop of `net_send_all`, by the bytes from `ptr` on; `len -= w` is their number. The fuel is
  -- a bound on the rounds; `none` means that it ran out.
  unfoldable pub net_send_rounds : Send Sock → ℕ → Sock → List ℕ → Option (ℤ × Sock)
  net_send_rounds send zero sock bytes = none
  net_send_rounds send (suc fuel) sock bytes = elim bytes [
    | [] ↦ some (pos 1, sock)
    | b ∷ bs ↦
        let (w, sock') = send sock (b ∷ bs) in
        elim w [
          | negsuc n ↦ some (negsuc 0, sock')
          | pos zero ↦ some (negsuc 0, sock')
          | pos (suc n) ↦ net_send_rounds send fuel sock' (drop (suc n) (b ∷ bs))
        ]
  ]

  unfoldable pub net_send_all : Send Sock → Sock → List ℕ → Option (ℤ × Sock)
  unfolding net_send_rounds
  net_send_all send sock bytes = net_send_rounds send (suc (length bytes)) sock bytes

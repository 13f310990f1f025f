-- ===== src/Protocol/Chain.antt =====
-- The loop over IPv6 extension headers in `get_packet`.
use j_sdntrace.Base.{
  le→leb, Bool-cases, ℕ, zero, suc, ◌+◌, ◌-◌, ◌*◌, ◌≤◌, ◌<◌, ◌≡◌, refl, ◌⊎◌, inl, inr, ◌&&◌, some,
  arith,
}
use j_sdntrace.Wire.{IsBytes, View, skip}
use j_sdntrace.Ipv6.{is_extension}
use j_sdntrace.Protocol.{sub16, positive16, chain_step, chain_next, chain}

chain_step-bounds :
    (v : View) (tproto : ℕ)
    → IsBytes v.bytes
    → (8 ≤ chain_step v tproto) × (chain_step v tproto < 2056)
chain_step-bounds v tproto b = ground (arith, b 1)

-- One round keeps what the loop's end depends on.
step_lem :
    (fuel size n clen : ℕ)
    → (8 ≤ n) × (n < 2056)
    → (0 < clen) × (clen < 32768)
    → (clen + 8 ≤ 8 * suc fuel) ⊎ (32768 ≤ clen)
    → (32768 ≤ clen) ⊎ (clen < size)
    → (0 < fuel)
      × (sub16 clen n < 65536)
      × ((sub16 clen n + 8 ≤ 8 * fuel) ⊎ (32768 ≤ sub16 clen n))
      × ((32768 ≤ sub16 clen n) ⊎ (sub16 clen n < size - n))
step_lem fuel size n clen bounds positive enough room = ground arith

-- Whatever the bytes are, on a positive `clen` below the number of captured bytes from the pointer on
-- and with a fuel of at least clen / 8 + 1, and on a negative `clen` with any fuel above 0, the loop
-- over the extension headers ends and reads nothing past the captured bytes.
pub chain-total :
    (fuel : ℕ) (v : View) (tproto clen : ℕ)
    → IsBytes v.bytes
    → clen < 65536
    → 0 < fuel
    → (clen + 8 ≤ 8 * fuel) ⊎ (32768 ≤ clen)
    → (32768 ≤ clen) ⊎ (clen < v.size)
    → (p : ℕ × ℕ) × (chain fuel v tproto clen ≡ some p)
unfolding chain
chain-total zero v tproto clen b word some_fuel enough room = absurd (omega arith)
chain-total (suc fuel) v tproto clen b word some_fuel enough room =
    elim (Bool-cases (is_extension tproto && positive16 clen)) [
      | inr stop ↦ ((tproto, clen), rw stop refl)
      | inl go ↦
          let n = chain_step v tproto in
          let positive : (0 < clen) × (clen < 32768) = ground arith in
          let next =
            step_lem fuel v.size n clen (chain_step-bounds v tproto b) positive enough room in
          let (p, found) =
            chain-total fuel (skip v n) (chain_next v) (sub16 clen n) (λ k. b (n + k)) next.1 next.0
              next.2 next.3 in
          (p, rw (go, le→leb 2 v.size (omega arith)) found)
    ]

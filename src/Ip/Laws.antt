-- ===== src/Ip/Laws.antt =====
-- What `set_ip` leaves in the header, and which bits `analyze_ip` takes for the flags.
use j_sdntrace.Base.{
  ◌==◌, length, All, ℕ, ◌/◌, ◌%◌, ◌^◌, ◌<◌, ◌≡◌, ap, ◌∙◌, inl, Option, List, arith,
}
use j_sdntrace.Wire.{Region, IsBytes, le16, ntohs, bit, poke, put8, put16, get_region, slice}
use j_sdntrace.Wire.Laws.{
  poke-IsBytes, put16-IsBytes, get_region-IsBytes, get_region-below, flag_digit, bit-digit,
  slice-get_region_whole, slice-get_region_off,
}
use j_sdntrace.Objects.{IpPacket}
use j_sdntrace.Ip.{ip_value, ip_off_field, ip_tos_field, set_ip}

-- The fields that the header holds as they are lie in its ranges, and the addresses have four bytes.
pub record IsIpv4 (p : IpPacket) : Type 0 where
  pub version_four : p.version ≡ 4
  pub priority_fits : p.priority < 8
  pub rsv_tos_fits : p.rsv_tos < 4
  pub ident_fits : p.ident < 65536
  pub hop_limit_fits : p.hop_limit < 256
  pub source_four : length p.source_address ≡ 4
  pub destination_four : length p.destination_address ≡ 4

module _ (p : IpPacket) (r : Region) where
  -- The stores before the addresses.
  abbrev fields : Region
  fields =
      put8
        (put8 (put16 (put16 (poke r 0 0x45) 4 (ntohs (p.ident % 65536))) 6 (ip_off_field p)) 8
          p.hop_limit)
        1 (ip_tos_field p)

  pub set_ip_low : (k : ℕ) → k < 12 → set_ip p r k ≡ fields k
  unfolding set_ip
  set_ip_low k lt =
      get_region-below p.destination_address 4 (get_region p.source_address 4 fields 12) 16 k
        (omega arith)
      ∙ get_region-below p.source_address 4 fields 12 k (omega arith)

  pub set_ip_addresses :
      IsIpv4 p
      → (slice (set_ip p r) 12 4 ≡ p.source_address)
        × (slice (set_ip p r) 16 4 ≡ p.destination_address)
  unfolding set_ip
  set_ip_addresses h = (
    slice-get_region_off p.destination_address 4 (get_region p.source_address 4 fields 12) 16 12 4
          (inl (omega arith))
        ∙ slice-get_region_whole p.source_address 4 fields 12 h.source_four,
    slice-get_region_whole p.destination_address 4 (get_region p.source_address 4 fields 12) 16
        h.destination_four,
  )

  tos_bits :
      IsIpv4 p
      → let b = ip_tos_field p % 256 in
        (b / 32 ≡ p.priority)
        × (b % 4 ≡ p.rsv_tos)
        × (bit b 4 ≡ p.d_flag)
        × (bit b 3 ≡ p.t_flag)
        × (bit b 2 ≡ p.r_flag)
  tos_bits h =
      let d = flag_digit p.d_flag 0x10 in
      let t = flag_digit p.t_flag 0x08 in
      let f = flag_digit p.r_flag 0x04 in
      let b : ℕ = ip_tos_field p % 256 in
      (
        omega (arith, h, d, t, f),
        omega (arith, h, d, t, f),
        bit-digit p.d_flag b 4 (omega (arith, h, d, t, f)),
        bit-digit p.t_flag b 3 (omega (arith, h, d, t, f)),
        bit-digit p.r_flag b 2 (omega (arith, h, d, t, f)),
      )

  pub set_ip_tos :
      IsIpv4 p
      → let b = set_ip p r 1 in
        (b / 32 ≡ p.priority)
        × (b % 4 ≡ p.rsv_tos)
        × (bit b 4 ≡ p.d_flag)
        × (bit b 3 ≡ p.t_flag)
        × (bit b 2 ≡ p.r_flag)
  set_ip_tos h = rw (set_ip_low 1 (omega arith)) (tos_bits h)

  pub set_ip-IsBytes :
      IsBytes r
      → All (λ b. b < 256) p.source_address
      → All (λ b. b < 256) p.destination_address
      → IsBytes (set_ip p r)
  unfolding set_ip
  set_ip-IsBytes h hs hd =
      get_region-IsBytes p.destination_address 4 _ 16
        (get_region-IsBytes p.source_address 4 _ 12
          (poke-IsBytes _ 1 (ip_tos_field p % 256)
            (poke-IsBytes _ 8 (p.hop_limit % 256)
              (put16-IsBytes _ 6 (ip_off_field p) (
                put16-IsBytes _ 4 (ntohs (p.ident % 65536))
                  (poke-IsBytes r 0 0x45 h (omega arith))))
              (omega arith))
            (omega arith))
          hs)
        hd

-- On a little-endian host `analyze_ip` takes the flags from the low byte of the fragment offset:
-- IP_RF, IP_DF and IP_MF, tested before `ntohs`, are bits 7, 6 and 5 of byte 7 of the header, while
-- the wire has them in byte 6.
pub ip_value_flags :
    (r : Region) (option : Option (List ℕ))
    → IsBytes r
    → ((ip_value r option).rsv_frag ≡ bit (r 7) 7)
      × ((ip_value r option).dont_frag ≡ bit (r 7) 6)
      × ((ip_value r option).more_frag ≡ bit (r 7) 5)
unfolding ip_value
ip_value_flags r option h =
    let low = h 6 in
    let e7 : le16 r 6 / 2 ^ 15 ≡ r 7 / 2 ^ 7 = omega arith in
    let e6 : le16 r 6 / 2 ^ 14 ≡ r 7 / 2 ^ 6 = omega arith in
    let e5 : le16 r 6 / 2 ^ 13 ≡ r 7 / 2 ^ 5 = omega arith in
    (ap (λ x. x % 2 == 1) e7, ap (λ x. x % 2 == 1) e6, ap (λ x. x % 2 == 1) e5)

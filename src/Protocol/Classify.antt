-- ===== src/Protocol/Classify.antt =====
-- From the captured bytes of an Ethernet frame to its transport protocol, on every branch.
use j_sdntrace.Ipv6.{is_extension}
use j_sdntrace.Base.{
  ◌==◌, le→leb, Bool-cases, ℕ, suc, ◌+◌, ◌-◌, ◌/◌, ◌%◌, ◌≤◌, ◌<◌, ◌≡◌, refl, ap, ◌∙◌, inl, inr,
  true, false, some, arith,
}
use j_sdntrace.Wire.{IsBytes, le16, ntohs, View, skip}
use j_sdntrace.Ip.{ip_hlen}
use j_sdntrace.Protocol.{
  unknown_proto, sub16, positive16, classify, chain_step, chain_next, chain, chain_fuel, ipv4_proto,
  ipv6_proto, arp_proto, transport_proto, checked_proto, ip_object, kind_of,
}
use j_sdntrace.Protocol.Chain.{chain-total}

chain-ends :
    (v : View) (clen : ℕ)
    → IsBytes v.bytes
    → (0 < clen) × (clen < 32768)
    → clen < v.size
    → (p : ℕ × ℕ) × (chain chain_fuel v (v.bytes 6) clen ≡ some p)
chain-ends v clen b positive room =
    chain-total chain_fuel v (v.bytes 6) clen b (omega arith) (omega arith) (inl (omega arith))
      (inr room)

ipv4_proto-total :
    (v : View) → 10 ≤ v.size → v.size < 32768 → (p : ℕ × ℕ) × (ipv4_proto v v.size ≡ some p)
unfolding ipv4_proto
ipv4_proto-total v some_bytes small =
    let cut = sub16 v.size (ip_hlen v.bytes) in
    elim (Bool-cases (positive16 cut)) [
      | inr none_left ↦ ((0x0800, cut), rw (le→leb 1 v.size (omega arith), none_left) refl)
      | inl more ↦ elim (Bool-cases (ntohs (le16 v.bytes 6) % 8192 == 0)) [
        | inl first ↦ (
          (v.bytes 9, cut),
          rw
              (
                le→leb 1 v.size (omega arith),
                le→leb 8 v.size (omega arith),
                le→leb 10 v.size (omega arith),
                more,
                first,
              )
              refl,
        )
        | inr later ↦ (
          (0x0800, cut),
          rw (le→leb 1 v.size (omega arith), le→leb 8 v.size (omega arith), more, later) refl,
        )
      ]
    ]

ipv6_proto-total :
    (v : View) (junk : ℕ)
    → IsBytes v.bytes
    → v.size < 32768
    → (p : ℕ × ℕ) × (ipv6_proto v v.size junk ≡ some p)
unfolding ipv6_proto
ipv6_proto-total v junk b small =
    let cut = sub16 v.size 40 in
    elim (Bool-cases (positive16 cut)) [
      | inr none_left ↦ ((junk, cut), rw none_left refl)
      | inl more ↦
          let bounds : (40 < v.size) × (cut ≡ v.size - 40) = ground arith in
          let (p, found) = chain-ends v cut b (ground arith) (omega arith) in
          (p, rw (more, le→leb 7 v.size (omega arith)) found)
    ]

transport_proto-total :
    (v : View) (nproto junk : ℕ)
    → IsBytes v.bytes
    → 24 ≤ v.size
    → v.size < 32768
    → (p : ℕ × ℕ) × (transport_proto v 1 nproto (v.size - 14) junk ≡ some p)
unfolding transport_proto
transport_proto-total v nproto junk b some_bytes small =
    let positive : positive16 (v.size - 14) ≡ true = ground arith in
    elim (Bool-cases (nproto == 0x0800)) [
      | inl is_v4 ↦
          let (p, found) = ipv4_proto-total (skip v 14) (omega arith) (omega arith) in
          (p, rw (positive, is_v4) found)
      | inr not_v4 ↦ elim (Bool-cases (nproto == 0x86dd)) [
        | inl is_v6 ↦
            let (p, found) = ipv6_proto-total (skip v 14) junk (λ k. b (14 + k)) (omega arith) in
            (p, rw (positive, not_v4, is_v6) found)
        | inr not_v6 ↦ elim (Bool-cases (nproto == 0x0806)) [
          | inl is_arp ↦ (arp_proto (v.size - 14) junk, rw (positive, not_v4, not_v6, is_arp) refl)
          | inr not_arp ↦ elim (Bool-cases (nproto == unknown_proto)) [
            | inl unknown ↦
                ((unknown_proto, v.size - 14), rw (positive, not_v4, not_v6, not_arp, unknown) refl)
            | inr known ↦
                ((nproto, v.size - 14), rw (positive, not_v4, not_v6, not_arp, known) refl)
          ]
        ]
      ]
    ]

-- On any Ethernet frame of which at least 24 and fewer than 32768 bytes were captured, whatever they
-- are and whatever the stack held, the code that finds the network and the transport protocol ends
-- and reads nothing past the captured bytes; the network protocol is that of bytes 12 and 13.
pub classification-total :
    (v : View) (junk : ℕ)
    → IsBytes v.bytes
    → 24 ≤ v.size
    → v.size < 32768
    → (classify v 1 ≡ some (ntohs (le16 v.bytes 12), v.size - 14))
      × (p : ℕ × ℕ) × (transport_proto v 1 (ntohs (le16 v.bytes 12)) (v.size - 14) junk ≡ some p)
unfolding classify
classification-total v junk b some_bytes small =
    let (p, found) = transport_proto-total v (ntohs (le16 v.bytes 12)) junk b some_bytes small in
    (ground arith, p, found)

first_byte-no_extension : (n : ℕ) → n / 16 ≡ 6 → is_extension n ≡ false
first_byte-no_extension n version = ground arith

chain_next-version : (v : View) → v.bytes 0 / 16 ≡ 6 → chain_next v ≡ v.bytes 0
chain_next-version v version = ground arith

chain-restart :
    (fuel : ℕ) (v : View) (tproto clen : ℕ)
    → v.bytes 0 / 16 ≡ 6
    → is_extension tproto ≡ true
    → positive16 clen ≡ true
    → 2 ≤ v.size
    → chain (suc (suc fuel)) v tproto clen ≡ some (v.bytes 0, sub16 clen (chain_step v tproto))
unfolding chain
chain-restart fuel v tproto clen version named positive some_bytes =
    rw
      (
        named,
        positive,
        le→leb 2 v.size some_bytes,
        chain_next-version v version,
        first_byte-no_extension (v.bytes 0) version,
      )
      refl

kind_of-version : (n clen : ℕ) → n / 16 ≡ 6 → kind_of 0x86dd (checked_proto n clen) ≡ ip_object
unfolding kind_of checked_proto
kind_of-version n clen version = ground arith

-- An IPv6 header at `v`, with more than 40 and fewer than 32768 captured bytes, names an extension
-- header. The loop begins at the IPv6 header instead of the extension header: it takes the header's
-- first byte for the next protocol and stops, so the object is an IPPacket, whatever transport
-- protocol the packet carries.
pub ipv6_extension-ip_object :
    (v : View) (junk : ℕ)
    → v.bytes 0 / 16 ≡ 6
    → is_extension (v.bytes 6) ≡ true
    → 40 < v.size
    → v.size < 32768
    → (ipv6_proto v v.size junk ≡ some (v.bytes 0, sub16 (v.size - 40) (chain_step v (v.bytes 6))))
      × ((clen : ℕ) → kind_of 0x86dd (checked_proto (v.bytes 0) clen) ≡ ip_object)
unfolding ipv6_proto
ipv6_extension-ip_object v junk version named more small =
    let positive : positive16 (sub16 v.size 40) ≡ true = ground arith in
    let cut : sub16 v.size 40 ≡ v.size - 40 = omega arith in
    (
      rw (positive, le→leb 7 v.size (omega arith))
          (chain-restart 4095 v (v.bytes 6) (sub16 v.size 40) version named positive (omega arith)
            ∙ ap (λ c. some (v.bytes 0, sub16 c (chain_step v (v.bytes 6)))) cut),
      λ clen. kind_of-version (v.bytes 0) clen version,
    )

-- ===== src/Arp/RoundTrip.antt =====
-- The ARP message that the send path writes, as the capture path reads it.
use j_sdntrace.Base.{length, ℕ, ◌%◌, ◌≤◌, ◌<◌, ◌≡◌, ◌∙◌, inl, some, arith}
use j_sdntrace.Wire.{Region, le16, ntohs, get_region, slice}
use j_sdntrace.Wire.Laws.{
  get_region-below, slice-get_region_whole, slice-get_region_off, copy_region-fits,
}
use j_sdntrace.Objects.{ArpPacket}
use j_sdntrace.Arp.{ArpValue, analyze_arp, arp_header, set_arp}

-- ARP for Ethernet and IPv4: the lengths are 6 and 4, and the arrays have them.
pub record IsEtherArp (p : ArpPacket) : Type 0 where
  pub hardtype_fits : p.hardtype < 65536
  pub prototype_fits : p.prototype < 65536
  pub operation_fits : p.operation < 65536
  pub hlen_six : p.hlen ≡ 6
  pub plen_four : p.plen ≡ 4
  pub sender_hardaddr_six : length p.sender_hardaddr ≡ 6
  pub sender_protoaddr_four : length p.sender_protoaddr ≡ 4
  pub target_hardaddr_six : length p.target_hardaddr ≡ 6
  pub target_protoaddr_four : length p.target_protoaddr ≡ 4

abbrev pub sent_arp : ArpPacket → ArpValue
sent_arp p = record {
  hrd = p.hardtype;
  pro = p.prototype;
  hl = 6;
  pl = 4;
  op = p.operation;
  sha = p.sender_hardaddr;
  spa = p.sender_protoaddr;
  tha = p.target_hardaddr;
  tpa = p.target_protoaddr;
}

module _ (p : ArpPacket) (h : IsEtherArp p) (r : Region) where
  abbrev r0 : Region
  r0 = arp_header p r

  abbrev r1 : Region
  r1 = get_region p.sender_hardaddr 6 r0 8

  abbrev r2 : Region
  r2 = get_region p.sender_protoaddr 4 r1 14

  abbrev r3 : Region
  r3 = get_region p.target_hardaddr 6 r2 18

  abbrev r4 : Region
  r4 = get_region p.target_protoaddr 4 r3 24

  set_arp_returns : (room : ℕ) → 28 ≤ room → set_arp p room r ≡ some (r4, 28)
  unfolding set_arp
  set_arp_returns room fits =
      let hl : p.hlen % 256 ≡ 6 = omega arith in
      let pl : p.plen % 256 ≡ 4 = omega arith in
      ground (
        arith,
        hl,
        pl,
        copy_region-fits room p.sender_hardaddr 6 r0 8 (omega arith),
        copy_region-fits room p.sender_protoaddr 4 r1 14 (omega arith),
        copy_region-fits room p.target_hardaddr 6 r2 18 (omega arith),
        copy_region-fits room p.target_protoaddr 4 r3 24 (omega arith),
      )

  r4_low : (k : ℕ) → k < 8 → r4 k ≡ r0 k
  r4_low k lt =
      get_region-below p.target_protoaddr 4 r3 24 k (omega arith)
      ∙ get_region-below p.target_hardaddr 6 r2 18 k (omega arith)
      ∙ get_region-below p.sender_protoaddr 4 r1 14 k (omega arith)
      ∙ get_region-below p.sender_hardaddr 6 r0 8 k (omega arith)

  lengths : (r4 4 ≡ 6) × (r4 5 ≡ 4)
  lengths = omega (arith, r4_low 4 (omega arith), r4_low 5 (omega arith))

  numbers :
      (ntohs (le16 r4 0) ≡ p.hardtype)
      × (ntohs (le16 r4 2) ≡ p.prototype)
      × (ntohs (le16 r4 6) ≡ p.operation)
  numbers = omega (
    arith,
    r4_low 0 (omega arith),
    r4_low 1 (omega arith),
    r4_low 2 (omega arith),
    r4_low 3 (omega arith),
    r4_low 6 (omega arith),
    r4_low 7 (omega arith),
  )

  addresses :
      (slice r4 8 6 ≡ p.sender_hardaddr)
      × (slice r4 14 4 ≡ p.sender_protoaddr)
      × (slice r4 18 6 ≡ p.target_hardaddr)
      × (slice r4 24 4 ≡ p.target_protoaddr)
  addresses = (
    slice-get_region_off p.target_protoaddr 4 r3 24 8 6 (inl (omega arith))
        ∙ slice-get_region_off p.target_hardaddr 6 r2 18 8 6 (inl (omega arith))
        ∙ slice-get_region_off p.sender_protoaddr 4 r1 14 8 6 (inl (omega arith))
        ∙ slice-get_region_whole p.sender_hardaddr 6 r0 8 h.sender_hardaddr_six,
    slice-get_region_off p.target_protoaddr 4 r3 24 14 4 (inl (omega arith))
        ∙ slice-get_region_off p.target_hardaddr 6 r2 18 14 4 (inl (omega arith))
        ∙ slice-get_region_whole p.sender_protoaddr 4 r1 14 h.sender_protoaddr_four,
    slice-get_region_off p.target_protoaddr 4 r3 24 18 6 (inl (omega arith))
        ∙ slice-get_region_whole p.target_hardaddr 6 r2 18 h.target_hardaddr_six,
    slice-get_region_whole p.target_protoaddr 4 r3 24 h.target_protoaddr_four,
  )

-- On an ARP message for Ethernet and IPv4 `set_arp` writes 28 bytes, from which `analyze_arp` reads
-- every field back, and says that it took 28 bytes.
pub analyze_arp-set_arp :
    (p : ArpPacket) (r : Region) (room size : ℕ)
    → IsEtherArp p
    → 28 ≤ room
    → 28 ≤ size
    → (r' : Region) × (set_arp p room r ≡ some (r', 28))
      × (analyze_arp (record { bytes = r'; size = size }) ≡ some (sent_arp p, 28))
unfolding analyze_arp
analyze_arp-set_arp p r room size h fits captured = (
  r4 p h r,
  set_arp_returns p h r room fits,
  ground (arith, lengths p h r, numbers p h r, addresses p h r),
)

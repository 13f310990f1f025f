-- ===== src/Capture/ArpLoop.antt =====
-- An ARP packet that `set_packet` sends, as `get_packet` captures it.
use mathlib.Core.Path.{ap₂}
use j_sdntrace.Arp.RoundTrip.{IsEtherArp, sent_arp, analyze_arp-set_arp}
use j_sdntrace.Capture.{PacketHeader, arp, Captured, get_packet}
use j_sdntrace.Capture.Carried.{analyze_datalink-type}
use j_sdntrace.Datalink.RoundTrip.{analyze_datalink-set_ether}
use j_sdntrace.Protocol.{arp_object}
use j_sdntrace.Base.{ℕ, ◌+◌, ◌≤◌, ◌<◌, ◌≡◌, refl, ap, ◌∙◌, true, none, some, [], arith}
use j_sdntrace.Wire.{Region, le16, ntohs, from, over, slice, View}
use j_sdntrace.Wire.Laws.{slice-ext, from-over}
use j_sdntrace.Objects.{ArpPacket, EthernetPacket, ethernet, arp_body}
use j_sdntrace.Arp.{ArpValue, analyze_arp, set_arp}
use j_sdntrace.Datalink.{ethernet_value, set_ether}
use j_sdntrace.Sender.{set_body, set_packet}
use j_sdntrace.Sender.Segment.{IsEthernet, framed}
use j_sdntrace.Capture.Plain.{arp_message, get_packet_arp}

analyze_arp-lengths :
    (v : View) (x : ArpValue) (n : ℕ)
    → analyze_arp v ≡ some (x, n)
    → (v.bytes 4 ≡ x.hl) × (v.bytes 5 ≡ x.pl)
unfolding analyze_arp
analyze_arp-lengths v x n e = ground arith

-- The message behind an Ethernet header is the one that `analyze_arp` reads.
arp_message-analyze_arp :
    (r : Region) (x : ArpValue)
    → analyze_arp (record { bytes = from r 14; size = 28 }) ≡ some (x, 28)
    → r 18 ≡ 6
    → r 19 ≡ 4
    → arp_message r ≡ x
unfolding analyze_arp
arp_message-analyze_arp r x e hard proto = ground arith

set_packet_arp :
    (e : EthernetPacket) (p : ArpPacket) (buf s : Region)
    → set_arp p 1586 (from (framed e buf) 14) ≡ some (s, 28)
    → set_packet true
        (record { payload = none; datalink = some (ethernet e); body = arp_body p })
        buf
      ≡ some (over (framed e buf) 14 s, 42)
unfolding set_packet set_body set_ether
set_packet_arp e p buf s made = ground arith

over-below : (f s : Region) (i n : ℕ) → i + n ≤ 14 → slice (over f 14 s) i n ≡ slice f i n
over-below f s i n low = slice-ext (over f 14 s) f i i n (λ k lt. ground arith)

over-type : (f s : Region) → le16 (over f 14 s) 12 ≡ le16 f 12
over-type f s = ground arith

-- An ARP packet for Ethernet and IPv4 with no data and an Ethernet header of type 0x0806 is sent,
-- and at least its 42 bytes, fewer than 32768 in all, are captured on an Ethernet link:
-- `get_packet` returns an ARPPacket with the Ethernet addresses and all fields and addresses of the
-- packet that was sent, and no data. What the stack held does not matter.
pub get_packet-set_packet_arp :
    (e : EthernetPacket) (p : ArpPacket) (buf : Region) (value : PacketHeader) (junk : ℕ)
    → IsEthernet e
    → IsEtherArp p
    → e.frametype ≡ 0x0806
    → 42 ≤ value.caplen
    → value.caplen < 32768
    → (r : Region) × (c : Captured) × (set_packet true
          (record { payload = none; datalink = some (ethernet e); body = arp_body p })
          buf
        ≡ some (r, 42))
      × (get_packet value r 1 junk ≡ some c)
      × (c.kind ≡ arp_object)
      × (c.datalink ≡ ethernet_value e.dst_mac e.src_mac 0x0806)
      × (c.network ≡ arp (sent_arp p))
      × (c.payload ≡ some [])
get_packet-set_packet_arp e p buf value junk he hp arp_type captured small =
    let f = framed e buf in
    let (s, made, read) =
      analyze_arp-set_arp p (from f 14) 1586 28 hp (omega arith) (omega arith) in
    let r = over f 14 s in
    let back : analyze_arp (record { bytes = from r 14; size = 28 }) ≡ some (sent_arp p, 28) =
      ap (λ (b : Region). analyze_arp (record { bytes = b; size = 28 })) (from-over f s 14)
      ∙ read in
    let lengths =
      analyze_arp-lengths (record { bytes = from r 14; size = 28 }) (sent_arp p) 28 back in
    let header =
      analyze_datalink-set_ether e buf 42 he.src_six he.dst_six he.frametype_fits (omega arith) in
    let link =
      analyze_datalink-type (record { bytes = f; size = 42 }) e.dst_mac e.src_mac e.frametype
        header.1 in
    (
      r,
      _,
      set_packet_arp e p buf s made,
      get_packet_arp value r junk (ap ntohs (over-type f s) ∙ link.0 ∙ arp_type) lengths.0 lengths.1
          captured small,
      refl,
      ap₂ (λ a b. ethernet_value a b 0x0806) (over-below f s 0 6 (omega arith) ∙ link.1)
          (over-below f s 6 6 (omega arith) ∙ link.2),
      ap arp (arp_message-analyze_arp r (sent_arp p) back lengths.0 lengths.1),
      refl,
    )

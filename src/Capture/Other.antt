-- ===== src/Capture/Other.antt =====
-- `get_packet` on Ethernet frames of types that it does not take apart, and `set_packet` of such packets.
use j_sdntrace.Capture.Carried.{analyze_datalink-type}
use j_sdntrace.Datalink.RoundTrip.{analyze_datalink-set_ether}
use j_sdntrace.Objects.{EthernetPacket, ethernet, other_body, Packet}
use j_sdntrace.Sender.{set_body, set_packet}
use mathlib.Core.Path.{ap₂}
use j_sdntrace.Wire.Laws.{slice-ext, slice-get_region_whole, copy_region-fits, from-over}
use j_sdntrace.Base.{
  ◌==◌, if◌then◌else◌, length, ℕ, ◌+◌, ◌-◌, ◌≤◌, ◌<◌, ◌≡◌, refl, sym, ap, ◌∙◌, ◌≢◌, true, some,
  List, arith,
}
use j_sdntrace.Datalink.{ethernet_value, set_ether}
use j_sdntrace.Wire.{Region, le16, ntohs, get_region, from, over, slice, View, skip}
use j_sdntrace.Capture.Truncated.{analyze_datalink-some}
use j_sdntrace.Capture.{
  PacketHeader, no_network, no_transport, Captured, network_layer, trimmed, transport_layer,
  cut_arrays, set_arrays, captured_view, get_packet,
}
use j_sdntrace.Protocol.{
  unknown_proto, sub16, offset_data, classify, transport_proto, checked_proto, packet_object,
  kind_of,
}
use j_sdntrace.Sender.Segment.{IsEthernet, framed, frame}

-- Not IPv4, IPv6, ARP or RARP, not the value for an unknown protocol, and not one of the small numbers
-- that would be taken for a transport protocol.
pub record IsOther (t : ℕ) : Type 0 where
  pub fits : t < 65535
  pub no_ip : t ≢ 0x0800
  pub no_ipv6 : t ≢ 0x86dd
  pub no_arp : t ≢ 0x0806
  pub no_rarp : t ≢ 0x8035
  pub no_tcp : t ≢ 6
  pub no_udp : t ≢ 17
  pub no_icmp : t ≢ 1

module _ (t : ℕ) (x : IsOther t) where
  classify-other :
      (v : View)
      → ntohs (le16 v.bytes 12) ≡ t
      → 14 ≤ v.size
      → v.size < 32768
      → classify v 1 ≡ some (t, v.size - 14)
  unfolding classify
  classify-other v frame room small = ground arith

  transport_proto-other :
      (v : View) (clen junk : ℕ)
      → 0 < clen
      → clen < 32768
      → transport_proto v 1 t clen junk ≡ some (t, clen)
  unfolding transport_proto
  transport_proto-other v clen junk some_left small =
      ground (arith, x.fits, x.no_ip, x.no_ipv6, x.no_arp)

  checked_proto-other : (clen : ℕ) → checked_proto t clen ≡ t
  unfolding checked_proto
  checked_proto-other clen = ground (arith, x.no_tcp, x.no_udp, x.no_icmp)

  network_layer-other :
      (v : View)
      → 14 ≤ v.size
      → v.size < 32768
      → network_layer v v.size 1 t ≡ some (no_network, v.size - 14, 0)
  unfolding network_layer
  network_layer-other v room small = ground (arith, x.fits, x.no_ip, x.no_ipv6, x.no_arp)

  trimmed-other :
      (caplen : ℕ) → 14 ≤ caplen → caplen < 32768 → trimmed caplen 1 t t (caplen - 14) ≡ caplen - 14
  trimmed-other caplen room small = ground (arith, x.fits)

  transport_layer-other : (v : View) (clen : ℕ) → transport_layer v t clen ≡ some (no_transport, 0)
  unfolding transport_layer
  transport_layer-other v clen = ground (arith, x.no_tcp, x.no_udp, x.no_icmp)

  kind_of-other : kind_of t t ≡ packet_object
  unfolding kind_of
  kind_of-other =
      ground (arith, x.no_tcp, x.no_udp, x.no_icmp, x.no_ip, x.no_ipv6, x.no_arp, x.no_rarp)

  base-other : (if t == unknown_proto then 0 else offset_data 1) ≡ 14
  base-other = ground (arith, x.fits)

set_arrays-other :
    (v : View)
    → 14 ≤ v.size
    → v.size < 32768
    → set_arrays v 14 (v.size - 14) 0
      ≡ some (slice v.bytes 0 14, some (slice (from v.bytes 14) 0 (v.size - 14)))
unfolding set_arrays cut_arrays
set_arrays-other v room small = ground arith

pub get_packet_other :
    (value : PacketHeader) (bytes : Region) (junk t : ℕ)
    → IsOther t
    → ntohs (le16 bytes 12) ≡ t
    → 15 ≤ value.caplen
    → value.caplen < 32768
    → get_packet value bytes 1 junk
      ≡ some (record {
        kind = packet_object;
        value = value;
        datalink = ethernet_value (slice bytes 0 6) (slice bytes 6 6) t;
        network = no_network;
        transport = no_transport;
        header = slice bytes 0 14;
        payload = some (slice (from bytes 14) 0 (value.caplen - 14));
      })
unfolding get_packet
get_packet_other value bytes junk t x frame room small =
    let v = captured_view value bytes in
    let same : sub16 (value.caplen - 14) 0 ≡ value.caplen - 14 = ground arith in
    rw
      (
        classify-other t x v frame (omega arith) small,
        transport_proto-other t x v (value.caplen - 14) junk (omega arith) (omega arith),
        checked_proto-other t x (value.caplen - 14),
        analyze_datalink-some v (omega arith),
        frame,
        network_layer-other t x v (omega arith) small,
        base-other t x,
        trimmed-other t x value.caplen (omega arith) small,
        same,
        transport_layer-other t x (skip v 14) (value.caplen - 14),
        set_arrays-other v (omega arith) small,
        kind_of-other t x,
      )
      refl

-- The packet with these bytes behind an Ethernet header.
abbrev pub plain_packet : EthernetPacket → List ℕ → Packet
plain_packet e bytes = record {
  payload = some bytes;
  datalink = some (ethernet e);
  body = other_body;
}

abbrev laid_out : EthernetPacket → List ℕ → Region → Region
laid_out e bytes buf =
    over (framed e buf) 14 (get_region bytes (length bytes) (from (framed e buf) 14) 0)

set_packet_other :
    (e : EthernetPacket) (bytes : List ℕ) (buf : Region)
    → length bytes ≤ 1586
    → set_packet true (plain_packet e bytes) buf ≡ some (laid_out e bytes buf, length bytes + 14)
unfolding set_packet set_body set_ether
set_packet_other e bytes buf small =
    let copied =
      copy_region-fits 1586 bytes (length bytes) (from (framed e buf) 14) 0 (omega arith) in
    rw (set_packet, set_body, copied) (ap (λ k. some (laid_out e bytes buf, k)) (omega arith))

over-below : (f s : Region) (i n : ℕ) → i + n ≤ 14 → slice (over f 14 s) i n ≡ slice f i n
over-below f s i n low = slice-ext (over f 14 s) f i i n (λ k lt. ground arith)

over-type : (f s : Region) → le16 (over f 14 s) 12 ≡ le16 f 12
over-type f s = ground arith

-- A plain Packet of 1 to 1586 bytes with an Ethernet header, of a type that is neither that of IPv4, IPv6,
-- ARP or RARP, nor 0xffff, 1, 6 or 17, is sent, and exactly its frame is captured on an Ethernet link:
-- `get_packet` returns a plain Packet with the Ethernet addresses and the type, and the bytes that were sent.
-- What the stack held does not matter.
pub get_packet-set_packet_other :
    (e : EthernetPacket) (bytes : List ℕ) (buf : Region) (value : PacketHeader) (junk : ℕ)
    → IsEthernet e
    → IsOther e.frametype
    → 0 < length bytes
    → length bytes ≤ 1586
    → value.caplen ≡ length bytes + 14
    → (r : Region) × (c : Captured) × (set_packet true (plain_packet e bytes) buf
        ≡ some (r, value.caplen))
      × (get_packet value r 1 junk ≡ some c)
      × (c.kind ≡ packet_object)
      × (c.datalink ≡ ethernet_value e.dst_mac e.src_mac e.frametype)
      × (c.payload ≡ some bytes)
get_packet-set_packet_other e bytes buf value junk he x some_bytes small captured =
    let f = framed e buf in
    let s = get_region bytes (length bytes) (from f 14) 0 in
    let r = over f 14 s in
    let header =
      analyze_datalink-set_ether e buf 14 he.src_six he.dst_six he.frametype_fits (omega arith) in
    let link =
      analyze_datalink-type (record { bytes = f; size = 14 }) e.dst_mac e.src_mac e.frametype
        header.1 in
    let size : value.caplen - 14 ≡ length bytes = omega arith in
    (
      r,
      _,
      set_packet_other e bytes buf small ∙ ap (λ k. some (r, k)) (sym captured),
      get_packet_other value r junk e.frametype x (ap ntohs (over-type f s) ∙ link.0) (omega arith)
          (omega arith),
      refl,
      ap₂ (λ a b. ethernet_value a b e.frametype) (over-below f s 0 6 (omega arith) ∙ link.1)
          (over-below f s 6 6 (omega arith) ∙ link.2),
      ap some (
          ap (slice (from r 14) 0) size
          ∙ ap (λ (b : Region). slice b 0 (length bytes)) (from-over f s 14)
          ∙ slice-get_region_whole bytes (length bytes) (from f 14) 0 refl),
    )

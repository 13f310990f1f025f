-- ===== src/Capture/EchoLoop.antt =====
-- ICMP echo messages that `set_packet` lays out, as `get_packet` takes them apart.
use mathlib.Core.Path.{ap₂, subst}
use j_sdntrace.Base.{
  length, All, ℕ, ◌+◌, ◌-◌, ◌≤◌, ◌<◌, ◌≡◌, refl, sym, ap, ◌∙◌, ◌≢◌, ◌⊎◌, true, some, List, arith,
}
use j_sdntrace.Wire.{Region, IsBytes, le16, from, slice, View}
use j_sdntrace.Wire.Laws.{slice-from}
use j_sdntrace.Datalink.{ethernet_value}
use j_sdntrace.Objects.{IpPacket, IcmpPacket, EthernetPacket, icmp_packet, ip_packet}
use j_sdntrace.Icmp.{IcmpValue, analyze_icmp}
use j_sdntrace.Icmp.Message.{IsIcmp, echo_value}
use j_sdntrace.Protocol.{checked_proto, icmp_object, ip_object, kind_of}
use j_sdntrace.Sender.{set_packet}
use j_sdntrace.Sender.Frame.{packet}
use j_sdntrace.Sender.Echo.{set_packet_icmp, set_packet_ip}
use j_sdntrace.Sender.Ipv4.{IsReadBack}
use j_sdntrace.Sender.Segment.{IsEthernet, IsAddressed}
use j_sdntrace.Capture.{PacketHeader, icmp, no_transport, Captured, transport_layer, get_packet}
use j_sdntrace.Capture.Complete.{get_packet_lem}
use j_sdntrace.Capture.Carried.{read_value, read_link, first_fragment, IsCaptured}

transport_layer_icmp :
    (v : View) (clen : ℕ) (x : IcmpValue)
    → analyze_icmp v clen ≡ some x
    → transport_layer v 1 clen ≡ some (icmp x, 8)
unfolding transport_layer
transport_layer_icmp v clen x read = rw (transport_layer, read) refl

-- An ICMP echo request or reply over IPv4, the first fragment, with an Ethernet header of type
-- 0x0800 and a payload of an even number of bytes, 1558 at most, is sent, and the whole frame is
-- captured on an Ethernet link, with or without bytes behind it, fewer than 32768 in all:
-- `get_packet` returns an ICMPPacket with the Ethernet addresses, the IPv4 fields but for the
-- flags, the type and the code, of the identifier and the sequence number the lower byte with its
-- sign extended, and the payload of the packet that was sent. What the stack held does not matter.
pub get_packet-set_packet_icmp :
    (e : EthernetPacket) (p : IpPacket) (i : IcmpPacket) (bytes : List ℕ) (m : ℕ) (buf : Region)
    (value : PacketHeader) (junk : ℕ)
    → IsEthernet e
    → IsAddressed p
    → IsIcmp i
    → (i.type ≡ 0) ⊎ (i.type ≡ 8)
    → All (λ b. b < 256) bytes
    → IsBytes buf
    → length bytes ≡ m + m
    → length bytes ≤ 1558
    → e.frametype ≡ 0x0800
    → p.offset ≡ 0
    → length bytes + 42 ≤ value.caplen
    → value.caplen < 32768
    → (r : Region) × (c : Captured) × (set_packet true (packet e p (icmp_packet i) bytes) buf
        ≡ some (r, 14 + (length bytes + 28)))
      × (get_packet value r 1 junk ≡ some c)
      × IsCaptured icmp_object e p 1 (length bytes + 28) (icmp (echo_value i (le16 r 36))) bytes c
unfolding checked_proto kind_of
get_packet-set_packet_icmp e p i bytes m buf value junk he hp hi echo hb hbuf even small ipv4_frame
      unfragmented captured caplen_small =
    let n = length bytes + 28 in
    let (r, sent, carried, sum, read, payload) =
      set_packet_icmp e p i bytes m (n - 20) (value.caplen - 34) buf he hp hi echo hb hbuf even
        small (omega arith) in
    let link = read_link e p 1 n r carried ipv4_frame unfragmented in
    let first =
      first_fragment e p 1 n r carried ipv4_frame unfragmented value (omega arith) caplen_small in
    let made =
      get_packet_lem value r 1 20 n first junk 8 _ (omega arith) (omega arith) (ground arith)
        (ground arith) (transport_layer_icmp _ (n - 20) _ read) in
    let size : n - 20 - 8 ≡ length bytes = omega arith in
    (
      r,
      _,
      sent,
      made,
      (
        refl,
        ap₂ (λ a b. ethernet_value a b 0x0800) link.1 link.2,
        _,
        refl,
        subst (IsReadBack p 1 n) (sym (read_value e p 1 n r carried ipv4_frame unfragmented).1)
            carried.same,
        refl,
        ap some
            (ap (slice (from r 42) 0) size ∙ slice-from r 42 0 (length bytes) 42 refl ∙ payload),
      ),
    )

transport_layer_none :
    (v : View) (protocol clen : ℕ)
    → protocol ≢ 6
    → protocol ≢ 17
    → protocol ≢ 1
    → transport_layer v protocol clen ≡ some (no_transport, 0)
unfolding transport_layer
transport_layer_none v protocol clen not_tcp not_udp not_icmp = ground arith

-- An IPPacket over IPv4 of a protocol other than TCP, UDP and ICMP, the first fragment, with an
-- Ethernet header of type 0x0800 and a payload of 1 to 1566 bytes, is sent, and the whole frame is
-- captured on an Ethernet link, with or without bytes behind it, fewer than 32768 in all:
-- `get_packet` returns an IPPacket with the Ethernet addresses, the protocol, the IPv4 fields but
-- for the flags, no transport fields, and the payload of the packet that was sent. What the stack
-- held does not matter.
pub get_packet-set_packet_ip :
    (e : EthernetPacket) (p : IpPacket) (bytes : List ℕ) (buf : Region) (value : PacketHeader)
    (junk : ℕ)
    → IsEthernet e
    → IsAddressed p
    → p.protocol < 256
    → p.protocol ≢ 6
    → p.protocol ≢ 17
    → p.protocol ≢ 1
    → All (λ b. b < 256) bytes
    → IsBytes buf
    → 0 < length bytes
    → length bytes ≤ 1566
    → e.frametype ≡ 0x0800
    → p.offset ≡ 0
    → length bytes + 34 ≤ value.caplen
    → value.caplen < 32768
    → (r : Region) × (c : Captured) × (set_packet true (packet e p ip_packet bytes) buf
        ≡ some (r, 14 + (length bytes + 20)))
      × (get_packet value r 1 junk ≡ some c)
      × IsCaptured ip_object e p p.protocol (length bytes + 20) no_transport bytes c
unfolding checked_proto kind_of
get_packet-set_packet_ip e p bytes buf value junk he hp protocol_fits not_tcp not_udp not_icmp hb
      hbuf some_bytes small ipv4_frame unfragmented captured caplen_small =
    let n = length bytes + 20 in
    let (r, sent, carried, payload) =
      set_packet_ip e p bytes buf he hp protocol_fits hb hbuf small in
    let link = read_link e p p.protocol n r carried ipv4_frame unfragmented in
    let first =
      first_fragment e p p.protocol n r carried ipv4_frame unfragmented value (omega arith)
        caplen_small in
    let same_kind : kind_of 0x0800 p.protocol ≡ ip_object = ground arith in
    let made =
      get_packet_lem value r p.protocol 20 n first junk 0 _ (omega arith) (omega arith)
        (ground arith) (ground arith)
        (transport_layer_none _ p.protocol (n - 20) not_tcp not_udp not_icmp) in
    let size : n - 20 - 0 ≡ length bytes = omega arith in
    (
      r,
      _,
      sent,
      made,
      (
        same_kind,
        ap₂ (λ a b. ethernet_value a b 0x0800) link.1 link.2,
        _,
        refl,
        subst (IsReadBack p p.protocol n)
            (sym (read_value e p p.protocol n r carried ipv4_frame unfragmented).1) carried.same,
        refl,
        ap some
            (ap (slice (from r 34) 0) size ∙ slice-from r 34 0 (length bytes) 34 refl ∙ payload),
      ),
    )

-- ===== src/Capture/Loopback.antt =====
-- TCP and UDP packets that `set_packet` lays out, as `get_packet` takes them apart.
use j_sdntrace.Udp.RoundTrip.{IsUdp}
use j_sdntrace.Capture.{PacketHeader, tcp, udp, Captured, get_packet}
use j_sdntrace.Capture.Complete.{get_packet_tcp, get_packet_udp}
use j_sdntrace.Objects.{IpPacket, TcpPacket, UdpPacket, EthernetPacket, tcp_packet, udp_packet}
use j_sdntrace.Protocol.{tcp_object, udp_object}
use j_sdntrace.Sender.{set_packet}
use j_sdntrace.Sender.Frame.{packet, set_packet_tcp, set_packet_udp}
use j_sdntrace.Sender.Ipv4.{IsReadBack}
use j_sdntrace.Sender.Segment.{IsEthernet, IsAddressed}
use j_sdntrace.Tcp.Header.{IsTcp, sent_value}
use j_sdntrace.Wire.Laws.{slice-from}
use mathlib.Core.Path.{ap₂, subst}
use j_sdntrace.Base.{
  length, All, ℕ, ◌+◌, ◌-◌, ◌≤◌, ◌<◌, ◌≡◌, refl, sym, ap, ◌∙◌, true, some, List, arith,
}
use j_sdntrace.Wire.{Region, IsBytes, from, slice}
use j_sdntrace.Datalink.{ethernet_value}
use j_sdntrace.Capture.Carried.{
  analyze_udp-inversion, analyze_tcp-inversion, read_value, read_link, first_fragment, IsCaptured,
}

-- A TCP packet over IPv4, the first fragment, with an Ethernet header of type 0x0800 and a payload
-- of at most 1546 bytes, is sent, and the whole frame is captured on an Ethernet link, with or
-- without bytes behind it, fewer than 32768 in all: `get_packet` returns a TCPPacket with the
-- Ethernet addresses, the IPv4 fields but for the flags, all TCP fields, and the payload of the
-- packet that was sent. What the stack held does not matter.
pub get_packet-set_packet_tcp :
    (e : EthernetPacket) (p : IpPacket) (t : TcpPacket) (bytes : List ℕ) (buf : Region)
    (value : PacketHeader) (junk : ℕ)
    → IsEthernet e
    → IsAddressed p
    → IsTcp t
    → All (λ b. b < 256) bytes
    → IsBytes buf
    → length bytes ≤ 1546
    → e.frametype ≡ 0x0800
    → p.offset ≡ 0
    → length bytes + 54 ≤ value.caplen
    → value.caplen < 32768
    → (r : Region) × (c : Captured) × (set_packet true (packet e p (tcp_packet t) bytes) buf
        ≡ some (r, 14 + (length bytes + 40)))
      × (get_packet value r 1 junk ≡ some c)
      × IsCaptured tcp_object e p 6 (length bytes + 40) (tcp (sent_value t)) bytes c
get_packet-set_packet_tcp e p t bytes buf value junk he hp ht hb hbuf small ipv4_frame unfragmented
      captured caplen_small =
    let (r, sent, delivered, read, payload) =
      set_packet_tcp e p t bytes buf he hp ht hb hbuf small in
    let n = length bytes + 40 in
    let header =
      analyze_tcp-inversion (record { bytes = from r 34; size = length bytes + 20 }) (sent_value t)
        read in
    let link = read_link e p 6 n r delivered.carried ipv4_frame unfragmented in
    let made =
      get_packet_tcp value r 20 n 20 junk
        (first_fragment e p 6 n r delivered.carried ipv4_frame unfragmented value (omega arith)
          caplen_small)
        header.0 (omega arith) (omega arith) in
    let size : n - 20 - 20 ≡ length bytes = omega arith in
    (
      r,
      _,
      sent,
      made,
      (
        refl,
        ap₂ (λ a b. ethernet_value a b 0x0800) link.1 link.2,
        _,
        refl,
        subst (IsReadBack p 6 n)
            (sym (read_value e p 6 n r delivered.carried ipv4_frame unfragmented).1)
            delivered.carried.same,
        ap tcp header.1,
        ap some
            (ap (slice (from r 54) 0) size ∙ slice-from r 54 0 (length bytes) 54 refl ∙ payload),
      ),
    )

-- The same of a UDP packet with a payload of at most 1558 bytes, fewer than 32768 bytes being
-- captured in all: `get_packet` returns a UDPPacket with both ports, the length of the datagram,
-- and the payload.
pub get_packet-set_packet_udp :
    (e : EthernetPacket) (p : IpPacket) (u : UdpPacket) (bytes : List ℕ) (buf : Region)
    (value : PacketHeader) (junk : ℕ)
    → IsEthernet e
    → IsAddressed p
    → IsUdp u
    → All (λ b. b < 256) bytes
    → IsBytes buf
    → length bytes ≤ 1558
    → e.frametype ≡ 0x0800
    → p.offset ≡ 0
    → length bytes + 42 ≤ value.caplen
    → value.caplen < 32768
    → (r : Region) × (c : Captured) × (set_packet true (packet e p (udp_packet u) bytes) buf
        ≡ some (r, 14 + (length bytes + 28)))
      × (get_packet value r 1 junk ≡ some c)
      × IsCaptured udp_object e p 17
          (length bytes + 28)
          (udp (record { sport = u.src_port; dport = u.dst_port; ulen = length bytes + 8 }))
          bytes
          c
get_packet-set_packet_udp e p u bytes buf value junk he hp hu hb hbuf small ipv4_frame unfragmented
      captured caplen_small =
    let (r, sent, delivered, read, payload) =
      set_packet_udp e p u bytes buf he hp hu hb hbuf small in
    let n = length bytes + 28 in
    let ports =
      analyze_udp-inversion (record { bytes = from r 34; size = length bytes + 8 }) _ read in
    let link = read_link e p 17 n r delivered.carried ipv4_frame unfragmented in
    let made =
      get_packet_udp value r 20 n junk
        (first_fragment e p 17 n r delivered.carried ipv4_frame unfragmented value (omega arith)
          caplen_small)
        (omega arith) in
    let size : n - 20 - 8 ≡ length bytes = omega arith in
    (
      r,
      _,
      sent,
      made,
      (
        refl,
        ap₂ (λ a b. ethernet_value a b 0x0800) link.1 link.2,
        _,
        refl,
        subst (IsReadBack p 17 n)
            (sym (read_value e p 17 n r delivered.carried ipv4_frame unfragmented).1)
            delivered.carried.same,
        ap udp ports,
        ap some
            (ap (slice (from r 42) 0) size ∙ slice-from r 42 0 (length bytes) 42 refl ∙ payload),
      ),
    )

-- ===== src/Sender/Ipv6.antt =====
-- `set_packet` on packets over IPv6 in an Ethernet frame.
use j_sdntrace.Sender.Frame.{packet, set_packet-v4}
use j_sdntrace.Sender.Segment.{IsEthernet, framed}
use j_sdntrace.Base.{
  length, take, take-length, ℕ, ◌+◌, ◌-◌, ◌%◌, ◌≤◌, ◌<◌, ◌≡◌, refl, sym, ap, ◌∙◌, ◌≢◌, true, false,
  some, List, arith,
}
use mathlib.Core.Path.{subst}
use j_sdntrace.Wire.{Region, ntohs, put16, get_region, copy_region, from, over, slice}
use j_sdntrace.Objects.{
  IpPacket, TcpPacket, UdpPacket, EthernetPacket, Transport, tcp_packet, udp_packet, ip_packet,
}
use j_sdntrace.Ipv6.{Ipv6Value, ipv6_value, set_ipv6}
use j_sdntrace.Ipv6.Header.{IsIpv6, ipv6_value-set_ipv6}
use j_sdntrace.Tcp.{tcp_length, set_tcp}
use j_sdntrace.Udp.{udp_length, set_udp}
use j_sdntrace.Datalink.{ethernet_value, analyze_datalink}
use j_sdntrace.Wire.Laws.{slice-ext, slice-get_region_whole, copy_region-fits, from-over}
use j_sdntrace.Datalink.RoundTrip.{analyze_datalink-set_ether}
use j_sdntrace.Sender.{add32, put_v6, set_transport, set_ip_packet, set_packet}
use j_sdntrace.Tcp.RoundTrip.{analyze_tcp-set_tcp}
use j_sdntrace.Udp.RoundTrip.{IsUdp, analyze_udp-set_udp}
use j_sdntrace.Tcp.Header.{IsTcp}

-- A transport header that `set_packet` puts behind the IPv6 header: its protocol and its size.
pub data IsSegment (p : IpPacket) : Transport → ℕ → ℕ → Type 0 where
  tcp_segment : {t : TcpPacket} → IsTcp t → IsSegment p (tcp_packet t) 6 20
  udp_segment : {u : UdpPacket} → IsUdp u → IsSegment p (udp_packet u) 17 8
  no_segment : IsSegment p ip_packet p.protocol 0

-- The fields of the header, as `analyze_ipv6` reads them: the length is that of the whole IPv6 packet, with
-- its two bytes swapped.
abbrev pub IsIpv6Header : IpPacket → ℕ → ℕ → Ipv6Value → Type 0
IsIpv6Header p protocol n x =
    (x.nxt ≡ protocol)
    × (x.hlim ≡ p.hop_limit)
    × (x.src ≡ p.source_address)
    × (x.dst ≡ p.destination_address)
    × (x.plen ≡ ntohs n)

plain-IsIpv6Header :
    (p : IpPacket) (r : Region) (n : ℕ)
    → IsIpv6 p
    → n < 65536
    → IsIpv6Header p p.protocol n (ipv6_value (put16 (set_ipv6 p r) 4 (n % 65536)))
unfolding ipv6_value set_ipv6
plain-IsIpv6Header p r n fields word =
    let x = ipv6_value-set_ipv6 p r p.protocol n fields fields.2 word in
    (omega (arith, fields), omega (arith, fields), x.2, x.3, omega arith)

ipv6_value-over : (h s : Region) → ipv6_value (over h 40 s) ≡ ipv6_value h
unfolding ipv6_value
ipv6_value-over h s = refl

set_transport_tcp6 :
    (p : IpPacket) (t : TcpPacket) (bytes : List ℕ) (n : ℕ) (r s : Region)
    → n ≡ length bytes + 60
    → length bytes ≤ 1526
    → set_tcp t (put_v6 6 n r) 1546 (some bytes) (from (put_v6 6 n r) 40) ≡ some s
    → set_transport p (tcp_packet t) false 40 1586 (some bytes) (add32 (length bytes) 40) r
      ≡ some (over (put_v6 6 n r) 40 s, n)
unfolding set_transport
set_transport_tcp6 p t bytes n r s e small h =
    let total : add32 (add32 (length bytes) 40) 20 ≡ n = omega arith in rw (total, h)

set_transport_udp6 :
    (p : IpPacket) (u : UdpPacket) (bytes : List ℕ) (n : ℕ) (r s : Region)
    → n ≡ length bytes + 48
    → length bytes ≤ 1538
    → set_udp u (put_v6 17 n r) 1546 (some bytes) (from (put_v6 17 n r) 40) ≡ some s
    → set_transport p (udp_packet u) false 40 1586 (some bytes) (add32 (length bytes) 40) r
      ≡ some (over (put_v6 17 n r) 40 s, n)
unfolding set_transport
set_transport_udp6 p u bytes n r s e small h =
    let total : add32 (add32 (length bytes) 40) 8 ≡ n = omega arith in rw (total, h)

set_transport_plain6 :
    (p : IpPacket) (bytes : List ℕ) (n : ℕ) (r s : Region)
    → n ≡ length bytes + 40
    → length bytes ≤ 1546
    → copy_region 1546 bytes (length bytes) (from (put16 r 4 (n % 65536)) 40) 0 ≡ some s
    → set_transport p ip_packet false 40 1586 (some bytes) (add32 (length bytes) 40) r
      ≡ some (over (put16 r 4 (n % 65536)) 40 s, n)
unfolding set_transport
set_transport_plain6 p bytes n r s e small h =
    let total : add32 (length bytes) 40 ≡ n = omega arith in rw (total, h)

-- What `set_transport` leaves behind the header that `set_ipv6` wrote at `r`.
set_transport_ipv6 :
    (p : IpPacket) (t : Transport) (bytes : List ℕ) (protocol size : ℕ) (r : Region)
    → IsIpv6 p
    → IsSegment p t protocol size
    → length bytes + size ≤ 1546
    → let n = length bytes + (40 + size) in
      (h : Region) × (s : Region) × (set_transport p t false 40 1586
          (some bytes)
          (add32 (length bytes) 40)
          (set_ipv6 p r)
        ≡ some (over h 40 s, n))
      × IsIpv6Header p protocol n (ipv6_value h)
      × (slice s size (length bytes) ≡ bytes)
unfolding set_transport
set_transport_ipv6 p _ bytes _ _ r fields (tcp_segment {t = t} ht) small =
    let n = length bytes + 60 in
    let h = put_v6 6 n (set_ipv6 p r) in
    let uncut : tcp_length (length bytes) ≡ length bytes = ground arith in
    let (s, made, read, copied) =
      analyze_tcp-set_tcp t h (from h 40) 1546 20 bytes ht (omega arith) (omega arith) in
    (
      h,
      s,
      set_transport_tcp6 p t bytes n (set_ipv6 p r) s refl (omega arith) made,
      ipv6_value-set_ipv6 p r 6 n fields (omega arith) (omega arith),
      ap (slice s 20) (sym uncut) ∙ copied ∙ ap (λ k. take k bytes) uncut ∙ take-length bytes,
    )
set_transport_ipv6 p _ bytes _ _ r fields (udp_segment {u = u} hu) small =
    let n = length bytes + 48 in
    let h = put_v6 17 n (set_ipv6 p r) in
    let uncut : udp_length (length bytes) ≡ length bytes = ground arith in
    let (s, made, read, copied) =
      analyze_udp-set_udp u h (from h 40) 1546 8 bytes hu (omega arith) (omega arith) in
    (
      h,
      s,
      set_transport_udp6 p u bytes n (set_ipv6 p r) s refl (omega arith) made,
      ipv6_value-set_ipv6 p r 17 n fields (omega arith) (omega arith),
      ap (slice s 8) (sym uncut) ∙ copied ∙ ap (λ k. take k bytes) uncut ∙ take-length bytes,
    )
set_transport_ipv6 p _ bytes _ _ r fields no_segment small =
    let n = length bytes + 40 in
    let h = put16 (set_ipv6 p r) 4 (n % 65536) in
    let made = copy_region-fits 1546 bytes (length bytes) (from h 40) 0 (omega arith) in
    (
      h,
      get_region bytes (length bytes) (from h 40) 0,
      set_transport_plain6 p bytes n (set_ipv6 p r) _ refl (omega arith) made,
      plain-IsIpv6Header p r n fields (omega arith),
      slice-get_region_whole bytes (length bytes) (from h 40) 0 refl,
    )

set_ip_packet-v6 :
    (p : IpPacket) (t : Transport) (bytes : List ℕ) (r r2 : Region) (n : ℕ)
    → p.version ≢ 4
    → set_transport p t false 40 1586 (some bytes) (add32 (length bytes) 40) (set_ipv6 p r)
      ≡ some (r2, n)
    → set_ip_packet p t 1586 (some bytes) r ≡ some (r2, n)
unfolding set_ip_packet
set_ip_packet-v6 p t bytes r r2 n six e = ground arith

payload_place :
    (f h s : Region) (size n : ℕ) → slice (over f 14 (over h 40 s)) (54 + size) n ≡ slice s size n
payload_place f h s size n = slice-ext (over f 14 (over h 40 s)) s (54 + size) size n (λ k lt.
    let place : 54 + size + k - 14 - 40 ≡ size + k = omega arith in ground (arith, ap s place))

-- A TCP packet, a UDP packet, or a plain IPPacket of any protocol, of a version other than 4, with
-- addresses of 16 bytes, a protocol and a hop limit of one byte each, transport fields in their
-- ranges, and an Ethernet header with addresses of six bytes and a 16-bit type, and with a payload
-- that takes at most 1546 bytes with the transport header: `set_packet` returns the length of the
-- frame, in which the Ethernet header is read back; from the header behind it `ipv6_value`, with
-- which `analyze_ipv6` fills the object, has the protocol of the transport header, or of the packet
-- if it has none, the packet's hop limit and both addresses, and as the payload length that of the
-- whole IPv6 packet, its header included, with its two bytes swapped; and the payload stands behind
-- the headers.
pub set_packet_ipv6 :
    (e : EthernetPacket) (p : IpPacket) (t : Transport) (bytes : List ℕ) (protocol size : ℕ)
    (buf : Region)
    → IsEthernet e
    → p.version ≢ 4
    → IsIpv6 p
    → IsSegment p t protocol size
    → length bytes + size ≤ 1546
    → let n = length bytes + (40 + size) in
      (r : Region) × (set_packet true (packet e p t bytes) buf ≡ some (r, 14 + n))
      × (analyze_datalink (record { bytes = r; size = 14 + n }) 1
          ≡ some (ethernet_value e.dst_mac e.src_mac e.frametype))
      × IsIpv6Header p protocol n (ipv6_value (from r 14))
      × (slice r (54 + size) (length bytes) ≡ bytes)
unfolding analyze_datalink
set_packet_ipv6 e p t bytes protocol size buf he six fields segment small =
    let n = length bytes + (40 + size) in
    let f = framed e buf in
    let (h, s, made, read, copied) =
      set_transport_ipv6 p t bytes protocol size (from f 14) fields segment small in
    let r = over f 14 (over h 40 s) in
    let behind = from-over f (over h 40 s) 14 in
    (
      r,
      set_packet-v4 e p t bytes buf (over h 40 s) n
          (set_ip_packet-v6 p t bytes (from f 14) (over h 40 s) n six made) (omega arith),
      (analyze_datalink-set_ether e buf (14 + n) he.src_six he.dst_six he.frametype_fits
          (omega arith)).1,
      subst (IsIpv6Header p protocol n) (sym (ap ipv6_value behind ∙ ipv6_value-over h s)) read,
      payload_place f h s size (length bytes) ∙ copied,
    )

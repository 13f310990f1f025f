-- ===== src/Sender/Frame.antt =====
-- `set_packet` on a TCP or UDP packet over IPv4 in an Ethernet frame.
use j_sdntrace.Cksum.Segment.{wire_pseudo, wire_segment}
use j_sdntrace.Udp.{analyze_udp, set_udp}
use j_sdntrace.Udp.RoundTrip.{IsUdp, set_udp_whole}
use j_sdntrace.Wire.Laws.{slice-from}
use j_sdntrace.Tcp.{analyze_tcp, set_tcp}
use j_sdntrace.Tcp.Header.{IsTcp, sent_value}
use j_sdntrace.Tcp.RoundTrip.{set_tcp_whole}
use j_sdntrace.Base.{
  length, All, ℕ, ◌+◌, ◌-◌, ◌%◌, ◌≤◌, ◌<◌, ◌≡◌, refl, sym, ap, ◌∙◌, true, Option, some, List, arith,
}
use j_sdntrace.Wire.{Region, IsBytes, from, over, slice}
use j_sdntrace.Objects.{
  IpPacket, TcpPacket, UdpPacket, EthernetPacket, ethernet, Transport, tcp_packet, udp_packet,
  ip_body, Packet,
}
use j_sdntrace.Ip.{set_ip}
use j_sdntrace.Datalink.{set_ether}
use j_sdntrace.Icmp.{payload_length}
use j_sdntrace.Sender.{add32, put_v4, finish_v4, set_transport, set_ip_packet, set_body, set_packet}
use j_sdntrace.Sender.Segment.{
  IsEthernet, IsAddressed, IsDelivered, framed, ip_header, datagram, frame, ip_header-IsBytes,
  frame_segment, frame-IsDelivered,
}

-- The IPv4 branch, from what `set_transport` returns.
pub set_ip_packet-v4 :
    (p : IpPacket) (t : Transport) (room : ℕ) (payload : Option (List ℕ)) (r r2 : Region) (n : ℕ)
    → p.version ≡ 4
    → set_transport p t true 20 room payload (add32 (payload_length payload) 20) (set_ip p r)
      ≡ some (r2, n)
    → set_ip_packet p t room payload r ≡ some (finish_v4 r2, n)
unfolding set_ip_packet
set_ip_packet-v4 p t room payload r r2 n four e = ground arith

abbrev pub packet : EthernetPacket → IpPacket → Transport → List ℕ → Packet
packet e p t bytes = record {
  payload = some bytes;
  datalink = some (ethernet e);
  body = ip_body p t;
}

pub set_packet-v4 :
    (e : EthernetPacket) (p : IpPacket) (t : Transport) (bytes : List ℕ) (buf r2 : Region) (n : ℕ)
    → set_ip_packet p t 1586 (some bytes) (from (framed e buf) 14) ≡ some (r2, n)
    → n < 65536
    → set_packet true (packet e p t bytes) buf ≡ some (over (framed e buf) 14 r2, 14 + n)
unfolding set_packet set_body set_ether
set_packet-v4 e p t bytes buf r2 n h fits = ground arith

set_transport_tcp :
    (p : IpPacket) (t : TcpPacket) (bytes : List ℕ) (n : ℕ) (r s : Region)
    → n ≡ length bytes + 40
    → length bytes ≤ 1546
    → set_tcp t (put_v4 6 n r) 1566 (some bytes) (from (put_v4 6 n r) 20) ≡ some s
    → set_transport p (tcp_packet t) true 20 1586 (some bytes) (add32 (length bytes) 20) r
      ≡ some (over (put_v4 6 n r) 20 s, n)
unfolding set_transport
set_transport_tcp p t bytes n r s e small h =
    let total : add32 (add32 (length bytes) 20) 20 ≡ n = omega arith in rw (total, h)

set_transport_udp :
    (p : IpPacket) (u : UdpPacket) (bytes : List ℕ) (n : ℕ) (r s : Region)
    → n ≡ length bytes + 28
    → length bytes ≤ 1558
    → set_udp u (put_v4 17 n r) 1566 (some bytes) (from (put_v4 17 n r) 20) ≡ some s
    → set_transport p (udp_packet u) true 20 1586 (some bytes) (add32 (length bytes) 20) r
      ≡ some (over (put_v4 17 n r) 20 s, n)
unfolding set_transport
set_transport_udp p u bytes n r s e small h =
    let total : add32 (add32 (length bytes) 20) 8 ≡ n = omega arith in rw (total, h)

-- A TCP packet over IPv4 with an Ethernet header and a payload of at most 1546 bytes: `set_packet`
-- returns its length, with 54 bytes of headers, and a frame that is delivered, from which
-- `analyze_tcp` reads every field, and in which the payload stands behind the headers.
pub set_packet_tcp :
    (e : EthernetPacket) (p : IpPacket) (t : TcpPacket) (bytes : List ℕ) (buf : Region)
    → IsEthernet e
    → IsAddressed p
    → IsTcp t
    → All (λ b. b < 256) bytes
    → IsBytes buf
    → length bytes ≤ 1546
    → (r : Region) × (set_packet true (packet e p (tcp_packet t) bytes) buf
        ≡ some (r, 14 + (length bytes + 40)))
      × IsDelivered e p 6 (length bytes + 40) r
      × (analyze_tcp (record { bytes = from r 34; size = length bytes + 20 })
          ≡ some (sent_value t, 20))
      × (slice r 54 (length bytes) ≡ bytes)
set_packet_tcp e p t bytes buf he hp ht hb hbuf small =
    let n = length bytes + 40 in
    let header = ip_header e p 6 n buf in
    let header_bytes = ip_header-IsBytes e p 6 n buf buf he hp hbuf in
    let made =
      set_tcp_whole t header (from header 20) 1566 (length bytes + 20) bytes ht header_bytes
        (λ k. header_bytes (20 + k)) hb (omega arith) (omega arith) (omega arith) in
    let s = made.0 in
    let sum : (wire_pseudo header (n - 20) + wire_segment s (n - 20)) % 65535 ≡ 0 =
      let size : n - 20 ≡ length bytes + 20 = omega arith in
      ap (λ (k : ℕ). (wire_pseudo header k + wire_segment s k) % 65535) size ∙ made.4 in
    let segment = frame_segment e p 6 n buf s in
    (
      frame e p 6 n buf s,
      set_packet-v4 e p (tcp_packet t) bytes buf (datagram e p 6 n buf s) n
          (set_ip_packet-v4 p (tcp_packet t) 1586 (some bytes) (from (framed e buf) 14)
            (over header 20 s) n hp.header.version_four
            (set_transport_tcp p t bytes n (set_ip p (from (framed e buf) 14)) s refl small made.1))
          (omega arith),
      frame-IsDelivered e p 6 n buf s he hp hbuf made.5 (omega arith) (omega arith) (omega arith)
          sum,
      ap (λ (f : Region). analyze_tcp (record { bytes = f; size = length bytes + 20 })) segment
          ∙ made.2,
      sym (slice-from (frame e p 6 n buf s) 34 20 (length bytes) 54 refl)
          ∙ ap (λ (f : Region). slice f 20 (length bytes)) segment
          ∙ made.3,
    )

-- A UDP packet over IPv4 with an Ethernet header and a payload of at most 1558 bytes: `set_packet`
-- returns its length, with 42 bytes of headers, and a frame that is delivered, from which
-- `analyze_udp` reads both ports and the length, and in which the payload stands behind the headers.
pub set_packet_udp :
    (e : EthernetPacket) (p : IpPacket) (u : UdpPacket) (bytes : List ℕ) (buf : Region)
    → IsEthernet e
    → IsAddressed p
    → IsUdp u
    → All (λ b. b < 256) bytes
    → IsBytes buf
    → length bytes ≤ 1558
    → (r : Region) × (set_packet true (packet e p (udp_packet u) bytes) buf
        ≡ some (r, 14 + (length bytes + 28)))
      × IsDelivered e p 17 (length bytes + 28) r
      × (analyze_udp (record { bytes = from r 34; size = length bytes + 8 })
          ≡ some (record { sport = u.src_port; dport = u.dst_port; ulen = length bytes + 8 }))
      × (slice r 42 (length bytes) ≡ bytes)
set_packet_udp e p u bytes buf he hp hu hb hbuf small =
    let n = length bytes + 28 in
    let header = ip_header e p 17 n buf in
    let header_bytes = ip_header-IsBytes e p 17 n buf buf he hp hbuf in
    let made =
      set_udp_whole u header (from header 20) 1566 (length bytes + 8) bytes hu header_bytes
        (λ k. header_bytes (20 + k)) hb (omega arith) (omega arith) (omega arith) in
    let s = made.0 in
    let sum : (wire_pseudo header (n - 20) + wire_segment s (n - 20)) % 65535 ≡ 0 =
      let size : n - 20 ≡ length bytes + 8 = omega arith in
      ap (λ (k : ℕ). (wire_pseudo header k + wire_segment s k) % 65535) size ∙ made.4 in
    let segment = frame_segment e p 17 n buf s in
    (
      frame e p 17 n buf s,
      set_packet-v4 e p (udp_packet u) bytes buf (datagram e p 17 n buf s) n
          (set_ip_packet-v4 p (udp_packet u) 1586 (some bytes) (from (framed e buf) 14)
            (over header 20 s) n hp.header.version_four
            (set_transport_udp p u bytes n (set_ip p (from (framed e buf) 14)) s refl small made.1))
          (omega arith),
      frame-IsDelivered e p 17 n buf s he hp hbuf made.5 (omega arith) (omega arith) (omega arith)
          sum,
      ap (λ (f : Region). analyze_udp (record { bytes = f; size = length bytes + 8 })) segment
          ∙ made.2,
      sym (slice-from (frame e p 17 n buf s) 34 8 (length bytes) 42 refl)
          ∙ ap (λ (f : Region). slice f 8 (length bytes)) segment
          ∙ made.3,
    )

-- ===== src/Sender/Echo.antt =====
-- `set_packet` on an ICMP echo message, and on an IPPacket of any other protocol, over IPv4 in an
-- Ethernet frame.
use j_sdntrace.Cksum.{in_cksum}
use j_sdntrace.Icmp.Echo.{set_icmp_echo, set_icmp_echo-IsBytes}
use j_sdntrace.Icmp.Message.{IsIcmp, echo_value}
use j_sdntrace.Ip.{set_ip}
use j_sdntrace.Sender.Frame.{set_ip_packet-v4, packet, set_packet-v4}
use j_sdntrace.Sender.Segment.{
  IsEthernet, IsAddressed, IsCarried, framed, ip_header, datagram, frame, start-IsBytes,
  ip_header-IsBytes, frame_segment, frame-IsCarried,
}
use j_sdntrace.Wire.Laws.{get_region-IsBytes, slice-get_region_whole, copy_region-fits, slice-from}
use mathlib.Core.Path.{subst, fun_ext}
use j_sdntrace.Base.{
  length, All, ℕ, ◌+◌, ◌≤◌, ◌<◌, ◌≡◌, refl, sym, ap, ◌∙◌, ◌⊎◌, true, some, List, arith,
}
use j_sdntrace.Wire.{Region, IsBytes, le16, get_region, from, over, slice}
use j_sdntrace.Objects.{IpPacket, IcmpPacket, EthernetPacket, icmp_packet, ip_packet}
use j_sdntrace.Icmp.{analyze_icmp, set_icmp}
use j_sdntrace.Sender.{add32, put_v4, set_transport, set_packet}

put_v4-over :
    (protocol n : ℕ) (r s : Region)
    → put_v4 protocol n (over r 20 s) ≡ over (put_v4 protocol n r) 20 s
put_v4-over protocol n r s = fun_ext (λ k. ground arith)

set_transport_icmp :
    (p : IpPacket) (i : IcmpPacket) (bytes : List ℕ) (r s : Region)
    → length bytes ≤ 1558
    → set_icmp i 1566 (some bytes) (from r 20) ≡ some (s, 8)
    → set_transport p (icmp_packet i) true 20 1586 (some bytes) (add32 (length bytes) 20) r
      ≡ some (over (put_v4 1 (length bytes + 28) r) 20 s, length bytes + 28)
unfolding set_transport
set_transport_icmp p i bytes r s small h =
    let total : add32 (add32 (length bytes) 20) 8 ≡ length bytes + 28 = omega arith in
    rw (set_transport, h, total, put_v4-over 1 (length bytes + 28) r s) refl

-- An ICMP echo request or reply over IPv4 with an Ethernet header and a payload of an even number of
-- bytes, 1558 at most: `set_packet` returns its length, with 42 bytes of headers, and a frame whose
-- headers are read back and whose IPv4 checksum passes the receiver's test; the ICMP message in it
-- has a checksum of 0, `analyze_icmp` reads the type, the code, and the lower bytes of the identifier
-- and the sequence number from it, and the payload stands behind the headers.
pub set_packet_icmp :
    (e : EthernetPacket) (p : IpPacket) (i : IcmpPacket) (bytes : List ℕ) (m clen size : ℕ)
    (buf : Region)
    → IsEthernet e
    → IsAddressed p
    → IsIcmp i
    → (i.type ≡ 0) ⊎ (i.type ≡ 8)
    → All (λ b. b < 256) bytes
    → IsBytes buf
    → length bytes ≡ m + m
    → length bytes ≤ 1558
    → 8 ≤ size
    → (r : Region) × (set_packet true (packet e p (icmp_packet i) bytes) buf
        ≡ some (r, 14 + (length bytes + 28)))
      × IsCarried e p 1 (length bytes + 28) r
      × (in_cksum (from r 34) (8 + length bytes) ≡ 0)
      × (analyze_icmp (record { bytes = from r 34; size = size }) clen
          ≡ some (echo_value i (le16 (from r 34) 2)))
      × (slice r 42 (length bytes) ≡ bytes)
set_packet_icmp e p i bytes m clen size buf he hp hi echo hb hbuf even small captured =
    let n = length bytes + 28 in
    let start = set_ip p (from (framed e buf) 14) in
    let start_bytes : IsBytes (from start 20) =
      λ k. start-IsBytes e p 1 n buf buf he hp hbuf (20 + k) in
    let (s, made, sum, payload, read) =
      set_icmp_echo i (from start 20) 1566 m clen size bytes hi echo start_bytes hb even
        (omega arith) (omega arith) captured in
    let s_bytes =
      set_icmp_echo-IsBytes i (from start 20) s 1566 bytes echo start_bytes hb (omega arith) made in
    let segment = frame_segment e p 1 n buf s in
    (
      frame e p 1 n buf s,
      set_packet-v4 e p (icmp_packet i) bytes buf (datagram e p 1 n buf s) n
          (set_ip_packet-v4 p (icmp_packet i) 1586 (some bytes) (from (framed e buf) 14)
            (over (ip_header e p 1 n buf) 20 s) n hp.header.version_four
            (set_transport_icmp p i bytes start s small made))
          (omega arith),
      frame-IsCarried e p 1 n buf s he hp hbuf s_bytes (omega arith) (omega arith) (omega arith),
      ap (λ (f : Region). in_cksum f (8 + length bytes)) segment ∙ sum,
      subst
          (λ f.
            analyze_icmp (record { bytes = f; size = size }) clen ≡ some (echo_value i (le16 f 2)))
          (sym segment) read,
      sym (slice-from (frame e p 1 n buf s) 34 8 (length bytes) 42 refl)
          ∙ ap (λ (f : Region). slice f 8 (length bytes)) segment
          ∙ payload,
    )

set_transport_ip :
    (p : IpPacket) (bytes : List ℕ) (r : Region)
    → length bytes ≤ 1566
    → set_transport p ip_packet true 20 1586 (some bytes) (add32 (length bytes) 20) r
      ≡ some (
        over
            (put_v4 p.protocol (length bytes + 20) r)
            20
            (get_region bytes (length bytes) (from (put_v4 p.protocol (length bytes + 20) r) 20) 0),
        length bytes + 20,
      )
unfolding set_transport
set_transport_ip p bytes r small =
    let total : add32 (length bytes) 20 ≡ length bytes + 20 = omega arith in
    rw
      (
        set_transport,
        total,
        copy_region-fits 1566 bytes (length bytes)
            (from (put_v4 p.protocol (length bytes + 20) r) 20) 0 (omega arith),
      )
      refl

-- An IPPacket of any protocol over IPv4 with an Ethernet header and a payload of at most 1566 bytes:
-- `set_packet` returns its length, with 34 bytes of headers, and a frame whose headers are read back,
-- whose IPv4 checksum passes the receiver's test, and in which the payload stands behind the headers.
pub set_packet_ip :
    (e : EthernetPacket) (p : IpPacket) (bytes : List ℕ) (buf : Region)
    → IsEthernet e
    → IsAddressed p
    → p.protocol < 256
    → All (λ b. b < 256) bytes
    → IsBytes buf
    → length bytes ≤ 1566
    → (r : Region) × (set_packet true (packet e p ip_packet bytes) buf
        ≡ some (r, 14 + (length bytes + 20)))
      × IsCarried e p p.protocol (length bytes + 20) r
      × (slice r 34 (length bytes) ≡ bytes)
set_packet_ip e p bytes buf he hp protocol_fits hb hbuf small =
    let n = length bytes + 20 in
    let header = ip_header e p p.protocol n buf in
    let header_bytes = ip_header-IsBytes e p p.protocol n buf buf he hp hbuf in
    let s = get_region bytes (length bytes) (from header 20) 0 in
    let s_bytes =
      get_region-IsBytes bytes (length bytes) (from header 20) 0 (λ k. header_bytes (20 + k)) hb in
    let segment = frame_segment e p p.protocol n buf s in
    (
      frame e p p.protocol n buf s,
      set_packet-v4 e p ip_packet bytes buf (datagram e p p.protocol n buf s) n
          (set_ip_packet-v4 p ip_packet 1586 (some bytes) (from (framed e buf) 14)
            (over header 20 s) n hp.header.version_four
            (set_transport_ip p bytes (set_ip p (from (framed e buf) 14)) small))
          (omega arith),
      frame-IsCarried e p p.protocol n buf s he hp hbuf s_bytes protocol_fits (omega arith)
          (omega arith),
      sym (slice-from (frame e p p.protocol n buf s) 34 0 (length bytes) 34 refl)
          ∙ ap (λ (f : Region). slice f 0 (length bytes)) segment
          ∙ slice-get_region_whole bytes (length bytes) (from header 20) 0 refl,
    )

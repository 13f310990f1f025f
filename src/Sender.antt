-- ===== src/Sender.antt =====
-- JpcapSender.c: `set_packet`, which lays a Java packet out in a buffer of MAX_PACKET_SIZE bytes.
pub mod Ipv4
pub mod Segment
pub mod Frame
pub mod Overflow
pub mod Echo
pub mod Ipv6
use j_sdntrace.Base.{
  ltb, leb, ◌==◌, if◌then◌else◌, ℕ, ◌+◌, ◌-◌, ◌%◌, ◌^◌, Bool, true, Option, none, some, List,
}
use j_sdntrace.Ip.{set_ip}
use j_sdntrace.Arp.{set_arp}
use j_sdntrace.Datalink.{set_ether}
use j_sdntrace.Ipv6.{set_ipv6}
use j_sdntrace.Wire.{Region, le16, ntohs, put8, put16, copy_region, from, over, slice, ◌>>=◌}
use j_sdntrace.Cksum.{in_cksum}
use j_sdntrace.Objects.{
  IpPacket, Transport, tcp_packet, udp_packet, icmp_packet, ip_packet, Body, ip_body, arp_body,
  other_body, Packet,
}
use j_sdntrace.Tcp.{set_tcp}
use j_sdntrace.Udp.{set_udp}
use j_sdntrace.Icmp.{payload_length, set_icmp}

-- MAX_PACKET_SIZE
abbrev pub max_packet_size : ℕ
max_packet_size = 1600

-- `int` addition, modulo 2 ^ 32.
abbrev pub add32 : ℕ → ℕ → ℕ
add32 a b = (a + b) % 2 ^ 32

-- `ip->ip_p` and `ip->ip_len`, in host order for now; `ipv6->ip6_plen`.
abbrev pub put_v4 : ℕ → ℕ → Region → Region
put_v4 protocol n r = put16 (put8 r 9 protocol) 2 (n % 65536)

-- `ip->ip_len=htons(ip->ip_len); ip->ip_off=htons(ip->ip_off);` and the checksum.
unfoldable pub finish_v4 : Region → Region
finish_v4 r =
    let r1 = put16 r 2 (ntohs (le16 r 2)) in
    let r2 = put16 r1 6 (ntohs (le16 r1 6)) in
    let r3 = put16 r2 10 0 in put16 r3 10 (in_cksum r3 20)

-- `GetByteArrayRegion` of the payload to `pointer`: a null array is a fault.
abbrev pub copy_payload : ℕ → Option (List ℕ) → ℕ → Region → Option Region
copy_payload room none n r = none
copy_payload room (some bytes) n r = copy_region room bytes n r 0

-- `ipv6->ip6_nxt` and `ipv6->ip6_plen`, which stays in host order.
abbrev pub put_v6 : ℕ → ℕ → Region → Region
put_v6 protocol n r = put16 (put8 r 6 protocol) 4 (n % 65536)

abbrev pub put_length : Bool → ℕ → ℕ → Region → Region
put_length ver4 protocol n r = if ver4 then put_v4 protocol n r else put_v6 protocol n r

abbrev pub put_plain : Bool → IpPacket → ℕ → Region → Region
put_plain ver4 p n r = if ver4 then put_v4 p.protocol n r else put16 r 4 (n % 65536)

-- What follows the IP header of `hlen` bytes at `r`: the transport header, and the payload. `n` is
-- the length with the IP header, and the result is that with the transport header.
unfoldable pub set_transport :
    IpPacket → Transport → Bool → ℕ → ℕ → Option (List ℕ) → ℕ → Region → Option (Region × ℕ)
set_transport p (tcp_packet t) ver4 hlen room payload n r = do
  let n' = add32 n 20
  let r1 = put_length ver4 6 n' r
  r2 ← set_tcp t r1 (room - hlen) payload (from r1 hlen)
  some (over r1 hlen r2, n')
set_transport p (udp_packet u) ver4 hlen room payload n r = do
  let n' = add32 n 8
  let r1 = put_length ver4 17 n' r
  r2 ← set_udp u r1 (room - hlen) payload (from r1 hlen)
  some (over r1 hlen r2, n')
set_transport p (icmp_packet i) ver4 hlen room payload n r = do
  (r1, grown) ← set_icmp i (room - hlen) payload (from r hlen)
  let n' = add32 n grown
  some (put_length ver4 1 n' (over r hlen r1), n')
set_transport p ip_packet ver4 hlen room payload n r = do
  let r1 = put_plain ver4 p n r
  r2 ← copy_payload (room - hlen) payload (payload_length payload) (from r1 hlen)
  some (over r1 hlen r2, n)

-- The branch for an IPPacket.
unfoldable pub set_ip_packet :
    IpPacket → Transport → ℕ → Option (List ℕ) → Region → Option (Region × ℕ)
set_ip_packet p t room payload r = do
  let ver4 = p.version == 4
  let hlen : ℕ = if ver4 then 20 else 40
  let r1 = if ver4 then set_ip p r else set_ipv6 p r
  (r2, n) ← set_transport p t ver4 hlen room payload (add32 (payload_length payload) hlen) r1
  some (if ver4 then finish_v4 r2 else r2, n)

unfoldable pub set_body : Body → ℕ → Option (List ℕ) → Region → Option (Region × ℕ)
set_body (ip_body p t) room payload r = set_ip_packet p t room payload r
set_body (arp_body a) room payload r = do
  (r1, grown) ← set_arp a room r
  some (r1, add32 (payload_length payload) grown)
set_body other_body room payload r = do
  r1 ← copy_payload room payload (payload_length payload) r
  some (r1, payload_length payload)

-- The buffer and the length of the packet in it.
unfoldable pub set_packet : Bool → Packet → Region → Option (Region × ℕ)
set_packet include_datalink p buf = do
  let none_yet : ℕ × Region = (0, buf)
  let (dthlen, r) = if include_datalink then set_ether p.datalink buf else none_yet
  (body, n) ← set_body p.body (max_packet_size - dthlen) p.payload (from r dthlen)
  some (over r dthlen body, add32 n dthlen)

-- The bytes that `nativeSendPacket` hands to `pcap_sendpacket`: an Ethernet trailer of zeros fills
-- the packet up to 60 bytes (`memset` sets one more). The length is an `int`: a negative one makes
-- `memset` write in front of the buffer, and one above the buffer's size is read past its end.
unfoldable pub frame_of : Packet → Region → Option (List ℕ)
frame_of p buf = do
  (r, n) ← set_packet true p buf
  let padded : Region = λ j. if ltb j n then r j else 0
  if ltb n 60
      then some (slice padded 0 60)
      else if leb n max_packet_size
      then some (slice r 0 n)
      else none

-- ===== src/Sender/Overflow.antt =====
-- `set_packet` on packets that are too large for the buffer of MAX_PACKET_SIZE bytes.
use j_sdntrace.Base.{length, ℕ, ◌^◌, ◌<◌, ◌≡◌, true, false, none, some, List, arith}
use j_sdntrace.Wire.{Region, copy_region, from}
use j_sdntrace.Objects.{
  IpPacket, TcpPacket, EthernetPacket, ethernet, tcp_packet, other_body, Packet,
}
use j_sdntrace.Tcp.{set_tcp}
use j_sdntrace.Ip.{set_ip}
use j_sdntrace.Datalink.{set_ether}
use j_sdntrace.Sender.{add32, put_v4, set_transport, set_ip_packet, set_body, set_packet}
use j_sdntrace.Sender.Frame.{packet}

set_tcp_overflow :
    (t : TcpPacket) (ip r : Region) (bytes : List ℕ)
    → 1546 < length bytes
    → set_tcp t ip 1566 (some bytes) r ≡ none
unfolding set_tcp
set_tcp_overflow t ip r bytes h = ground arith

-- `set_tcp` cuts the payload as if the buffer held no Ethernet header: with one, each payload of more
-- than 1546 bytes is copied past the end of the buffer.
pub set_packet_tcp_overflow :
    (e : EthernetPacket) (p : IpPacket) (t : TcpPacket) (bytes : List ℕ) (buf : Region)
    → p.version ≡ 4
    → 1546 < length bytes
    → set_packet true (packet e p (tcp_packet t) bytes) buf ≡ none
unfolding set_packet set_body set_ip_packet set_transport set_ether
set_packet_tcp_overflow e p t bytes buf four h = ground (
  arith,
  set_tcp_overflow t
      (put_v4 6 (add32 (add32 (length bytes) 20) 20)
        (set_ip p (from (set_ether (some (ethernet e)) buf).1 14)))
      (from
        (put_v4 6 (add32 (add32 (length bytes) 20) 20)
          (set_ip p (from (set_ether (some (ethernet e)) buf).1 14)))
        20)
      bytes h,
)

-- A packet of no known class is copied with no check of its length.
pub set_packet_other_overflow :
    (p : Packet) (bytes : List ℕ) (buf : Region)
    → p.payload ≡ some bytes
    → p.body ≡ other_body
    → 1600 < length bytes
    → length bytes < 2 ^ 31
    → set_packet false p buf ≡ none
unfolding set_packet set_body copy_region
set_packet_other_overflow p bytes buf payload body h fits = ground arith

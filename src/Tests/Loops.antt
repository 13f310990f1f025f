-- ===== src/Tests/Loops.antt =====
-- Packets sent and captured.
use j_sdntrace.Base.{length, take, ℕ, ◌≤◌, ◌≡◌, refl, true, none, some, List, [], arith}
use j_sdntrace.Wire.{Region, slice}
use j_sdntrace.Objects.{EthernetPacket, ethernet, tcp_packet, udp_packet, arp_body}
use j_sdntrace.Tcp.Header.{sent_value}
use j_sdntrace.Protocol.{tcp_object, udp_object, arp_object}
use j_sdntrace.Sender.{set_packet}
use j_sdntrace.Sender.Segment.{IsEthernet, IsDelivered}
use j_sdntrace.Sender.Frame.{packet}
use j_sdntrace.Capture.{arp, tcp, udp, Captured, get_packet}
use j_sdntrace.Arp.RoundTrip.{sent_arp}
use j_sdntrace.Datalink.{ethernet_value}
use j_sdntrace.Capture.ArpLoop.{get_packet-set_packet_arp}
use j_sdntrace.Capture.Carried.{IsCaptured}
use j_sdntrace.Capture.Loopback.{get_packet-set_packet_tcp, get_packet-set_packet_udp}
use j_sdntrace.Instances.{no_message}
use j_sdntrace.Instances.Sender.{native_send_packet}
use j_sdntrace.Instances.Transmit.{native_send_packet_tcp}
use j_sdntrace.Tests.{
  zeros, zeros-IsBytes, four_bytes, mac_a, mac_b, frame_ab, ip_ab, syn, query, request,
}
use j_sdntrace.Tests.Headers.{syn-IsTcp, query-IsUdp, four_bytes-small, request-IsEtherArp}
use j_sdntrace.Tests.Frames.{frame_ab-IsEthernet, ip_ab-IsAddressed}
use j_sdntrace.Tests.Captures.{captured}
use j_sdntrace.Tests.States.{opened, opened_handle_found, opened_handle_live}

get_packet-set_packet_tcp_example :
    (r : Region) × (c : Captured) × (set_packet true
        (packet frame_ab ip_ab (tcp_packet syn) four_bytes)
        zeros
      ≡ some (r, 58))
    × (get_packet (captured 60) r 1 6 ≡ some c)
    × IsCaptured tcp_object frame_ab ip_ab 6 44 (tcp (sent_value syn)) four_bytes c
get_packet-set_packet_tcp_example =
    get_packet-set_packet_tcp frame_ab ip_ab syn four_bytes zeros (captured 60) 6
      frame_ab-IsEthernet ip_ab-IsAddressed syn-IsTcp four_bytes-small zeros-IsBytes (omega arith)
      refl refl (omega arith) (omega arith)

get_packet-set_packet_udp_example :
    (r : Region) × (c : Captured) × (set_packet true
        (packet frame_ab ip_ab (udp_packet query) four_bytes)
        zeros
      ≡ some (r, 46))
    × (get_packet (captured 60) r 1 6 ≡ some c)
    × IsCaptured udp_object frame_ab ip_ab 17 32
        (udp (record { sport = 40000; dport = 53; ulen = 12 }))
        four_bytes
        c
get_packet-set_packet_udp_example =
    get_packet-set_packet_udp frame_ab ip_ab query four_bytes zeros (captured 60) 6
      frame_ab-IsEthernet ip_ab-IsAddressed query-IsUdp four_bytes-small zeros-IsBytes (omega arith)
      refl refl (omega arith) (omega arith)

native_send_packet_tcp_example :
    (sent_bytes : List ℕ) × (r : Region) × (native_send_packet 0
        (packet frame_ab ip_ab (tcp_packet syn) four_bytes)
        zeros
        true
        opened
      ≡ some (no_message, some sent_bytes))
    × (60 ≤ length sent_bytes)
    × (length sent_bytes ≤ 1600)
    × (take 58 sent_bytes ≡ slice r 0 58)
    × IsDelivered frame_ab ip_ab 6 44 r
native_send_packet_tcp_example =
    native_send_packet_tcp frame_ab ip_ab syn four_bytes zeros opened 0 100 true frame_ab-IsEthernet
      ip_ab-IsAddressed syn-IsTcp four_bytes-small zeros-IsBytes (omega arith) opened_handle_found
      opened_handle_live

abbrev frame_arp : EthernetPacket
frame_arp = record frame_ab { frametype = 0x0806 }

frame_arp-IsEthernet : IsEthernet frame_arp
frame_arp-IsEthernet = record {
  src_six = refl;
  dst_six = refl;
  frametype_fits = omega arith;
  src_bytes = ground arith;
  dst_bytes = ground arith;
}

get_packet-set_packet_arp_example :
    (r : Region) × (c : Captured) × (set_packet true
        (record { payload = none; datalink = some (ethernet frame_arp); body = arp_body request })
        zeros
      ≡ some (r, 42))
    × (get_packet (captured 60) r 1 6 ≡ some c)
    × (c.kind ≡ arp_object)
    × (c.datalink ≡ ethernet_value mac_b mac_a 0x0806)
    × (c.network ≡ arp (sent_arp request))
    × (c.payload ≡ some [])
get_packet-set_packet_arp_example =
    get_packet-set_packet_arp frame_arp request zeros (captured 60) 6 frame_arp-IsEthernet
      request-IsEtherArp refl (omega arith) (omega arith)

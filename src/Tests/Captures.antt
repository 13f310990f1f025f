-- ===== src/Tests/Captures.antt =====
-- Captured frames through `get_packet`.
use j_sdntrace.Base.{ℕ, ◌≡◌, refl, none, some, [], arith}
use j_sdntrace.Wire.{Region, ntohs, poke, put16, from, slice, View}
use j_sdntrace.Ip.{ip_value}
use j_sdntrace.Tcp.{tcp_value}
use j_sdntrace.Datalink.{datalink_value, ethernet_value}
use j_sdntrace.Protocol.{classify, transport_proto, tcp_object, udp_object, packet_object}
use j_sdntrace.Protocol.Classify.{classification-total}
use j_sdntrace.Capture.{
  PacketHeader, ipv4, no_network, tcp, udp, no_transport, Captured, captured_view, get_packet,
}
use j_sdntrace.Capture.Split.{IsSplit, get_packet-IsSplit}
use j_sdntrace.Capture.Complete.{get_packet_tcp, get_packet_udp}
use j_sdntrace.Capture.Truncated.{get_packet_cut_overread}
use j_sdntrace.Capture.Plain.{get_packet_unknown_link}
use j_sdntrace.Tests.{zeros}

abbrev pub captured : ℕ → PacketHeader
captured n = record { sec = 1; usec = 2; caplen = n; len = n }

-- An Ethernet frame with an IPv4 header of 20 bytes, of the protocol and the length given, and a
-- TCP offset of 20 bytes.
abbrev ipv4_frame : ℕ → ℕ → Region
ipv4_frame protocol n =
    poke (poke (put16 (poke (put16 zeros 12 8) 14 0x45) 16 (ntohs n)) 23 protocol) 46 0x50

get_packet_tcp_example :
    get_packet (captured 60) (ipv4_frame 6 44) 1 0
    ≡ some (record {
      kind = tcp_object;
      value = captured 60;
      datalink = ethernet_value (slice (ipv4_frame 6 44) 0 6) (slice (ipv4_frame 6 44) 6 6) 0x0800;
      network = ipv4 (ip_value (from (ipv4_frame 6 44) 14) none);
      transport = tcp (tcp_value (from (ipv4_frame 6 44) 34) none);
      header = slice (ipv4_frame 6 44) 0 54;
      payload = some (slice (from (ipv4_frame 6 44) 54) 0 4);
    })
get_packet_tcp_example =
    get_packet_tcp (captured 60) (ipv4_frame 6 44) 20 44 20 0
      (refl, refl, omega arith, refl, refl, refl, omega arith, omega arith) refl (omega arith)
      (omega arith)

get_packet_udp_example :
    get_packet (captured 60) (ipv4_frame 17 32) 1 0
    ≡ some (record {
      kind = udp_object;
      value = captured 60;
      datalink =
          ethernet_value (slice (ipv4_frame 17 32) 0 6) (slice (ipv4_frame 17 32) 6 6) 0x0800;
      network = ipv4 (ip_value (from (ipv4_frame 17 32) 14) none);
      transport = udp (record { sport = 0; dport = 0; ulen = 0 });
      header = slice (ipv4_frame 17 32) 0 42;
      payload = some (slice (from (ipv4_frame 17 32) 42) 0 4);
    })
get_packet_udp_example =
    get_packet_udp (captured 60) (ipv4_frame 17 32) 20 32 0
      (refl, refl, omega arith, refl, refl, refl, omega arith, omega arith) (omega arith)

abbrev pub unknown_captured : Captured
unknown_captured = record {
  kind = packet_object;
  value = captured 8;
  datalink = datalink_value;
  network = no_network;
  transport = no_transport;
  header = [];
  payload = some (slice zeros 0 8);
}

pub unknown_captured_made : get_packet (captured 8) zeros 113 0 ≡ some unknown_captured
unknown_captured_made =
    get_packet_unknown_link (captured 8) zeros 113 0 (ground arith) (ground arith) (ground arith)
      (omega arith)

get_packet-IsSplit_example : IsSplit (captured_view (captured 8) zeros) [] (slice zeros 0 8)
get_packet-IsSplit_example =
    get_packet-IsSplit (captured 8) zeros 113 0 unknown_captured (slice zeros 0 8) (omega arith)
      unknown_captured_made refl

abbrev arp_frame : Region
arp_frame = poke (poke (put16 zeros 12 0x0608) 18 6) 19 4

get_packet_cut_overread_example : get_packet (captured 40) (ipv4_frame 6 200) 1 0 ≡ none
get_packet_cut_overread_example =
    get_packet_cut_overread (captured 40) (ipv4_frame 6 200) 20 200 0 refl refl refl refl refl
      (omega arith) (omega arith) (omega arith) (omega arith) (omega arith)

abbrev view_of : ℕ → Region → View
view_of n r = record { bytes = r; size = n }

classification-total_example :
    (classify (view_of 60 arp_frame) 1 ≡ some (0x0806, 46))
    × (p : ℕ × ℕ) × (transport_proto (view_of 60 arp_frame) 1 0x0806 46 0 ≡ some p)
classification-total_example =
    classification-total (view_of 60 arp_frame) 0 (λ k. ground arith) (omega arith) (omega arith)

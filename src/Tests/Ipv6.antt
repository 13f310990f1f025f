-- ===== src/Tests/Ipv6.antt =====
-- Packets over IPv6, as they are sent, and the extension headers of one.
use j_sdntrace.Base.{ℕ, ◌≡◌, refl, true, some, List, [], ◌∷◌, arith}
use j_sdntrace.Wire.{Region, poke, from, slice, View, ◌>>=◌}
use j_sdntrace.Objects.{IpPacket, udp_packet}
use j_sdntrace.Ipv6.{ipv6_value}
use j_sdntrace.Sender.Ipv6.{udp_segment, IsIpv6Header, set_packet_ipv6}
use j_sdntrace.Sender.Frame.{packet}
use j_sdntrace.Sender.{set_packet}
use j_sdntrace.Datalink.{ethernet_value, analyze_datalink}
use j_sdntrace.Tests.{zeros, four_bytes, mac_a, mac_b, frame_ab, ip_ab, query}
use j_sdntrace.Tests.Headers.{query-IsUdp}
use j_sdntrace.Tests.Frames.{frame_ab-IsEthernet}

abbrev six_bytes : List ℕ
six_bytes = 32 ∷ 1 ∷ 0 ∷ 0 ∷ 0 ∷ 0 ∷ 0 ∷ 0 ∷ 0 ∷ 0 ∷ 0 ∷ 0 ∷ 0 ∷ 0 ∷ 0 ∷ 1 ∷ []

abbrev ip_six : IpPacket
ip_six = record ip_ab { version = 6; source_address = six_bytes; destination_address = six_bytes }

-- A UDP packet over IPv6.
set_packet_ipv6_example :
    (r : Region) × (set_packet true (packet frame_ab ip_six (udp_packet query) four_bytes) zeros
      ≡ some (r, 66))
    × (analyze_datalink (record { bytes = r; size = 66 }) 1
        ≡ some (ethernet_value mac_b mac_a 0x0800))
    × IsIpv6Header ip_six 17 52 (ipv6_value (from r 14))
    × (slice r 62 4 ≡ four_bytes)
set_packet_ipv6_example =
    set_packet_ipv6 frame_ab ip_six (udp_packet query) four_bytes 17 8 zeros frame_ab-IsEthernet
      (ground arith) (refl, refl, omega arith, omega arith) (udp_segment query-IsUdp) (omega arith)

-- A hop-by-hop header with TCP behind it, of which no byte is captured.
abbrev one_option : View
one_option = record { bytes = poke zeros 40 6; size = 48 }

-- ===== src/Tests/Frames.antt =====
-- Whole packets through `set_packet`.
use j_sdntrace.Wire.Laws.{length-slice}
use j_sdntrace.Base.{length, ℕ, ◌≡◌, refl, true, none, some, List, arith}
use j_sdntrace.Wire.{Region, from, slice}
use j_sdntrace.Objects.{tcp_packet, udp_packet}
use j_sdntrace.Tcp.{analyze_tcp}
use j_sdntrace.Tcp.Header.{sent_value}
use j_sdntrace.Udp.{analyze_udp}
use j_sdntrace.Sender.{set_packet}
use j_sdntrace.Sender.Segment.{IsEthernet, IsAddressed, IsDelivered}
use j_sdntrace.Sender.Frame.{packet, set_packet_tcp, set_packet_udp}
use j_sdntrace.Sender.Overflow.{set_packet_tcp_overflow}
use j_sdntrace.Tests.{zeros, zeros-IsBytes, four_bytes, frame_ab, ip_ab, syn, query}
use j_sdntrace.Tests.Headers.{syn-IsTcp, query-IsUdp, four_bytes-small, hosts}

pub frame_ab-IsEthernet : IsEthernet frame_ab
frame_ab-IsEthernet = record {
  src_six = refl;
  dst_six = refl;
  frametype_fits = omega arith;
  src_bytes = ground arith;
  dst_bytes = ground arith;
}

pub ip_ab-IsAddressed : IsAddressed ip_ab
ip_ab-IsAddressed = record {
  header = record {
    version_four = refl;
    priority_fits = omega arith;
    rsv_tos_fits = omega arith;
    ident_fits = omega arith;
    hop_limit_fits = omega arith;
    source_four = refl;
    destination_four = refl;
  };
  source_bytes = hosts.0;
  destination_bytes = hosts.1;
}

set_packet_tcp_example :
    (r : Region) × (set_packet true (packet frame_ab ip_ab (tcp_packet syn) four_bytes) zeros
      ≡ some (r, 58))
    × IsDelivered frame_ab ip_ab 6 44 r
    × (analyze_tcp (record { bytes = from r 34; size = 24 }) ≡ some (sent_value syn, 20))
    × (slice r 54 4 ≡ four_bytes)
set_packet_tcp_example =
    set_packet_tcp frame_ab ip_ab syn four_bytes zeros frame_ab-IsEthernet ip_ab-IsAddressed
      syn-IsTcp four_bytes-small zeros-IsBytes (omega arith)

set_packet_udp_example :
    (r : Region) × (set_packet true (packet frame_ab ip_ab (udp_packet query) four_bytes) zeros
      ≡ some (r, 46))
    × IsDelivered frame_ab ip_ab 17 32 r
    × (analyze_udp (record { bytes = from r 34; size = 12 })
        ≡ some (record { sport = 40000; dport = 53; ulen = 12 }))
    × (slice r 42 4 ≡ four_bytes)
set_packet_udp_example =
    set_packet_udp frame_ab ip_ab query four_bytes zeros frame_ab-IsEthernet ip_ab-IsAddressed
      query-IsUdp four_bytes-small zeros-IsBytes (omega arith)

-- A payload of 1601 zeros.
abbrev large : List ℕ
large = slice zeros 0 1601

large-length : length large ≡ 1601
large-length = length-slice zeros 0 1601

set_packet_tcp_overflow_example :
    set_packet true (packet frame_ab ip_ab (tcp_packet syn) large) zeros ≡ none
set_packet_tcp_overflow_example =
    set_packet_tcp_overflow frame_ab ip_ab syn large zeros refl (omega (arith, large-length))

-- ===== src/Tests/Datagrams.antt =====
-- ICMP messages and IP packets that are sent and captured, and captured IPv6 packets and fragments.
use j_sdntrace.Base.{◌≡◌, refl, inl, inr, true, none, some, List, [], ◌∷◌, arith}
use j_sdntrace.Wire.{Region, le16, ntohs, poke, put16, from, slice}
use j_sdntrace.Objects.{IpPacket, EthernetPacket, icmp_packet, ip_packet}
use j_sdntrace.Ip.{ip_value}
use j_sdntrace.Ipv6.{Ipv6Option, ipv6_value}
use j_sdntrace.Ipv6.Walk.{stop, options, outlines}
use j_sdntrace.Icmp.Message.{IsIcmp, echo_value}
use j_sdntrace.Tcp.{tcp_value}
use j_sdntrace.Datalink.{ethernet_value}
use j_sdntrace.Protocol.{tcp_object, icmp_object, ip_object, packet_object}
use j_sdntrace.Sender.{set_packet}
use j_sdntrace.Sender.Frame.{packet}
use j_sdntrace.Sender.Segment.{IsEthernet, IsAddressed}
use j_sdntrace.Capture.{ipv4, ipv6, tcp, icmp, no_transport, Captured, get_packet}
use j_sdntrace.Capture.Carried.{IsCaptured}
use j_sdntrace.Capture.EchoLoop.{get_packet-set_packet_icmp, get_packet-set_packet_ip}
use j_sdntrace.Capture.Ipv6Plain.{get_packet_ipv6_tcp}
use j_sdntrace.Capture.Ipv6Options.{IsExtendedIpv6, get_packet_ipv6_options}
use j_sdntrace.Capture.Other.{IsOther, plain_packet, get_packet-set_packet_other}
use j_sdntrace.Capture.Fragment.{get_packet_fragment}
use j_sdntrace.Tests.{zeros, zeros-IsBytes, four_bytes, mac_a, mac_b, frame_ab, ip_ab, ping}
use j_sdntrace.Tests.Headers.{four_bytes-small}
use j_sdntrace.Tests.Frames.{frame_ab-IsEthernet, ip_ab-IsAddressed}
use j_sdntrace.Tests.Captures.{captured}

ping-IsIcmp : IsIcmp ping
ping-IsIcmp = (omega arith, omega arith, omega arith)

get_packet-set_packet_icmp_example :
    (r : Region) × (c : Captured) × (set_packet true
        (packet frame_ab ip_ab (icmp_packet ping) four_bytes)
        zeros
      ≡ some (r, 46))
    × (get_packet (captured 60) r 1 6 ≡ some c)
    × IsCaptured icmp_object frame_ab ip_ab 1 32 (icmp (echo_value ping (le16 r 36))) four_bytes c
get_packet-set_packet_icmp_example =
    get_packet-set_packet_icmp frame_ab ip_ab ping four_bytes 2 zeros (captured 60) 6
      frame_ab-IsEthernet ip_ab-IsAddressed ping-IsIcmp (inr refl) four_bytes-small zeros-IsBytes
      refl (omega arith) refl refl (omega arith) (omega arith)

-- OSPF.
abbrev ospf : IpPacket
ospf = record ip_ab { protocol = 89 }

ospf-IsAddressed : IsAddressed ospf
ospf-IsAddressed = record {
  header = record {
    version_four = refl;
    priority_fits = omega arith;
    rsv_tos_fits = omega arith;
    ident_fits = omega arith;
    hop_limit_fits = omega arith;
    source_four = refl;
    destination_four = refl;
  };
  source_bytes = ground arith;
  destination_bytes = ground arith;
}

get_packet-set_packet_ip_example :
    (r : Region) × (c : Captured) × (set_packet true
        (packet frame_ab ospf ip_packet four_bytes)
        zeros
      ≡ some (r, 38))
    × (get_packet (captured 60) r 1 6 ≡ some c)
    × IsCaptured ip_object frame_ab ospf 89 24 no_transport four_bytes c
get_packet-set_packet_ip_example =
    get_packet-set_packet_ip frame_ab ospf four_bytes zeros (captured 60) 6 frame_ab-IsEthernet
      ospf-IsAddressed (omega arith) (ground arith) (ground arith) (ground arith) four_bytes-small
      zeros-IsBytes (omega arith) (omega arith) refl refl (omega arith) (omega arith)

-- The second fragment of a datagram, at the offset 8.
abbrev fragment_frame : Region
fragment_frame = put16 (put16 (poke (put16 zeros 12 8) 14 0x45) 16 (ntohs 28)) 20 (ntohs 1)

get_packet_fragment_example :
    get_packet (captured 60) fragment_frame 1 6
    ≡ some (record {
      kind = ip_object;
      value = captured 60;
      datalink = ethernet_value (slice fragment_frame 0 6) (slice fragment_frame 6 6) 0x0800;
      network = ipv4 (ip_value (from fragment_frame 14) none);
      transport = no_transport;
      header = slice fragment_frame 0 34;
      payload = some (slice (from fragment_frame 34) 0 8);
    })
get_packet_fragment_example =
    get_packet_fragment (captured 60) fragment_frame 20 28 6
      (refl, refl, omega arith, ground arith, omega arith, refl, omega arith, omega arith)

-- An IPv6 packet with a TCP segment of 24 bytes.
abbrev ipv6_frame : Region
ipv6_frame = poke (poke (put16 (poke (put16 zeros 12 0xdd86) 14 0x60) 18 (ntohs 24)) 20 6) 66 0x50

get_packet_ipv6_tcp_example :
    get_packet (captured 78) ipv6_frame 1 6
    ≡ some (record {
      kind = tcp_object;
      value = captured 78;
      datalink = ethernet_value (slice ipv6_frame 0 6) (slice ipv6_frame 6 6) 0x86dd;
      network = ipv6 (ipv6_value (from ipv6_frame 14)) [];
      transport = tcp (tcp_value (from ipv6_frame 54) none);
      header = slice ipv6_frame 0 74;
      payload = some (slice (from ipv6_frame 74) 0 4);
    })
get_packet_ipv6_tcp_example =
    get_packet_ipv6_tcp (captured 78) ipv6_frame 24 20 6
      (refl, refl, refl, refl, omega arith, omega arith) refl (omega arith) (omega arith)

-- An IPv6 packet with a hop-by-hop header of eight bytes in front of a TCP segment of 20 bytes.
abbrev options_frame : Region
options_frame = poke (put16 (poke (put16 zeros 12 0xdd86) 14 0x60) 18 (ntohs 28)) 54 6

options_frame-IsExtendedIpv6 : IsExtendedIpv6 (captured 82) options_frame 28 ((0, 6, 0) ∷ []) 8
options_frame-IsExtendedIpv6 = record {
  frametype = refl;
  version_six = refl;
  extended = refl;
  length_same = refl;
  some_bytes = omega arith;
  captured = omega arith;
  small = omega arith;
  walk = options (inl refl) (omega arith) (stop refl);
  inside = omega arith;
}

get_packet_ipv6_options_example :
    (list : List Ipv6Option) × (get_packet (captured 82) options_frame 1 6
      ≡ some (record {
        kind = ip_object;
        value = captured 82;
        datalink = ethernet_value (slice options_frame 0 6) (slice options_frame 6 6) 0x86dd;
        network = ipv6 (ipv6_value (from options_frame 14)) list;
        transport = no_transport;
        header = slice options_frame 0 62;
        payload = some (slice (from options_frame 62) 0 20);
      }))
    × (outlines list ≡ (0, 6, 0) ∷ [])
get_packet_ipv6_options_example =
    get_packet_ipv6_options (captured 82) options_frame 28 6 ((0, 6, 0) ∷ []) 8
      options_frame-IsExtendedIpv6

-- A frame of LLDP.
abbrev frame_lldp : EthernetPacket
frame_lldp = record { src_mac = mac_a; dst_mac = mac_b; frametype = 0x88cc }

frame_lldp-IsEthernet : IsEthernet frame_lldp
frame_lldp-IsEthernet = record {
  src_six = refl;
  dst_six = refl;
  frametype_fits = omega arith;
  src_bytes = frame_ab-IsEthernet.src_bytes;
  dst_bytes = frame_ab-IsEthernet.dst_bytes;
}

lldp-IsOther : IsOther 0x88cc
lldp-IsOther = record {
  fits = omega arith;
  no_ip = λ e. omega (arith, e);
  no_ipv6 = λ e. omega (arith, e);
  no_arp = λ e. omega (arith, e);
  no_rarp = λ e. omega (arith, e);
  no_tcp = λ e. omega (arith, e);
  no_udp = λ e. omega (arith, e);
  no_icmp = λ e. omega (arith, e);
}

get_packet-set_packet_other_example :
    (r : Region) × (c : Captured) × (set_packet true (plain_packet frame_lldp four_bytes) zeros
      ≡ some (r, 18))
    × (get_packet (captured 18) r 1 6 ≡ some c)
    × (c.kind ≡ packet_object)
    × (c.datalink ≡ ethernet_value mac_b mac_a 0x88cc)
    × (c.payload ≡ some four_bytes)
get_packet-set_packet_other_example =
    get_packet-set_packet_other frame_lldp four_bytes zeros (captured 18) 6 frame_lldp-IsEthernet
      lldp-IsOther (omega arith) (omega arith) refl

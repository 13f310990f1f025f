-- ===== src/Tests.antt =====
-- Concrete packets and states, and what the theorems say of them.
pub mod Checksum
pub mod Headers
pub mod Frames
pub mod Captures
pub mod States
pub mod Loops
pub mod Clients
pub mod Calls
pub mod Traces
pub mod Datagrams
pub mod Ipv6
use j_sdntrace.Base.{ℕ, true, false, none, List, [], ◌∷◌, arith}
use j_sdntrace.Wire.{Region, IsBytes}
use j_sdntrace.Objects.{IpPacket, TcpPacket, UdpPacket, IcmpPacket, ArpPacket, EthernetPacket}

-- A buffer of zeros.
abbrev pub zeros : Region
zeros k = 0

pub zeros-IsBytes : IsBytes zeros
zeros-IsBytes k = omega arith

abbrev pub four_bytes : List ℕ
four_bytes = 1 ∷ 2 ∷ 3 ∷ 4 ∷ []

abbrev pub host_a : List ℕ
host_a = 10 ∷ 0 ∷ 0 ∷ 1 ∷ []

abbrev pub host_b : List ℕ
host_b = 10 ∷ 0 ∷ 0 ∷ 2 ∷ []

abbrev pub mac_a : List ℕ
mac_a = 2 ∷ 0 ∷ 0 ∷ 0 ∷ 0 ∷ 1 ∷ []

abbrev pub mac_b : List ℕ
mac_b = 2 ∷ 0 ∷ 0 ∷ 0 ∷ 0 ∷ 2 ∷ []

abbrev pub frame_ab : EthernetPacket
frame_ab = record { src_mac = mac_a; dst_mac = mac_b; frametype = 0x0800 }

abbrev pub ip_ab : IpPacket
ip_ab = record {
  version = 4;
  priority = 0;
  d_flag = false;
  t_flag = false;
  r_flag = false;
  rsv_tos = 0;
  rsv_frag = false;
  dont_frag = true;
  more_frag = false;
  offset = 0;
  ident = 513;
  hop_limit = 64;
  protocol = 6;
  flow_label = 0;
  source_address = host_a;
  destination_address = host_b;
}

abbrev pub syn : TcpPacket
syn = record {
  src_port = 40000;
  dst_port = 80;
  sequence = 0x0102_0304;
  ack_num = 0;
  urg = false;
  ack = false;
  psh = false;
  rst = false;
  syn = true;
  fin = false;
  rsv1 = false;
  rsv2 = false;
  window = 8192;
  urgent_pointer = 0;
}

abbrev pub query : UdpPacket
query = record { src_port = 40000; dst_port = 53 }

abbrev pub request : ArpPacket
request = record {
  hardtype = 1;
  prototype = 0x0800;
  hlen = 6;
  plen = 4;
  operation = 1;
  sender_hardaddr = mac_a;
  sender_protoaddr = host_a;
  target_hardaddr = mac_b;
  target_protoaddr = host_b;
}

abbrev pub ping : IcmpPacket
ping = record {
  type = 8;
  code = 0;
  id = 0x1234;
  seq = 1;
  orig_timestamp = 1;
  recv_timestamp = 2;
  trans_timestamp = 3;
  subnetmask = 0;
  redirect_ip = host_a;
  ippacket = none;
}

-- ===== src/Objects.antt =====
-- The Java objects that the native code reads on sending: the fields that it asks for by `GetIntField`
-- and the like. A Java integer is its bit pattern, a byte array the list of its bytes.
use j_sdntrace.Base.{ℕ, Bool, Option, List}

-- jpcap.packet.IPPacket
pub record IpPacket : Type 0 where
  pub version : ℕ
  pub priority : ℕ
  pub d_flag : Bool
  pub t_flag : Bool
  pub r_flag : Bool
  pub rsv_tos : ℕ
  pub rsv_frag : Bool
  pub dont_frag : Bool
  pub more_frag : Bool
  pub offset : ℕ
  pub ident : ℕ
  pub hop_limit : ℕ
  pub protocol : ℕ
  pub flow_label : ℕ
  pub source_address : List ℕ
  pub destination_address : List ℕ

-- jpcap.packet.TCPPacket
pub record TcpPacket : Type 0 where
  pub src_port : ℕ
  pub dst_port : ℕ
  pub sequence : ℕ
  pub ack_num : ℕ
  pub urg : Bool
  pub ack : Bool
  pub psh : Bool
  pub rst : Bool
  pub syn : Bool
  pub fin : Bool
  pub rsv1 : Bool
  pub rsv2 : Bool
  pub window : ℕ
  pub urgent_pointer : ℕ

-- jpcap.packet.UDPPacket
pub record UdpPacket : Type 0 where
  pub src_port : ℕ
  pub dst_port : ℕ

-- jpcap.packet.ICMPPacket
pub record IcmpPacket : Type 0 where
  pub type : ℕ
  pub code : ℕ
  pub id : ℕ
  pub seq : ℕ
  pub orig_timestamp : ℕ
  pub recv_timestamp : ℕ
  pub trans_timestamp : ℕ
  pub subnetmask : ℕ
  pub redirect_ip : List ℕ
  pub ippacket : Option IpPacket

-- jpcap.packet.ARPPacket
pub record ArpPacket : Type 0 where
  pub hardtype : ℕ
  pub prototype : ℕ
  pub hlen : ℕ
  pub plen : ℕ
  pub operation : ℕ
  pub sender_hardaddr : List ℕ
  pub sender_protoaddr : List ℕ
  pub target_hardaddr : List ℕ
  pub target_protoaddr : List ℕ

-- jpcap.packet.EthernetPacket
pub record EthernetPacket : Type 0 where
  pub src_mac : List ℕ
  pub dst_mac : List ℕ
  pub frametype : ℕ

-- `none` of the field `datalink` is null; a plain DatalinkPacket is no EthernetPacket.
pub data Datalink : Type 0 where
  plain : Datalink
  ethernet : EthernetPacket → Datalink

-- The subclasses of IPPacket, and IPPacket itself.
pub data Transport : Type 0 where
  tcp_packet : TcpPacket → Transport
  udp_packet : UdpPacket → Transport
  icmp_packet : IcmpPacket → Transport
  ip_packet : Transport

-- The class of a packet.
pub data Body : Type 0 where
  ip_body : IpPacket → Transport → Body
  arp_body : ArpPacket → Body
  other_body : Body

-- jpcap.packet.Packet; `payload` is its field `data`, which may be null.
pub record Packet : Type 0 where
  pub payload : Option (List ℕ)
  pub datalink : Option Datalink
  pub body : Body

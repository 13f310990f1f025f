-- ===== src/Capture/Carried.antt =====
-- What the analyzers read of a frame that `set_packet` lays out, and what is captured of it.
use j_sdntrace.Udp.{UdpValue, analyze_udp}
use j_sdntrace.Capture.{PacketHeader, ipv4, TransportValue, Captured}
use j_sdntrace.Capture.Complete.{IsFirstFragment}
use j_sdntrace.Objects.{IpPacket, EthernetPacket}
use j_sdntrace.Protocol.{Kind}
use j_sdntrace.Sender.Ipv4.{IsReadBack}
use j_sdntrace.Sender.Segment.{IsCarried}
use j_sdntrace.Base.{ℕ, ◌+◌, ◌%◌, ◌≤◌, ◌<◌, ◌≡◌, ap, ◌∙◌, none, some, List, arith}
use j_sdntrace.Wire.{Region, le16, ntohs, from, slice, View}
use j_sdntrace.Ip.{IpValue, ip_hlen, ip_value, analyze_ip}
use j_sdntrace.Tcp.{TcpValue, tcp_value, tcp_hlen, analyze_tcp}
use j_sdntrace.Datalink.{ethernet_value, analyze_datalink}

pub analyze_datalink-type :
    (v : View) (dst src : List ℕ) (frametype : ℕ)
    → analyze_datalink v 1 ≡ some (ethernet_value dst src frametype)
    → (ntohs (le16 v.bytes 12) ≡ frametype) × (slice v.bytes 0 6 ≡ dst) × (slice v.bytes 6 6 ≡ src)
unfolding analyze_datalink
analyze_datalink-type v dst src frametype e = ground arith

analyze_ip-inversion :
    (v : View) (x : IpValue)
    → analyze_ip v ≡ some (x, 20)
    → (ip_hlen v.bytes ≡ 20) × (ip_value v.bytes none ≡ x)
unfolding analyze_ip
analyze_ip-inversion v x e = ground arith

pub analyze_udp-inversion :
    (v : View) (x : UdpValue)
    → analyze_udp v ≡ some x
    → record {
      sport = ntohs (le16 v.bytes 0);
      dport = ntohs (le16 v.bytes 2);
      ulen = ntohs (le16 v.bytes 4);
    }
      ≡ x
unfolding analyze_udp
analyze_udp-inversion v x e = ground arith

pub analyze_tcp-inversion :
    (v : View) (x : TcpValue)
    → analyze_tcp v ≡ some (x, 20)
    → (tcp_hlen v.bytes ≡ 20) × (tcp_value v.bytes none ≡ x)
unfolding analyze_tcp
analyze_tcp-inversion v x e = ground arith

module _ (e : EthernetPacket) (p : IpPacket) (protocol n : ℕ) (r : Region)
    (carried : IsCarried e p protocol n r) (ipv4_frame : e.frametype ≡ 0x0800)
    (unfragmented : p.offset ≡ 0) where
  pub read_value : (ip_hlen (from r 14) ≡ 20) × (ip_value (from r 14) none ≡ carried.value)
  read_value =
      analyze_ip-inversion (record { bytes = from r 14; size = n }) carried.value carried.network

  read_fields : (r 23 ≡ protocol) × (ntohs (le16 r 16) ≡ n) × (ntohs (le16 r 20) % 8192 ≡ 0)
  unfolding ip_value
  read_fields = (
    ap (λ (x : IpValue). x.protocol) read_value.1 ∙ carried.same.protocol_same,
    ap (λ (x : IpValue). x.len) read_value.1 ∙ carried.same.len_same,
    ap (λ (x : IpValue). x.offset) read_value.1 ∙ carried.same.offset_zero unfragmented,
  )

  pub read_link :
      (ntohs (le16 r 12) ≡ 0x0800) × (slice r 0 6 ≡ e.dst_mac) × (slice r 6 6 ≡ e.src_mac)
  read_link =
      let link =
        analyze_datalink-type (record { bytes = r; size = 14 + n }) e.dst_mac e.src_mac e.frametype
          carried.link in
      (link.0 ∙ ipv4_frame, link.1, link.2)

  pub first_fragment :
      (value : PacketHeader)
      → 14 + n ≤ value.caplen
      → value.caplen < 32768
      → IsFirstFragment value r protocol 20 n
  first_fragment value captured small = (
    read_link.0,
    read_value.0,
    omega arith,
    read_fields.2,
    read_fields.0,
    read_fields.1,
    captured,
    small,
  )

-- What is captured of a packet that was sent, where nothing but the transport layer depends on the
-- protocol.
abbrev pub IsCaptured :
    Kind → EthernetPacket → IpPacket → ℕ → ℕ → TransportValue → List ℕ → Captured → Type 0
IsCaptured kind e p protocol n transport bytes c =
    (c.kind ≡ kind)
    × (c.datalink ≡ ethernet_value e.dst_mac e.src_mac 0x0800)
    × (x : IpValue) × (c.network ≡ ipv4 x)
    × IsReadBack p protocol n x
    × (c.transport ≡ transport)
    × (c.payload ≡ some bytes)

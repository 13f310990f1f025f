-- ===== src/Capture.antt =====
-- `get_packet` in JpcapCaptor.c: the object for a captured packet, its headers and its data.
pub mod Split
pub mod Complete
pub mod Truncated
pub mod Plain
pub mod Other
pub mod Fragment
pub mod Ipv6Plain
pub mod Ipv6Options
pub mod Carried
pub mod Loopback
pub mod ArpLoop
pub mod EchoLoop
use j_sdntrace.Base.{
  ltb, ◌==◌, if◌then◌else◌, ℕ, ◌+◌, ◌-◌, ◌%◌, ◌^◌, Bool, not, ◌&&◌, Option, none, some, List,
}
use j_sdntrace.Wire.{Region, le16, ntohs, View, skip, new_array, ◌>>=◌}
use j_sdntrace.Ip.{IpValue, analyze_ip}
use j_sdntrace.Ipv6.{Ipv6Value, Ipv6Option, analyze_ipv6}
use j_sdntrace.Tcp.{TcpValue, analyze_tcp}
use j_sdntrace.Udp.{UdpValue, analyze_udp}
use j_sdntrace.Icmp.{IcmpValue, analyze_icmp}
use j_sdntrace.Arp.{ArpValue, analyze_arp}
use j_sdntrace.Datalink.{DatalinkValue, analyze_datalink}
use j_sdntrace.Protocol.{
  unknown_proto, sub16, offset_data, classify, transport_proto, checked_proto, Kind, kind_of,
}

-- `struct pcap_pkthdr`; `caplen` is the number of captured bytes.
pub record PacketHeader : Type 0 where
  pub sec : ℕ
  pub usec : ℕ
  pub caplen : ℕ
  pub len : ℕ

-- What the setters of the network and of the transport layer were handed.
pub data NetworkValue : Type 0 where
  ipv4 : IpValue → NetworkValue
  ipv6 : Ipv6Value → List Ipv6Option → NetworkValue
  arp : ArpValue → NetworkValue
  no_network : NetworkValue

pub data TransportValue : Type 0 where
  tcp : TcpValue → TransportValue
  udp : UdpValue → TransportValue
  icmp : IcmpValue → TransportValue
  no_transport : TransportValue

-- The packet object; `payload` is what `setPacketData` was handed.
pub record Captured : Type 0 where
  pub kind : Kind
  pub value : PacketHeader
  pub datalink : DatalinkValue
  pub network : NetworkValue
  pub transport : TransportValue
  pub header : List ℕ
  pub payload : Option (List ℕ)

-- `data += hlen` of a `short` on a 64-bit pointer, as an offset from `orig_data`.
abbrev pub advance : ℕ → ℕ → ℕ
advance pos s = if ltb s 32768 then (pos + s) % 2 ^ 64 else (pos + (2 ^ 64 - 65536) + s) % 2 ^ 64

-- `clen > header.caplen - datalink_hlen(id)`, in `u_int32_t`.
abbrev pub extend32 : ℕ → ℕ
extend32 s = if ltb s 32768 then s else s + (2 ^ 32 - 65536)

abbrev pub captured_length : ℕ → ℕ → ℕ
captured_length caplen linktype = (caplen + 2 ^ 32 - offset_data linktype) % 2 ^ 32

-- The network layer: its value, `clen` and `hlen`.
unfoldable pub network_layer : View → ℕ → ℕ → ℕ → Option (NetworkValue × ℕ × ℕ)
network_layer v caplen linktype nproto =
    let data_at = skip v (offset_data linktype) in
    let v4 = do (x, hlen) ← analyze_ip data_at; some (ipv4 x, ntohs (le16 data_at.bytes 2), hlen)
    in let v6 = do
      (x, options, hlen) ← analyze_ipv6 data_at
      some (ipv6 x options, (ntohs (le16 data_at.bytes 4) + 40) % 65536, hlen)
      in let arp_message = do (x, n) ← analyze_arp data_at; some (arp x, n % 65536, n % 65536)
        in if nproto == 0x0800
          then v4
          else if nproto == 0x86dd
          then v6
          else if nproto == 0x0806
          then arp_message
          else if nproto == unknown_proto
          then some (no_network, caplen % 65536, 0)
          else some (no_network, captured_length caplen linktype % 65536, 0)

-- `clen` is cut to the captured bytes, if both protocols are known.
abbrev pub trimmed : ℕ → ℕ → ℕ → ℕ → ℕ → ℕ
trimmed caplen linktype nproto tproto clen =
    if not (nproto == unknown_proto)
      && not (tproto == unknown_proto)
      && ltb (captured_length caplen linktype) (extend32 clen)
    then captured_length caplen linktype % 65536
    else clen

-- The transport layer at `data`: its value and `hlen`.
unfoldable pub transport_layer : View → ℕ → ℕ → Option (TransportValue × ℕ)
transport_layer v tproto clen =
    let with_tcp = do (x, hlen) ← analyze_tcp v; some (tcp x, hlen)
    in let with_udp = do x ← analyze_udp v; some (udp x, 8)
      in let with_icmp = do x ← analyze_icmp v clen; some (icmp x, 8)
        in if tproto == 6
          then with_tcp
          else if tproto == 17
          then with_udp
          else if tproto == 1
          then with_icmp
          else some (no_transport, 0)

-- `hlen > clen` of two `short`s.
abbrev pub less16 : ℕ → ℕ → Bool
less16 a b = ltb ((a + 32768) % 65536) ((b + 32768) % 65536)

-- The two arrays, once `data` and `clen` are behind the transport header. `NewByteArray` fails on a
-- negative length, and the copy into its null result is a fault; a negative `clen` sets no data.
unfoldable pub cut_arrays : View → ℕ → ℕ → Option (List ℕ × Option (List ℕ))
cut_arrays v pos clen =
    let h = pos % 65536 in
    let data_array = do bytes ← new_array (skip v pos) 0 clen; some (some bytes)
    in let both = do
      header ← new_array v 0 h
      payload ← if ltb clen 32768 then data_array else some none
      some (header, payload)
      in if ltb h 32768 then both else none

-- The transport header is cut off at `clen`.
unfoldable pub set_arrays : View → ℕ → ℕ → ℕ → Option (List ℕ × Option (List ℕ))
set_arrays v pos clen hlen =
    let hlen' = if less16 clen hlen then clen else hlen in
    cut_arrays v (advance pos hlen') (sub16 clen hlen')

-- The captured bytes at `data`.
abbrev pub captured_view : PacketHeader → Region → View
captured_view value bytes = record { bytes = bytes; size = value.caplen }

unfoldable pub get_packet : PacketHeader → Region → ℕ → ℕ → Option Captured
get_packet value bytes linktype junk = do
  let v = captured_view value bytes
  (nproto, clen0) ← classify v linktype
  (tproto0, clen1) ← transport_proto v linktype nproto clen0 junk
  let tproto = checked_proto tproto0 clen1
  datalink ← analyze_datalink v linktype
  (network, clen2, hlen) ← network_layer v value.caplen linktype nproto
  let base : ℕ = if nproto == unknown_proto then 0 else offset_data linktype
  let clen3 = sub16 (trimmed value.caplen linktype nproto tproto clen2) hlen
  let pos = advance base hlen
  (transport, hlen2) ← transport_layer (skip v pos) tproto clen3
  (header, payload) ← set_arrays v pos clen3 hlen2
  some (record {
    kind = kind_of nproto tproto;
    value = value;
    datalink = datalink;
    network = network;
    transport = transport;
    header = header;
    payload = payload;
  })
